-- ===== src/Inspect/Signature.antt =====
-- The payload signatures of src/inspect.rs. A payload is the list of its bytes; a mask on a
-- byte is written with `/` and `%`.
use tunnel_rs.Base.{
  ℕ, ◌+◌, ◌-◌, ◌*◌, ◌%◌, ◌/◌, Bool, true, false, ◌&&◌, ◌||◌, not, List, [], ◌∷◌, length, take, drop,
  leb, ltb, ◌==◌, nat_eq, ◌>>=◌, ◌++◌, codes, if◌then◌else◌, min, Option, none, some,
}
use tunnel_rs.Base.Bytes.{byte}

-- `u32::from_be_bytes` of four bytes of the payload
unfoldable pub u32_at : List ℕ → ℕ → ℕ
unfolding byte
u32_at p i = ((byte p i * 256 + byte p (i + 1)) * 256 + byte p (i + 2)) * 256 + byte p (i + 3)

-- The slice `p` starts with the bytes `q`.
unfoldable pub starts_with : List ℕ → List ℕ → Bool
starts_with p [] = true
starts_with [] (y ∷ q) = false
starts_with (x ∷ p) (y ∷ q) = x == y && starts_with p q

-- The lengths of the four WireGuard messages.
unfoldable pub wireguard_length : ℕ → ℕ → Bool
wireguard_length kind n =
    if kind == 1
    then n == 148
    else (if kind == 2
        then n == 92
        else (if kind == 3
            then n == 64
            else (if kind == 4 then leb 32 n && (n - 16) % 16 == 0 else false)))

unfoldable pub is_wireguard : List ℕ → Bool
unfolding byte wireguard_length
is_wireguard p =
    if ltb (length p) 4 || not (byte p 1 == 0) || not (byte p 2 == 0) || not (byte p 3 == 0)
    then false
    else wireguard_length (byte p 0) (length p)

unfoldable pub is_quic : List ℕ → Bool
unfolding byte u32_at
is_quic p =
    if ltb (length p) 5 || not (byte p 0 / 64 == 3)
    then false
    else (u32_at p 1 == 0 || u32_at p 1 == 1 || u32_at p 1 == 0x6b3343cf)

unfoldable pub is_tls : List ℕ → Bool
unfolding byte
is_tls p = leb 3 (length p) && byte p 0 == 0x16 && byte p 1 == 0x03 && leb (byte p 2) 0x04

unfoldable pub is_bittorrent : List ℕ → Bool
unfolding byte starts_with
is_bittorrent p =
    leb 20 (length p) && byte p 0 == 19 && starts_with (drop 1 p) (codes "BitTorrent protocol")

-- `iter().position(f)` with what stands before the place found: `&line[..end]`
unfoldable pub before : (ℕ → Bool) → List ℕ → Option (List ℕ)
before f [] = none
before f (x ∷ p) = if f x then some [] else (before f p >>= λ q. some (x ∷ q))

-- `match position { Some(q) => &p[..q], None => p }`
unfoldable pub upto : (ℕ → Bool) → List ℕ → List ℕ
unfolding before
upto f p = elim (before f p) [ none ↦ p | some q ↦ q ]

-- `rsplit(|&b| b == sep).next()`: what stands behind the last separator
unfoldable pub last_part : ℕ → List ℕ → List ℕ → List ℕ
last_part sep part [] = part
last_part sep part (x ∷ p) = last_part sep (if x == sep then [] else part ++ (x ∷ [])) p

-- The tracker verb of a request path, with a query string and a script extension cut off.
unfoldable pub verb_of : List ℕ → List ℕ
unfolding upto last_part
verb_of path = upto (λ b. b == b'.') (last_part b'/' [] (upto (λ b. b == b'?') path))

unfoldable pub same_bytes : List ℕ → List ℕ → Bool
same_bytes [] [] = true
same_bytes (x ∷ p) (y ∷ q) = x == y && same_bytes p q
same_bytes p q = false

unfoldable pub tracker_path : List ℕ → Bool
unfolding verb_of same_bytes
tracker_path path =
    same_bytes (verb_of path) (codes "announce") || same_bytes (verb_of path) (codes "scrape")

unfoldable pub is_http_tracker : List ℕ → Bool
unfolding starts_with before tracker_path
is_http_tracker p =
    if starts_with p (codes "GET /")
    then elim (before (λ b. b == b' ' || b == 13 || b == 10) (take 512 (drop 5 p))) [
      | none ↦ false
      | some path ↦ tracker_path path
    ]
    else false

unfoldable pub is_utp : List ℕ → Bool
unfolding byte u32_at
is_utp p =
    if ltb (length p) 20
    then false
    else (if not (byte p 0 % 16 == 1) || ltb 4 (byte p 0 / 16) || ltb 2 (byte p 1)
        then false
        else leb (u32_at p 12) (16 * 1024 * 1024))

unfoldable pub is_dht : List ℕ → Bool
unfolding byte starts_with
is_dht p =
    if ltb (length p) 12 || not (byte p 0 == b'd')
    then false
    else (starts_with (drop 1 p) (codes "1:ad")
        || starts_with (drop 1 p) (codes "1:rd")
        || starts_with (drop 1 p) (codes "1:el")
        || starts_with (drop 1 p) (codes "2:ip"))

abbrev pub magic : List ℕ
magic = 0x00 ∷ 0x00 ∷ 0x04 ∷ 0x17 ∷ 0x27 ∷ 0x10 ∷ 0x19 ∷ 0x80 ∷ []

unfoldable pub is_bt_tracker : List ℕ → Bool
unfolding same_bytes
is_bt_tracker p =
    leb 16 (length p)
    && same_bytes (take 8 p) magic
    && same_bytes (take 4 (drop 8 p)) (0 ∷ 0 ∷ 0 ∷ 0 ∷ [])

-- `looks_random` up to the entropy, whose floats are the parameter `above`: whether the
-- entropy of the first 256 bytes, in tenths of a bit for a byte, is more than a bar.
unfoldable pub entropy_bar : ℕ → ℕ
entropy_bar n = if ltb n 128 then 55 else (if ltb n 192 then 60 else (if ltb n 256 then 64 else 68))

unfoldable pub looks_random : (above : List ℕ → ℕ → Bool) → List ℕ → Bool
unfolding entropy_bar
looks_random above p =
    let n = min (length p) 256 in if ltb n 96 then false else above (take 256 p) (entropy_bar n)

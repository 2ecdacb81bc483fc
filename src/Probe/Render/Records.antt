-- ===== src/Probe/Render/Records.antt =====
-- What a record's text may hold, whatever bytes a server sends: each case of `render_rdata` in
-- src/probe.rs.
use tunnel_rs.Base.Bytes.{byte}
use tunnel_rs.Base.{
  ℕ, zero, suc, ◌+◌, ◌≤◌, ◌≡◌, subst, refl, inl, inr, ◌||◌, Option, none, some, List, [], ◌∷◌, ◌++◌,
  length, drop, ltb, ◌==◌, nat_eq, if◌then◌else◌, codes, ◌>>=◌, arith, All, All-drop, Option-cases,
}
use tunnel_rs.Probe.Name.{read_name}
use tunnel_rs.Probe.Name.Bounds.{IsByte, slice_lem, Decides, read_name-Decides}
use tunnel_rs.Probe.Render.{
  read_u16, read_u32, to_option, name_message, malformed, render_caa, render_tlsa, render_soa,
  txt_loop, render_txt, render_v4, render_name, render_mx, or_text, rdata_text, render_rdata,
  max_rdata_chars,
}
use tunnel_rs.Probe.Text.{
  truncated_name, truncated_label, name_too_long, truncated_pointer, pointer_loop, pointer_past_end,
  reserved_label, Text, is_empty, push_escaped, decimal, Error, Result, ok, err, slice,
}
use tunnel_rs.Probe.Render.Clean.{
  Clean, append-Clean, printable-Clean, cond-Clean, push_escaped-Clean, decimal-Clean,
  hex_head-Clean, malformed-Clean, number-Clean, clamp_to_lem,
}

render_tlsa-Clean : (rdata : List ℕ) → All IsByte rdata → Clean (render_tlsa rdata)
unfolding render_tlsa
render_tlsa-Clean rdata bytes =
    let rest = hex_head-Clean (drop 3 rdata) (All-drop IsByte 3 rdata bytes) in
    cond-Clean (ltb (length rdata) 3) _ _ (malformed-Clean rdata bytes) (
      cond-Clean (is_empty (drop 3 rdata)) _ _ (malformed-Clean rdata bytes) (
        number-Clean (byte rdata 0) _
          (number-Clean (byte rdata 1) _ (number-Clean (byte rdata 2) _ rest))))

render_v4-Clean : (rdata : List ℕ) → Clean (render_v4 rdata)
unfolding render_v4
render_v4-Clean rdata = append-Clean (decimal (byte rdata 0)) _ (decimal-Clean (byte rdata 0)) (
    append-Clean (decimal (byte rdata 1)) _ (decimal-Clean (byte rdata 1)) (
      append-Clean (decimal (byte rdata 2)) _ (decimal-Clean (byte rdata 2))
        (decimal-Clean (byte rdata 3))))

render_caa-Clean : (rdata : List ℕ) → All IsByte rdata → Clean (render_caa rdata)
unfolding render_caa
render_caa-Clean rdata bytes =
    let bad = malformed-Clean rdata bytes in
    cond-Clean (ltb (length rdata) 2) _ _ bad (
      cond-Clean (byte rdata 1 == 0 || ltb 15 (byte rdata 1)) _ _ bad
        (go (slice rdata 2 (byte rdata 1)) refl))
  where
    go :
        (tag : Option (List ℕ))
        → slice rdata 2 (byte rdata 1) ≡ tag
        → Clean (elim tag [
          | none ↦ malformed rdata
          | some tag ↦
              push_escaped
                (push_escaped (decimal (byte rdata 0) ++ codes " ") tag ++ codes " \"")
                (drop (2 + byte rdata 1) rdata)
              ++ codes "\""
        ])
    go none e = malformed-Clean rdata bytes
    go (some tag) e =
        let (fits, size, keeps) = slice_lem rdata 2 (byte rdata 1) tag e in
        let flag =
          append-Clean (decimal (byte rdata 0)) (codes " ") (decimal-Clean (byte rdata 0)) refl in
        let number : Text = decimal (byte rdata 0) ++ codes " " in
        let opened : Text = push_escaped number tag ++ codes " \"" in
        let tagged =
          push_escaped-Clean (decimal (byte rdata 0) ++ codes " ") tag flag (keeps bytes) in
        append-Clean (push_escaped opened (drop (2 + byte rdata 1) rdata)) (codes "\"")
          (push_escaped-Clean opened (drop (2 + byte rdata 1) rdata)
            (append-Clean (push_escaped number tag) (codes " \"") tagged refl)
            (All-drop IsByte (2 + byte rdata 1) rdata bytes))
          refl

-- A decoded name is clean.
pub read_name-Clean :
    (msg : List ℕ) (off : ℕ) (v : Text × ℕ)
    → All IsByte msg
    → read_name msg off ≡ ok v
    → Clean v.0 × (length v.0 ≤ 255)
read_name-Clean msg off v bytes e =
    let there : Decides msg off (ok v) =
      subst (λ r. Decides msg off r) e (read_name-Decides msg off bytes) in
    (printable-Clean v.0 there.printable, there.short)

name_message-Clean : (why : Error) → Clean (name_message why)
unfolding name_message
name_message-Clean truncated_name = refl
name_message-Clean truncated_label = refl
name_message-Clean name_too_long = refl
name_message-Clean truncated_pointer = refl
name_message-Clean pointer_loop = refl
name_message-Clean pointer_past_end = refl
name_message-Clean reserved_label = refl
name_message-Clean other = refl

render_name-Clean : (msg : List ℕ) (off : ℕ) → All IsByte msg → Clean (render_name msg off)
unfolding render_name
render_name-Clean msg off bytes = go (read_name msg off) refl
  where
    go :
        (r : Result (Text × ℕ))
        → read_name msg off ≡ r
        → Clean (elim r [ ok v ↦ v.0 | err why ↦ codes "<" ++ (name_message why ++ codes ">") ])
    go (ok v) e = (read_name-Clean msg off v bytes e).0
    go (err why) e = append-Clean (name_message why) (codes ">") (name_message-Clean why) refl

-- The option behind `?` and `.ok()`: a text that is clean where there is one.
abbrev CleanOption : Option Text → Type 0
CleanOption none = Unit
CleanOption (some s) = Clean s

bind-Clean {κ} :
    {A : Type κ} (o : Option A) (next : A → Option Text)
    → ((a : A) → o ≡ some a → CleanOption (next a))
    → CleanOption (o >>= next)
bind-Clean none next h = tt
bind-Clean (some a) next h = h a refl

pub to_option-inv {κ} : {V : Type κ} (r : Result V) (v : V) → to_option r ≡ some v → r ≡ ok v
to_option-inv (err why) v e = cc
to_option-inv (ok w) v e = cc

render_soa-Clean : (msg : List ℕ) (off : ℕ) → All IsByte msg → CleanOption (render_soa msg off)
unfolding render_soa
render_soa-Clean msg off bytes = bind-Clean (to_option (read_name msg off)) _ λ m em.
    bind-Clean (to_option (read_name msg m.1)) _ λ r er.
      bind-Clean (to_option (read_u32 msg r.1)) _ λ serial _.
        bind-Clean (to_option (read_u32 msg (r.1 + 4))) _ λ refresh _.
          bind-Clean (to_option (read_u32 msg (r.1 + 8))) _ λ retry _.
            bind-Clean (to_option (read_u32 msg (r.1 + 12))) _ λ expire _.
              bind-Clean (to_option (read_u32 msg (r.1 + 16))) _ λ minimum _.
                let primary =
                  read_name-Clean msg off m bytes (to_option-inv (read_name msg off) m em) in
                let contact =
                  read_name-Clean msg m.1 r bytes (to_option-inv (read_name msg m.1) r er) in
                append-Clean m.0 _ primary.0 (
                  append-Clean r.0 _ contact.0 (
                    number-Clean serial _ (
                      number-Clean refresh _
                        (number-Clean retry _ (number-Clean expire _ (decimal-Clean minimum))))))

render_mx-Clean :
    (msg : List ℕ) (off : ℕ) (rdata : List ℕ)
    → All IsByte msg
    → All IsByte rdata
    → Clean (render_mx msg off rdata)
unfolding render_mx
render_mx-Clean msg off rdata bytes own = elim (Option-cases (to_option (read_u16 rdata 0))) [
  | inl cut ↦ rw (cut, render_mx) (malformed-Clean rdata own)
  | inr (pref, read) ↦ elim (Option-cases (to_option (read_name msg (off + 2)))) [
    | inl bad ↦ rw (read, bad, render_mx) (malformed-Clean rdata own)
    | inr (v, named) ↦
        rw (read, named, render_mx)
          (number-Clean pref v.0
            (read_name-Clean msg (off + 2) v bytes
              (to_option-inv (read_name msg (off + 2)) v named)).0)
  ]
]

txt_loop-Clean :
    (rounds : ℕ) (rdata : List ℕ) (out : Text)
    → All IsByte rdata
    → Clean out
    → Clean (txt_loop rounds rdata out)
unfolding txt_loop
txt_loop-Clean zero rdata out bytes a = a
txt_loop-Clean (suc rounds) [] out bytes a = a
txt_loop-Clean (suc rounds) (len ∷ rest) out bytes a = elim (Option-cases (slice rest 0 len)) [
  | inl cut ↦ rw (cut, txt_loop) a
  | inr (chunk, cut) ↦
      let (fits, size, keeps) = slice_lem rest 0 len chunk cut in
      let before : Text = if is_empty out then out else out ++ codes " " in
      let opened : Text = before ++ codes "\"" in
      let before_clean : Clean before =
        cond-Clean (is_empty out) out (out ++ codes " ") a (append-Clean out (codes " ") a refl) in
      let chunk_clean =
        push_escaped-Clean opened chunk (append-Clean before (codes "\"") before_clean refl)
          (keeps bytes.1) in
      rw (cut, txt_loop)
        (txt_loop-Clean rounds (drop len rest) (push_escaped opened chunk ++ codes "\"")
          (All-drop IsByte len rest bytes.1)
          (append-Clean (push_escaped opened chunk) (codes "\"") chunk_clean refl))
]

render_txt-Clean : (rdata : List ℕ) → All IsByte rdata → Clean (render_txt rdata)
unfolding render_txt
render_txt-Clean rdata bytes =
    cond-Clean (is_empty (txt_loop (length rdata) rdata [])) _ _ (malformed-Clean rdata bytes)
      (txt_loop-Clean (length rdata) rdata [] bytes refl)

or_text-Clean : (o : Option Text) (s : Text) → CleanOption o → Clean s → Clean (or_text o s)
or_text-Clean none s a b = b
or_text-Clean (some t) s a b = a

module _ (show_v6 : List ℕ → Text) where
  rdata_text-Clean :
      (msg : List ℕ) (off : ℕ) (rdata : List ℕ) (kind : ℕ)
      → Clean (show_v6 rdata)
      → All IsByte msg
      → All IsByte rdata
      → Clean (rdata_text show_v6 msg off rdata kind)
  unfolding rdata_text
  rdata_text-Clean msg off rdata kind v6 bytes own =
      let bad = malformed-Clean rdata own in
      cond-Clean (kind == 1) _ _ (cond-Clean (length rdata == 4) _ _ (render_v4-Clean rdata) bad) (
        cond-Clean (kind == 28) _ _ (cond-Clean (length rdata == 16) _ _ v6 bad) (
          cond-Clean (kind == 2 || kind == 5 || kind == 12 || kind == 39) _ _
            (render_name-Clean msg off bytes)
            (cond-Clean (kind == 15) _ _ (render_mx-Clean msg off rdata bytes own) (
              cond-Clean (kind == 6) _ _
                (or_text-Clean (render_soa msg off) _ (render_soa-Clean msg off bytes) bad)
                (cond-Clean (kind == 16) _ _ (render_txt-Clean rdata own) (
                  cond-Clean (kind == 52) _ _ (render_tlsa-Clean rdata own)
                    (cond-Clean (kind == 257) _ _ (render_caa-Clean rdata own) bad)))))))

  -- Whatever the bytes, the text of a record is printable ASCII or the ellipsis, and not long.
  pub render_rdata_lem :
      (msg : List ℕ) (off : ℕ) (rdata : List ℕ) (kind : ℕ)
      → Clean (show_v6 rdata)
      → All IsByte msg
      → All IsByte rdata
      → Clean (render_rdata show_v6 msg off rdata kind)
        × (length (render_rdata show_v6 msg off rdata kind) ≤ max_rdata_chars)
  unfolding render_rdata
  render_rdata_lem msg off rdata kind v6 bytes own =
      clamp_to_lem (rdata_text show_v6 msg off rdata kind) max_rdata_chars (omega arith)
        (rdata_text-Clean msg off rdata kind v6 bytes own)

-- ===== src/Probe/Render.antt =====
-- How src/probe.rs turns the data of a DNS record into text: `render_rdata` and what it calls.
-- `show_v6` stands for the standard library's notation of an IPv6 address.
pub mod Clean
pub mod Records
use tunnel_rs.Base.Bytes.{byte, u16_at}
use tunnel_rs.Base.{
  ℕ, zero, suc, ◌+◌, ◌-◌, ◌*◌, ◌/◌, ◌%◌, ◌<◌, ◌≤◌, Bool, true, false, ◌&&◌, ◌||◌, not, Option, none,
  some, List, [], ◌∷◌, ◌++◌, length, take, drop, ltb, leb, ◌==◌, nat_eq, if◌then◌else◌, codes,
  ◌>>=◌,
}
use tunnel_rs.Probe.Name.{read_name}
use tunnel_rs.Probe.Text.{
  Text, is_empty, hex_byte, escaped, push_escaped, clamp_to, ellipsis, decimal, Error,
  truncated_record, truncated_name, truncated_label, name_too_long, truncated_pointer, pointer_loop,
  pointer_past_end, reserved_label, Result, ok, err, slice,
}

abbrev pub max_rdata_chars : ℕ
max_rdata_chars = 240

unfoldable pub read_u16 : List ℕ → ℕ → Result ℕ
unfolding u16_at
read_u16 buf pos = if leb (pos + 2) (length buf) then ok (u16_at buf pos) else err truncated_record

unfoldable pub read_u32 : List ℕ → ℕ → Result ℕ
unfolding u16_at
read_u32 buf pos =
    if leb (pos + 4) (length buf)
    then ok (u16_at buf pos * 65536 + u16_at buf (pos + 2))
    else err truncated_record

-- `.ok()`
abbrev pub to_option {κ} : {V : Type κ} → Result V → Option V
to_option (err why) = none
to_option (ok value) = some value

-- The texts of the errors of `read_name`; no other error is rendered.
unfoldable pub name_message : Error → Text
name_message truncated_name = codes "truncated name"
name_message truncated_label = codes "truncated label"
name_message name_too_long = codes "name longer than 255 bytes"
name_message truncated_pointer = codes "truncated compression pointer"
name_message pointer_loop = codes "compression pointer loop"
name_message pointer_past_end = codes "compression pointer past end of message"
name_message reserved_label = codes "reserved label type in name"
name_message other = []

unfoldable pub hex : List ℕ → Text
hex [] = []
hex (b ∷ bs) = hex_byte b ++ hex bs

-- At most 32 bytes in hexadecimal, with an ellipsis for the rest.
unfoldable pub hex_head : List ℕ → Text
unfolding hex
hex_head bs = hex (take 32 bs) ++ (if ltb 32 (length bs) then ellipsis ∷ [] else [])

unfoldable pub malformed : List ℕ → Text
unfolding hex_head
malformed rdata =
    if is_empty (hex_head rdata) then codes "<empty>" else codes "0x" ++ hex_head rdata

unfoldable pub render_caa : List ℕ → Text
unfolding push_escaped malformed byte
render_caa rdata =
    if ltb (length rdata) 2
    then malformed rdata
    else (if byte rdata 1 == 0 || ltb 15 (byte rdata 1)
        then malformed rdata
        else elim (slice rdata 2 (byte rdata 1)) [
          | none ↦ malformed rdata
          | some tag ↦
              push_escaped (push_escaped (decimal (byte rdata 0) ++ codes " ") tag ++ codes " \"")
                (drop (2 + byte rdata 1) rdata)
              ++ codes "\""
        ])

unfoldable pub render_tlsa : List ℕ → Text
unfolding hex_head malformed byte
render_tlsa rdata =
    if ltb (length rdata) 3
    then malformed rdata
    else (if is_empty (drop 3 rdata)
        then malformed rdata
        else (decimal (byte rdata 0)
            ++ (codes " "
                ++ (decimal (byte rdata 1)
                    ++ (codes " "
                        ++ (decimal (byte rdata 2) ++ (codes " " ++ hex_head (drop 3 rdata))))))))

-- `render_soa`
unfoldable pub render_soa : List ℕ → ℕ → Option Text
unfolding read_u32
render_soa msg off = do
  m ← to_option (read_name msg off)
  r ← to_option (read_name msg m.1)
  serial ← to_option (read_u32 msg r.1)
  refresh ← to_option (read_u32 msg (r.1 + 4))
  retry ← to_option (read_u32 msg (r.1 + 8))
  expire ← to_option (read_u32 msg (r.1 + 12))
  minimum ← to_option (read_u32 msg (r.1 + 16))
  some (
      m.0
      ++ (codes " "
          ++ (r.0
              ++ (codes " "
                  ++ (decimal serial
                      ++ (codes " "
                          ++ (decimal refresh
                              ++ (codes " "
                                  ++ (decimal retry
                                      ++ (codes " "
                                          ++ (decimal expire
                                              ++ (codes " " ++ decimal minimum))))))))))))

-- The loop of `render_txt` over what is left of the data. Each round takes the length byte at
-- least, so there is a round for each byte.
unfoldable pub txt_loop : ℕ → List ℕ → Text → Text
unfolding push_escaped
txt_loop zero rdata out = out
txt_loop (suc rounds) rdata out = elim rdata [
  | [] ↦ out
  | len ∷ rest ↦ elim (slice rest 0 len) [
    | none ↦ out
    | some chunk ↦ txt_loop rounds (drop len rest) (
        push_escaped ((if is_empty out then out else out ++ codes " ") ++ codes "\"") chunk
        ++ codes "\"")
  ]
]

unfoldable pub render_txt : List ℕ → Text
unfolding txt_loop malformed
render_txt rdata =
    if is_empty (txt_loop (length rdata) rdata [])
    then malformed rdata
    else txt_loop (length rdata) rdata []

unfoldable pub render_v4 : List ℕ → Text
unfolding byte
render_v4 rdata =
    decimal (byte rdata 0)
    ++ (codes "."
        ++ (decimal (byte rdata 1)
            ++ (codes "." ++ (decimal (byte rdata 2) ++ (codes "." ++ decimal (byte rdata 3))))))

unfoldable pub render_name : List ℕ → ℕ → Text
unfolding name_message
render_name msg off = elim (read_name msg off) [
  | ok r ↦ r.0
  | err why ↦ codes "<" ++ (name_message why ++ codes ">")
]

unfoldable pub render_mx : List ℕ → ℕ → List ℕ → Text
unfolding read_u16 malformed
render_mx msg off rdata = elim (to_option (read_u16 rdata 0)) [
  | none ↦ malformed rdata
  | some pref ↦ elim (to_option (read_name msg (off + 2))) [
    | none ↦ malformed rdata
    | some r ↦ decimal pref ++ (codes " " ++ r.0)
  ]
]

abbrev pub or_text : Option Text → Text → Text
or_text none s = s
or_text (some t) s = t

module _ (show_v6 : List ℕ → Text) where
  -- The match of `render_rdata` on the record's type.
  unfoldable pub rdata_text : List ℕ → ℕ → List ℕ → ℕ → Text
  unfolding render_v4 render_name render_mx render_soa render_txt render_tlsa render_caa malformed
  rdata_text msg off rdata kind =
      if kind == 1
      then (if length rdata == 4 then render_v4 rdata else malformed rdata)
      else (if kind == 28
          then (if length rdata == 16 then show_v6 rdata else malformed rdata)
          else (if kind == 2 || kind == 5 || kind == 12 || kind == 39
              then render_name msg off
              else (if kind == 15
                  then render_mx msg off rdata
                  else (if kind == 6
                      then or_text (render_soa msg off) (malformed rdata)
                      else (if kind == 16
                          then render_txt rdata
                          else (if kind == 52
                              then render_tlsa rdata
                              else (if kind == 257 then render_caa rdata else malformed rdata)))))))

  unfoldable pub render_rdata : List ℕ → ℕ → List ℕ → ℕ → Text
  unfolding rdata_text
  render_rdata msg off rdata kind = clamp_to (rdata_text msg off rdata kind) max_rdata_chars

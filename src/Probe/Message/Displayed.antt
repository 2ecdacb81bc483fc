-- ===== src/Probe/Message/Displayed.antt =====
-- What the answers of a response hold that src/probe.rs displays, whatever bytes it is made of.
use tunnel_rs.Base.Bytes.{u16_at}
use tunnel_rs.Base.{
  ℕ, zero, suc, ◌+◌, ◌/◌, ◌%◌, ◌≤◌, ◌^◌, ◌≡◌, refl, ap, subst, inl, inr, true, not, Option, none,
  some, List, length, leb, ltb, ◌==◌, nat_eq, codes, ◌>>=◌ as ◌>>?◌, All, Bool-cases, Option-cases,
}
use mathlib.Core.Option.{some-injective}
use tunnel_rs.Probe.Message.{
  max_answers, type_name, Answer, Parsed, read_questions, read_record, read_answers, parse_response,
}
use tunnel_rs.Probe.Name.{read_name}
use tunnel_rs.Probe.Name.Bounds.{IsByte, slice_lem}
use tunnel_rs.Probe.Render.{read_u16, read_u32, to_option, render_rdata, max_rdata_chars}
use tunnel_rs.Probe.Render.Clean.{Clean, append-Clean, cond-Clean, decimal-Clean}
use tunnel_rs.Probe.Render.Records.{read_name-Clean, to_option-inv, render_rdata_lem}
use tunnel_rs.Probe.Text.{Text, decimal, ok, slice, bind_inv, refuse_inv, ok-injective}

-- An answer fit to be displayed: printable characters, and bounded texts.
pub record IsDisplayable (a : Answer) : Type 0 where
  pub name_clean : Clean a.name
  pub name_short : length a.name ≤ 255
  pub kind_clean : Clean a.kind
  pub text_clean : Clean a.text
  pub text_short : length a.text ≤ max_rdata_chars

type_name-Clean : (code : ℕ) → Clean (type_name code)
unfolding type_name
type_name-Clean code = cond-Clean (code == 1) _ _ refl (
    cond-Clean (code == 2) _ _ refl (
      cond-Clean (code == 5) _ _ refl (
        cond-Clean (code == 6) _ _ refl (
          cond-Clean (code == 12) _ _ refl (
            cond-Clean (code == 15) _ _ refl (
              cond-Clean (code == 16) _ _ refl (
                cond-Clean (code == 28) _ _ refl (
                  cond-Clean (code == 33) _ _ refl (
                    cond-Clean (code == 35) _ _ refl (
                      cond-Clean (code == 39) _ _ refl (
                        cond-Clean (code == 41) _ _ refl (
                          cond-Clean (code == 43) _ _ refl (
                            cond-Clean (code == 46) _ _ refl (
                              cond-Clean (code == 47) _ _ refl (
                                cond-Clean (code == 48) _ _ refl (
                                  cond-Clean (code == 50) _ _ refl (
                                    cond-Clean (code == 52) _ _ refl (
                                      cond-Clean (code == 64) _ _ refl (
                                        cond-Clean (code == 65) _ _ refl (
                                          cond-Clean (code == 257) _ _ refl (
                                            append-Clean (codes "TYPE") (decimal code) refl
                                              (decimal-Clean code))))))))))))))))))))))

-- An option chain that succeeds.
bind_some {κ μ} :
    {A : Type κ} {B : Type μ} (o : Option A) (next : A → Option B) (b : B)
    → (o >>? next) ≡ some b
    → (a : A) × (o ≡ some a) × (next a ≡ some b)
bind_some none next b h = cc
bind_some (some a) next b h = (a, refl, h)

module _ (show_v6 : List ℕ → Text) where
  read_record-IsDisplayable :
      (msg : List ℕ) (pos : ℕ) (a : Answer) (next : ℕ)
      → ((rdata : List ℕ) → Clean (show_v6 rdata))
      → All IsByte msg
      → read_record show_v6 msg pos ≡ some (a, next)
      → IsDisplayable a
  unfolding read_record
  read_record-IsDisplayable msg pos a next v6 bytes h =
      let (name, named, h1) = bind_some (to_option (read_name msg pos)) _ (a, next) h in
      let (kind, kind_read, h2) = bind_some (to_option (read_u16 msg name.1)) _ (a, next) h1 in
      let (class, class_read, h3) =
        bind_some (to_option (read_u16 msg (name.1 + 2))) _ (a, next) h2 in
      let (ttl, ttl_read, h4) = bind_some (to_option (read_u32 msg (name.1 + 4))) _ (a, next) h3 in
      let (len, len_read, h5) = bind_some (to_option (read_u16 msg (name.1 + 8))) _ (a, next) h4 in
      let (rdata, cut, h6) = bind_some (slice msg (name.1 + 10) len) _ (a, next) h5 in
      let (fits, size, keeps) = slice_lem msg (name.1 + 10) len rdata cut in
      let owner =
        read_name-Clean msg pos name bytes (to_option-inv (read_name msg pos) name named) in
      let shown =
        render_rdata_lem show_v6 msg (name.1 + 10) rdata kind (v6 rdata) bytes (keeps bytes) in
      let built : Answer = record {
        name = name.0;
        kind = type_name kind;
        ttl = ttl;
        text = render_rdata show_v6 msg (name.1 + 10) rdata kind;
      } in
      let same : built ≡ a = ap (λ (p : Answer × ℕ). p.0) (some-injective _ _ h6) in
      subst IsDisplayable same (record {
        name_clean = owner.0;
        name_short = owner.1;
        kind_clean = type_name-Clean kind;
        text_clean = shown.0;
        text_short = shown.1;
      })

  read_answers-IsDisplayable :
      (n : ℕ) (msg : List ℕ) (kept pos : ℕ)
      → ((rdata : List ℕ) → Clean (show_v6 rdata))
      → All IsByte msg
      → All IsDisplayable (read_answers show_v6 n msg kept pos).0
  unfolding read_answers
  read_answers-IsDisplayable zero msg kept pos v6 bytes = tt
  read_answers-IsDisplayable (suc n) msg kept pos v6 bytes =
      elim (Bool-cases (leb max_answers kept)) [
        | inl full ↦ rw full tt
        | inr room ↦ elim (Option-cases (read_record show_v6 msg pos)) [
          | inl cut ↦ rw (room, cut) tt
          | inr ((a, next), read) ↦
              rw (room, read)
                (
                  read_record-IsDisplayable msg pos a next v6 bytes read,
                  read_answers-IsDisplayable n msg (suc kept) next v6 bytes,
                )
        ]
      ]

  -- Every answer of an accepted response can be displayed.
  pub parse_response-IsDisplayable :
      (msg query : List ℕ) (p : Parsed)
      → ((rdata : List ℕ) → Clean (show_v6 rdata))
      → All IsByte msg
      → parse_response show_v6 msg query ≡ ok p
      → All IsDisplayable p.answers
  unfolding parse_response
  parse_response-IsDisplayable msg query p v6 bytes h =
      let (short, h1) = refuse_inv (ltb (length msg) 12) _ _ p h in
      let (id, h2) = refuse_inv (not (u16_at msg 0 == u16_at query 0)) _ _ p h1 in
      let (qr, h3) = refuse_inv (u16_at msg 2 / 2 ^ 15 % 2 == 0) _ _ p h2 in
      let (pos, asked, h4) = bind_inv (read_questions (u16_at msg 4) msg query true 12) _ p h3 in
      subst (λ (q : Parsed). All IsDisplayable q.answers) (ok-injective h4)
        (read_answers-IsDisplayable (u16_at msg 6) msg 0 pos v6 bytes)

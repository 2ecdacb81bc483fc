-- ===== src/Probe/Message/Accept.antt =====
-- Which responses src/probe.rs accepts as the answer to its query.
use tunnel_rs.Base.Bytes.{u16_at}
use tunnel_rs.Base.{
  ℕ, zero, suc, ◌+◌, ◌-◌, ◌/◌, ◌%◌, ◌≤◌, ◌^◌, ◌≡◌, ◌∙◌, sym, ap, refl, ◌⊎◌, inl, inr, true, not,
  List, length, ltb, leb, ◌==◌, nat_eq, arith, Bool-cases, Option-cases,
}
use tunnel_rs.Probe.Message.{
  max_answers, rcode_name, same_name, check_question, read_question, read_questions, Parsed,
  read_record, read_answers, parse_response,
}
use tunnel_rs.Probe.Name.{read_name}
use tunnel_rs.Probe.Render.{read_u16}
use tunnel_rs.Probe.Text.{Text, ok, bind_inv, refuse_inv, then_inv, ok-injective}

-- The two messages ask the same: a name that differs in the case of its letters at most, the
-- type of the query, and class IN.
pub record SameQuestion (msg query : List ℕ) : Type 0 where
  pub name : Text × ℕ
  pub want : Text × ℕ
  pub qtype : ℕ
  pub read : read_name msg 12 ≡ ok name
  pub asked : read_name query 12 ≡ ok want
  pub same : same_name name.0 want.0 ≡ true
  pub type_read : read_u16 msg name.1 ≡ ok qtype
  pub type_asked : read_u16 query want.1 ≡ ok qtype
  pub class_in : read_u16 msg (name.1 + 2) ≡ ok 1

check_question-inv :
    (query : List ℕ) (name : Text) (qtype qclass : ℕ)
    → check_question query name qtype qclass ≡ ok tt
    → (want : Text × ℕ) × (read_name query 12 ≡ ok want)
      × (same_name name want.0 ≡ true)
      × (read_u16 query want.1 ≡ ok qtype)
      × (qclass ≡ 1)
unfolding check_question
check_question-inv query name qtype qclass h =
    let (want, asked, h2) = bind_inv (read_name query 12) _ tt h in
    let (t, type_asked, h3) = bind_inv (read_u16 query want.1) _ tt h2 in
    (want, asked, ground arith, type_asked ∙ ap ok (ground arith), ground arith)

read_question-inv :
    (msg query : List ℕ) (pos : ℕ)
    → read_question msg query true 12 ≡ ok pos
    → SameQuestion msg query
unfolding read_question
read_question-inv msg query pos h =
    let (name, read, h2) = bind_inv (read_name msg 12) _ pos h in
    let (t, type_read, h3) = bind_inv (read_u16 msg name.1) _ pos h2 in
    let (c, class_read, h4) = bind_inv (read_u16 msg (name.1 + 2)) _ pos h3 in
    let (want, asked, same, type_asked, class_in) =
      check_question-inv query name.0 t c (then_inv (check_question query name.0 t c) _ pos h4) in
    record {
      name = name;
      want = want;
      qtype = t;
      read = read;
      asked = asked;
      same = same;
      type_read = type_read;
      type_asked = type_asked;
      class_in = class_read ∙ ap ok class_in;
    }

-- What `parse_response` promises of what it accepts.
pub record Accepted (msg query : List ℕ) (p : Parsed) : Type 0 where
  pub whole : 12 ≤ length msg
  pub same_id : u16_at msg 0 ≡ u16_at query 0
  pub reply : u16_at msg 2 / 2 ^ 15 % 2 ≡ 1
  pub asked : (u16_at msg 4 ≡ 0) ⊎ SameQuestion msg query
  pub code : p.rcode ≡ rcode_name (u16_at msg 2 % 16)
  pub bounded : length p.answers ≤ max_answers
  pub counted : length p.answers ≤ u16_at msg 6

read_questions-inv :
    (n : ℕ) (msg query : List ℕ) (pos : ℕ)
    → read_questions n msg query true 12 ≡ ok pos
    → (n ≡ 0) ⊎ SameQuestion msg query
unfolding read_questions
read_questions-inv zero msg query pos h = inl refl
read_questions-inv (suc n) msg query pos h =
    let (next, first, rest) = bind_inv (read_question msg query true 12) _ pos h in
    inr (read_question-inv msg query next first)

module _ (show_v6 : List ℕ → Text) where
  length-read_answers :
      (n : ℕ) (msg : List ℕ) (kept pos : ℕ)
      → (length (read_answers show_v6 n msg kept pos).0 ≤ n)
        × (length (read_answers show_v6 n msg kept pos).0 ≤ max_answers - kept)
  unfolding read_answers
  length-read_answers zero msg kept pos = omega arith
  length-read_answers (suc n) msg kept pos = elim (Bool-cases (leb max_answers kept)) [
    | inl full ↦ rw full (omega arith)
    | inr room ↦ elim (Option-cases (read_record show_v6 msg pos)) [
      | inl cut ↦ rw (room, cut) (omega arith)
      | inr ((a, next), read) ↦
          let ih = length-read_answers n msg (suc kept) next in rw (room, read) (ground arith)
    ]
  ]

  -- What an accepted response is: an answer to the query by its identifier, its flag and its
  -- first question, unless it brings no question at all.
  pub parse_response-Accepted :
      (msg query : List ℕ) (p : Parsed)
      → parse_response show_v6 msg query ≡ ok p
      → Accepted msg query p
  unfolding parse_response
  parse_response-Accepted msg query p h =
      let (short, h1) = refuse_inv (ltb (length msg) 12) _ _ p h in
      let (id, h2) = refuse_inv (not (u16_at msg 0 == u16_at query 0)) _ _ p h1 in
      let (qr, h3) = refuse_inv (u16_at msg 2 / 2 ^ 15 % 2 == 0) _ _ p h2 in
      let (pos, asked, h4) = bind_inv (read_questions (u16_at msg 4) msg query true 12) _ p h3 in
      let size = length-read_answers (u16_at msg 6) msg 0 pos in
      let same = ok-injective h4 in
      record {
        whole = ground arith;
        same_id = ground arith;
        reply = ground arith;
        asked = read_questions-inv (u16_at msg 4) msg query pos asked;
        code = sym (ap (λ (q : Parsed). q.rcode) same);
        bounded = rw (← same) size.1;
        counted = rw (← same) size.0;
      }

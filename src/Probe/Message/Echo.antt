-- ===== src/Probe/Message/Echo.antt =====
-- Responses that send the question of src/probe.rs back, and responses without a question.
use tunnel_rs.Base.Bytes.{byte, u16_at, put_u16}
use tunnel_rs.Base.{
  ℕ, ◌+◌, ◌*◌, ◌/◌, ◌%◌, ◌≤◌, ◌^◌, ◌≡◌, ◌∙◌, sym, ap, refl, true, false, List, [], ◌∷◌, ◌++◌,
  length, ltb, leb, ◌==◌, nat_eq, arith, length-append, get_or-append,
}
use tunnel_rs.Probe.Message.{
  be16, build_query, query_header, rcode_name, same_name, check_question, read_question,
  read_questions, read_answers, parse_response,
}
use tunnel_rs.Probe.Name.{encode_name, read_name, bare}
use tunnel_rs.Probe.Name.RoundTrip.{read_name-encode_name, shown}
use tunnel_rs.Probe.Render.{read_u16}
use tunnel_rs.Probe.Text.{Text, ok, bind_inv, ok-injective}

same_name_refl : (s : Text) → same_name s s ≡ true
unfolding same_name
same_name_refl [] = refl
same_name_refl (c ∷ s) = ground (arith, same_name_refl s)

pub build_query-inv :
    (id : ℕ) (name : Text) (qtype : ℕ) (query : List ℕ)
    → build_query id name qtype ≡ ok query
    → (wire : List ℕ) × (encode_name name ≡ ok wire)
      × (query ≡ query_header id ++ (wire ++ (be16 qtype ++ be16 1)))
unfolding build_query
build_query-inv id name qtype query h =
    let (wire, coded, same) = bind_inv (encode_name name) _ query h in
    (wire, coded, sym (ok-injective same))

-- A number of two bytes at a place.
u16_at-append : (xs ys : List ℕ) (i : ℕ) → u16_at (xs ++ ys) (length xs + i) ≡ u16_at ys i
unfolding u16_at byte
u16_at-append xs ys i =
    let next : length xs + i + 1 ≡ length xs + (i + 1) = omega arith in
    rw (next, get_or-append xs ys i 0, get_or-append xs ys (i + 1) 0) refl

read_u16_lem :
    (buf : List ℕ) (pos : ℕ) → pos + 2 ≤ length buf → read_u16 buf pos ≡ ok (u16_at buf pos)
unfolding read_u16
read_u16_lem buf pos fits =
    let inside : leb (pos + 2) (length buf) ≡ true = ground arith in rw inside refl

module _ (show_v6 : List ℕ → Text) (msg query : List ℕ) where
  pub no_question-accepted :
      12 ≤ length msg
      → u16_at msg 0 ≡ u16_at query 0
      → u16_at msg 2 / 2 ^ 15 % 2 ≡ 1
      → u16_at msg 4 ≡ 0
      → parse_response show_v6 msg query
        ≡ ok (record {
          rcode = rcode_name (u16_at msg 2 % 16);
          authoritative = u16_at msg 2 / 2 ^ 10 % 2 == 1;
          answers = (read_answers show_v6 (u16_at msg 6) msg 0 12).0;
          capped = (read_answers show_v6 (u16_at msg 6) msg 0 12).1;
        })
  unfolding parse_response read_questions
  no_question-accepted whole same_id reply none_asked =
      let long : ltb (length msg) 12 ≡ false = ground arith in
      let id : (u16_at msg 0 == u16_at query 0) ≡ true = ground arith in
      let qr : (u16_at msg 2 / 2 ^ 15 % 2 == 0) ≡ false = ground arith in
      rw (long, id, qr, none_asked) refl

  -- The same for a response whose questions are read.
  parse_response-questions :
      (pos : ℕ)
      → 12 ≤ length msg
      → u16_at msg 0 ≡ u16_at query 0
      → u16_at msg 2 / 2 ^ 15 % 2 ≡ 1
      → read_questions (u16_at msg 4) msg query true 12 ≡ ok pos
      → parse_response show_v6 msg query
        ≡ ok (record {
          rcode = rcode_name (u16_at msg 2 % 16);
          authoritative = u16_at msg 2 / 2 ^ 10 % 2 == 1;
          answers = (read_answers show_v6 (u16_at msg 6) msg 0 pos).0;
          capped = (read_answers show_v6 (u16_at msg 6) msg 0 pos).1;
        })
  unfolding parse_response
  parse_response-questions pos whole same_id reply read =
      let long : ltb (length msg) 12 ≡ false = ground arith in
      let id : (u16_at msg 0 == u16_at query 0) ≡ true = ground arith in
      let qr : (u16_at msg 2 / 2 ^ 15 % 2 == 0) ≡ false = ground arith in
      rw (long, id, qr, read) refl

-- The question as `build_query` writes it, behind a header.
module _ (wire : List ℕ) (qtype : ℕ) where
  abbrev asks : List ℕ
  asks = wire ++ (be16 qtype ++ be16 1)

  type_at :
      (header : List ℕ)
      → read_u16 (header ++ asks) (length header + length wire)
        ≡ ok (qtype / 256 * 256 + qtype % 256)
  type_at header =
      let size = length-append header asks in
      let fits =
        read_u16_lem (header ++ asks) (length header + length wire)
          (omega (arith, size, length-append wire (be16 qtype ++ be16 1))) in
      let whole : u16_at (header ++ asks) (length header + length wire)
          ≡ u16_at (be16 qtype ++ be16 1) 0 =
        u16_at-append header asks (length wire)
        ∙ ap (u16_at asks) (let e : length wire ≡ length wire + 0 = omega arith in e)
        ∙ u16_at-append wire (be16 qtype ++ be16 1) 0 in
      fits ∙ ap ok (whole ∙ unfold u16_at byte in refl)

  class_at : (header : List ℕ) → read_u16 (header ++ asks) (length header + length wire + 2) ≡ ok 1
  class_at header =
      let size = length-append header asks in
      let fits =
        read_u16_lem (header ++ asks) (length header + length wire + 2)
          (omega (arith, size, length-append wire (be16 qtype ++ be16 1))) in
      let whole : u16_at (header ++ asks) (length header + length wire + 2)
          ≡ u16_at (be16 qtype ++ be16 1) 2 =
        ap (u16_at (header ++ asks)) (
          let e : length header + length wire + 2 ≡ length header + (length wire + 2) =
            omega arith in
          e)
        ∙ u16_at-append header asks (length wire + 2)
        ∙ u16_at-append wire (be16 qtype ++ be16 1) 2 in
      fits ∙ ap ok (whole ∙ unfold u16_at byte in refl)

-- The question of a query, read in a message with another header.
read_question-same :
    (name : Text) (wire : List ℕ) (qtype : ℕ) (header other : List ℕ)
    → encode_name name ≡ ok wire
    → length header ≡ 12
    → length other ≡ 12
    → read_question (header ++ asks wire qtype) (other ++ asks wire qtype) true 12
      ≡ ok (12 + length wire + 4)
unfolding read_question check_question
read_question-same name wire qtype header other coded size size' =
    let tail : List ℕ = be16 qtype ++ be16 1 in
    let named : read_name (header ++ asks wire qtype) 12
        ≡ ok (shown (bare name), 12 + length wire) =
      rw (← size) (read_name-encode_name name header wire tail coded) in
    let wanted : read_name (other ++ asks wire qtype) 12
        ≡ ok (shown (bare name), 12 + length wire) =
      rw (← size') (read_name-encode_name name other wire tail coded) in
    let kind : read_u16 (header ++ asks wire qtype) (12 + length wire)
        ≡ ok (qtype / 256 * 256 + qtype % 256) =
      rw (← size) (type_at wire qtype header) in
    let kind' : read_u16 (other ++ asks wire qtype) (12 + length wire)
        ≡ ok (qtype / 256 * 256 + qtype % 256) =
      rw (← size') (type_at wire qtype other) in
    let class : read_u16 (header ++ asks wire qtype) (12 + length wire + 2) ≡ ok 1 =
      rw (← size) (class_at wire qtype header) in
    let equal : ((qtype / 256 * 256 + qtype % 256) == (qtype / 256 * 256 + qtype % 256)) ≡ true =
      ground arith in
    rw (named, kind, class, wanted, kind', same_name_refl (shown (bare name)), equal) refl

read_questions-one :
    (msg query : List ℕ) (pos : ℕ)
    → read_question msg query true 12 ≡ ok pos
    → read_questions 1 msg query true 12 ≡ ok pos
unfolding read_questions
read_questions-one msg query pos read = rw read refl

-- The query sent back with other flags is accepted, with no answers.
pub parse_response-build_query :
    (show_v6 : List ℕ → Text) (id : ℕ) (name : Text) (qtype flags : ℕ) (query : List ℕ)
    → build_query id name qtype ≡ ok query
    → flags / 2 ^ 15 % 2 ≡ 1
    → parse_response show_v6 (put_u16 query 2 flags) query
      ≡ ok (record {
        rcode = rcode_name (flags % 16);
        authoritative = flags / 2 ^ 10 % 2 == 1;
        answers = [];
        capped = false;
      })
parse_response-build_query show_v6 id name qtype flags query h reply =
    let (wire, coded, same) = build_query-inv id name qtype query h in
    let header : List ℕ =
      (id / 256)
      ∷ (id % 256)
      ∷ (flags / 256)
      ∷ (flags % 256)
      ∷ 0
      ∷ 1
      ∷ 0
      ∷ 0
      ∷ 0
      ∷ 0
      ∷ 0
      ∷ 0
      ∷ [] in
    let sent : put_u16 query 2 flags ≡ header ++ asks wire qtype =
      rw same (unfold put_u16 in refl) in
    let flags_back : flags / 256 * 256 + flags % 256 ≡ flags = omega arith in
    let msg : List ℕ = header ++ asks wire qtype in
    let id_same : u16_at msg 0 ≡ u16_at (query_header id ++ asks wire qtype) 0 =
      unfold u16_at byte in refl in
    let second : u16_at msg 2 ≡ flags = unfold u16_at byte in flags_back in
    let asked : u16_at msg 4 ≡ 1 = unfold u16_at byte in refl in
    let empty : u16_at msg 6 ≡ 0 = unfold u16_at byte in refl in
    let read : read_questions (u16_at msg 4) msg (query_header id ++ asks wire qtype) true 12
        ≡ ok (12 + length wire + 4) =
      rw asked (
        read_questions-one msg (query_header id ++ asks wire qtype) (12 + length wire + 4)
          (read_question-same name wire qtype header (query_header id) coded refl refl)) in
    let run =
      parse_response-questions show_v6 msg (query_header id ++ asks wire qtype)
        (12 + length wire + 4) (omega arith) id_same (rw second reply) read in
    rw (sent, same) (run ∙ rw (second, empty) (unfold read_answers in refl))

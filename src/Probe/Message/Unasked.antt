-- ===== src/Probe/Message/Unasked.antt =====
-- Responses without a question, for which `parse_response` of src/probe.rs makes no check against
-- the query's name and type.
use tunnel_rs.Base.Bytes.{byte, u16_at}
use tunnel_rs.Base.{ℕ, ◌/◌, ◌%◌, ◌≤◌, ◌^◌, ◌≡◌, ◌∙◌, sym, ap, List, ◌++◌, length, arith}
use tunnel_rs.Probe.Message.Echo.{build_query-inv, no_question-accepted}
use tunnel_rs.Probe.Message.{build_query, query_header, Parsed, parse_response}
use tunnel_rs.Probe.Text.{Text, ok}

query-id : (id : ℕ) (rest : List ℕ) → u16_at (query_header id ++ rest) 0 ≡ id
unfolding u16_at byte
query-id id rest = omega arith

build_query-id :
    (id : ℕ) (name : Text) (qtype : ℕ) (query : List ℕ)
    → build_query id name qtype ≡ ok query
    → u16_at query 0 ≡ id
build_query-id id name qtype query h =
    let (wire, coded, same) = build_query-inv id name qtype query h in
    ap (λ (z : List ℕ). u16_at z 0) same ∙ query-id id _

-- A whole response that is marked as a reply and brings no question is accepted, with one and the
-- same outcome, for the queries of any two names and types that are sent under its identifier.
pub parse_response-unasked :
    (show_v6 : List ℕ → Text) (id : ℕ) (msg : List ℕ) (name other : Text) (qtype other_type : ℕ)
    (query other_query : List ℕ)
    → 12 ≤ length msg
    → u16_at msg 0 ≡ id
    → u16_at msg 2 / 2 ^ 15 % 2 ≡ 1
    → u16_at msg 4 ≡ 0
    → build_query id name qtype ≡ ok query
    → build_query id other other_type ≡ ok other_query
    → (r : Parsed) × (parse_response show_v6 msg query ≡ ok r)
      × (parse_response show_v6 msg other_query ≡ ok r)
parse_response-unasked show_v6 id msg name other qtype other_type query other_query whole same reply
      none_asked q o =
    let to_query = same ∙ sym (build_query-id id name qtype query q) in
    let to_other = same ∙ sym (build_query-id id other other_type other_query o) in
    (
      _,
      no_question-accepted show_v6 msg query whole to_query reply none_asked,
      no_question-accepted show_v6 msg other_query whole to_other reply none_asked,
    )

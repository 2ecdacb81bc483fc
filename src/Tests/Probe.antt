-- ===== src/Tests/Probe.antt =====
-- The probes of src/probe.rs at concrete inputs.
use tunnel_rs.Base.Bytes.{byte, u16_at, put_u16}
use tunnel_rs.Base.{
  ℕ, zero, suc, Option, none, ◌+◌, ◌^◌, ◌/◌, ◌%◌, ◌≡◌, refl, true, false, ◌==◌, some, List, [], ◌∷◌,
  ◌++◌, map, replicate, if◌then◌else◌, nat_eq, codes, arith, All,
}
use tunnel_rs.Probe.Intel.{parse_origin}
use tunnel_rs.Probe.Intel.Origin
use tunnel_rs.Probe.Lookup.{IpAddr, v4, a_record, udp, DnsOutcome, reverse_name}
use tunnel_rs.Probe.Lookup.Outcome as LookedUp
use tunnel_rs.Probe.Lookup.Reverse
use tunnel_rs.Probe.Message
use tunnel_rs.Probe.Message.{
  be16, query_header, build_query, parse_response, Parsed, Answer, read_answers, rcode_name,
}
use tunnel_rs.Probe.Message.Accept
use tunnel_rs.Probe.Message.Accept.{Accepted}
use tunnel_rs.Probe.Message.Displayed
use tunnel_rs.Probe.Message.Displayed.{IsDisplayable}
use tunnel_rs.Probe.Message.Echo
use tunnel_rs.Probe.Message.Unasked
use tunnel_rs.Probe.Name
use tunnel_rs.Probe.Name.{encode_name, read_name, bare}
use tunnel_rs.Probe.Name.Bounds
use tunnel_rs.Probe.Name.Bounds.{Decides}
use tunnel_rs.Probe.Name.RoundTrip
use tunnel_rs.Probe.Name.RoundTrip.{shown}
use tunnel_rs.Probe.Ports.{parse_ports}
use tunnel_rs.Probe.Ports.Laws
use tunnel_rs.Probe.Ports.Laws.{IsPortList, any_covers}
use tunnel_rs.Probe.Ports.RoundTrip as Spelled
use tunnel_rs.Probe.Ports.Sorting.{has}
use tunnel_rs.Probe.Probing.{Connect, connected, refused}
use tunnel_rs.Probe.Scan.{scan, run, start}
use tunnel_rs.Probe.Scan.Answers.{outcome}
use tunnel_rs.Probe.Scan.Ends
use tunnel_rs.Probe.Scan.Ends.{names_all, flatten}
use tunnel_rs.Probe.Scan.Outcome
use tunnel_rs.Probe.Scan.Outcome.{all_stopped}
use tunnel_rs.Probe.Render.{read_u16, read_u32, render_rdata}
use tunnel_rs.Probe.Text.{
  Result, Text, ok, split, join, decimal, trim, trim_end_matches, slice, push_escaped, clamp_to,
}

-- A label, and behind it a pointer to the label.
abbrev looped : List ℕ
looped = 1 ∷ b'a' ∷ 192 ∷ 0 ∷ []

read_name-Decides_example : Decides looped 0 (read_name looped 0)
read_name-Decides_example = Bounds.read_name-Decides looped 0 (omega arith)

abbrev wire : List ℕ
wire = 2 ∷ b'a' ∷ b'b' ∷ 1 ∷ b'c' ∷ 0 ∷ []

wire_ok : encode_name (codes " ab.c.") ≡ ok wire
unfolding encode_name trim_end_matches trim split
wire_ok = refl

read_name-encode_name_example :
    read_name ((7 ∷ 7 ∷ []) ++ (wire ++ (9 ∷ []))) 2 ≡ ok (shown (bare (codes " ab.c.")), 2 + 6)
read_name-encode_name_example =
    RoundTrip.read_name-encode_name (codes " ab.c.") (7 ∷ 7 ∷ []) wire (9 ∷ []) wire_ok

abbrev show_v6 : List ℕ → Text
show_v6 r = codes "::"

-- The query for the address of the name, and its echo as an authoritative reply.
abbrev query : List ℕ
query = 3 ∷ 9 ∷ 1 ∷ 0 ∷ 0 ∷ 1 ∷ 0 ∷ 0 ∷ 0 ∷ 0 ∷ 0 ∷ 0 ∷ (wire ++ (0 ∷ 1 ∷ 0 ∷ 1 ∷ []))

query_ok : build_query 777 (codes " ab.c.") 1 ≡ ok query
unfolding build_query encode_name trim_end_matches trim split
query_ok = refl

abbrev empty_answer : Parsed
empty_answer = record { rcode = rcode_name 0; authoritative = true; answers = []; capped = false }

echo_accepted : parse_response show_v6 (put_u16 query 2 33792) query ≡ ok empty_answer
echo_accepted =
    Echo.parse_response-build_query show_v6 777 (codes " ab.c.") 1 33792 query query_ok refl

parse_response-Accepted_example : Accepted (put_u16 query 2 33792) query empty_answer
parse_response-Accepted_example =
    Accept.parse_response-Accepted show_v6 (put_u16 query 2 33792) query empty_answer echo_accepted

parse_response-build_query_example :
    parse_response show_v6 (put_u16 query 2 33792) query
    ≡ ok (record {
      rcode = rcode_name (33792 % 16);
      authoritative = 33792 / 2 ^ 10 % 2 == 1;
      answers = [];
      capped = false;
    })
parse_response-build_query_example =
    Echo.parse_response-build_query show_v6 777 (codes " ab.c.") 1 33792 query query_ok refl

-- A response with one address record.
abbrev with_record : List ℕ
with_record =
    3
    ∷ 9
    ∷ 129
    ∷ 128
    ∷ 0
    ∷ 1
    ∷ 0
    ∷ 1
    ∷ 0
    ∷ 0
    ∷ 0
    ∷ 0
    ∷ (wire
        ++ (0 ∷ 1 ∷ 0 ∷ 1 ∷ 192 ∷ 12 ∷ 0 ∷ 1 ∷ 0 ∷ 1 ∷ 0 ∷ 0 ∷ 1 ∷ 44 ∷ 0 ∷ 4 ∷ 10 ∷ 0 ∷ 0 ∷ 7
            ∷ []))

abbrev one_address : Parsed
one_address = record {
  rcode = codes "NOERROR";
  authoritative = false;
  answers =
      record { name = codes "ab.c"; kind = codes "A"; ttl = 300; text = codes "10.0.0.7" } ∷ [];
  capped = false;
}

with_record_ok : parse_response show_v6 with_record query ≡ ok one_address
unfolding parse_response Message.read_questions read_name Name.read_loop Name.turn slice
    Name.add_label push_escaped read_u16 read_answers Message.read_record read_u32 render_rdata
    clamp_to decimal
with_record_ok = refl

parse_response-IsDisplayable_example : All IsDisplayable one_address.answers
parse_response-IsDisplayable_example =
    Displayed.parse_response-IsDisplayable show_v6 with_record query one_address (λ r. refl)
      (omega arith) with_record_ok

-- A bare header with the query's identifier, marked as a reply.
abbrev bare_reply : List ℕ
bare_reply = 3 ∷ 9 ∷ 128 ∷ 0 ∷ 0 ∷ 0 ∷ 0 ∷ 0 ∷ 0 ∷ 0 ∷ 0 ∷ 0 ∷ []

bare_reply_lem :
    (u16_at bare_reply 0 ≡ 777) × (u16_at bare_reply 2 / 2 ^ 15 % 2 ≡ 1) × (u16_at bare_reply 4 ≡ 0)
unfolding u16_at byte
bare_reply_lem = (refl, refl, refl)

-- Another question under the same identifier: the mail servers of the root.
abbrev root_query : List ℕ
root_query = 3 ∷ 9 ∷ 1 ∷ 0 ∷ 0 ∷ 1 ∷ 0 ∷ 0 ∷ 0 ∷ 0 ∷ 0 ∷ 0 ∷ 0 ∷ 0 ∷ 15 ∷ 0 ∷ 1 ∷ []

root_query_ok : build_query 777 (codes ".") 15 ≡ ok root_query
unfolding build_query encode_name trim_end_matches trim split
root_query_ok = refl

parse_response-unasked_example :
    (r : Parsed) × (parse_response show_v6 bare_reply query ≡ ok r)
    × (parse_response show_v6 bare_reply root_query ≡ ok r)
parse_response-unasked_example =
    Unasked.parse_response-unasked show_v6 777 bare_reply (codes " ab.c.") (codes ".") 1 15 query
      root_query (omega arith) bare_reply_lem.0 bare_reply_lem.1 bare_reply_lem.2 query_ok
      root_query_ok

abbrev spec : Text
spec = codes "443, 22-23,22"

spec_ok : parse_ports spec ≡ ok (22 ∷ 23 ∷ 443 ∷ [])
unfolding parse_ports split trim
spec_ok = refl

parse_ports-covers_example : has (22 ∷ 23 ∷ 443 ∷ []) 23 ≡ any_covers (split b',' spec) 23
parse_ports-covers_example = Laws.parse_ports-covers spec (22 ∷ 23 ∷ 443 ∷ []) 23 spec_ok

parse_ports-IsPortList_example : IsPortList (22 ∷ 23 ∷ 443 ∷ [])
parse_ports-IsPortList_example = Laws.parse_ports-IsPortList spec (22 ∷ 23 ∷ 443 ∷ []) spec_ok

abbrev two_ports : List ℕ
two_ports = 22 ∷ 443 ∷ []

two_ports-IsPortList : IsPortList two_ports
two_ports-IsPortList = record {
  ascending = omega arith;
  ports = omega arith;
  filled = omega arith;
  few = omega arith;
}

parse_ports-join_example : parse_ports (join b',' (map decimal two_ports)) ≡ ok two_ports
parse_ports-join_example = Spelled.parse_ports-join two_ports two_ports-IsPortList

-- One port that greets; every other port refuses.
abbrev network : ℕ → Connect
network p = if p == 22 then connected (some (codes "SSH-2.0")) else refused

abbrev interleaved : List ℕ
interleaved = 1 ∷ 0 ∷ 0 ∷ 1 ∷ 1 ∷ 0 ∷ []

all_over : all_stopped (run two_ports network (start two_ports network) interleaved).workers ≡ true
unfolding run start
all_over = refl

scan-outcome_example : scan two_ports network interleaved ≡ ok (outcome network two_ports)
scan-outcome_example =
    Outcome.scan-outcome two_ports network interleaved two_ports-IsPortList all_over

abbrev everyone : List ℕ
everyone = 0 ∷ 1 ∷ 2 ∷ 3 ∷ 4 ∷ 5 ∷ 6 ∷ 7 ∷ 8 ∷ 9 ∷ 10 ∷ 11 ∷ 12 ∷ 13 ∷ 14 ∷ 15 ∷ []

everyone_fair : (n : ℕ) → All (λ r. names_all 16 r ≡ true) (replicate n everyone)
everyone_fair zero = tt
everyone_fair (suc n) = (refl, everyone_fair n)

scan-rounds_example :
    scan two_ports network (flatten (replicate 20 everyone)) ≡ ok (outcome network two_ports)
scan-rounds_example =
    Ends.scan-rounds two_ports network (replicate 20 everyone) two_ports-IsPortList
      (everyone_fair 20) (omega arith)

-- A server that sends every question back, and a name that is no address.
abbrev echoing : List ℕ → Result (List ℕ)
echoing q = ok (put_u16 q 2 33792)

abbrev no_address : Text → Option IpAddr
no_address t = none

abbrev looked_up : DnsOutcome
looked_up = record {
  asked = codes "ab.c.";
  record_type = a_record;
  transport = udp;
  rcode = codes "NOERROR";
  authoritative = true;
  answers = [];
  note = [];
}

build_query-reverse_name_example :
    build_query 5 (reverse_name (v4 10 0 0 7)) 12
    ≡ ok (
        query_header 5
        ++ ((Reverse.on_wire (Reverse.labels 10 0 0 7) ++ (0 ∷ [])) ++ (be16 12 ++ be16 1)))
build_query-reverse_name_example = Reverse.build_query-reverse_name 10 0 0 7 5 12

prefix-IsPlain : Origin.IsPlain (codes "104.16.0.0/13")
prefix-IsPlain = refl

parse_origin-origin_record_example :
    parse_origin
      (Origin.origin_record 13335 (codes "104.16.0.0/13") (codes "US | arin | 2010-07-14"))
    ≡ some (record { asn = 13335; prefix = codes "104.16.0.0/13"; org = [] })
unfolding trim_end_matches
parse_origin-origin_record_example =
    Origin.parse_origin-origin_record 13335 b'1' (codes "04.16.0.0/13")
      (codes "US | arin | 2010-07-14") (omega arith) prefix-IsPlain refl refl

-- ===== src/Probe/Message.antt =====
-- The DNS messages of src/probe.rs: `build_query`, `header_truncated` and `parse_response`.
pub mod Accept
pub mod Displayed
pub mod Echo
pub mod Unasked
use tunnel_rs.Base.Bytes.{byte, u16_at}
use tunnel_rs.Base.{
  ℕ, zero, suc, ◌+◌, ◌-◌, ◌*◌, ◌/◌, ◌%◌, ◌<◌, ◌≤◌, ◌^◌, Bool, true, false, ◌&&◌, ◌||◌, not, Option,
  none, some, List, [], ◌∷◌, ◌++◌, length, take, drop, ltb, leb, ◌==◌, nat_eq, if◌then◌else◌, codes,
  ◌>>=◌ as ◌>>?◌,
}
use tunnel_rs.Probe.Name.{encode_name, read_name}
use tunnel_rs.Probe.Render.{read_u16, read_u32, to_option, render_rdata}
use tunnel_rs.Probe.Text.{
  Text, decimal, Error, short_response, wrong_id, not_a_reply, different_question, Result, ok, err,
  refuse, slice, ◌>>=◌, ◌>>◌,
}

abbrev pub max_answers : ℕ
max_answers = 64

abbrev pub be16 : ℕ → List ℕ
be16 v = (v / 256) ∷ (v % 256) ∷ []

-- `type_name`
unfoldable pub type_name : ℕ → Text
type_name code =
    if code == 1
    then codes "A"
    else (if code == 2
        then codes "NS"
        else (if code == 5
            then codes "CNAME"
            else (if code == 6
                then codes "SOA"
                else (if code == 12
                    then codes "PTR"
                    else (if code == 15
                        then codes "MX"
                        else (if code == 16
                            then codes "TXT"
                            else (if code == 28
                                then codes "AAAA"
                                else (if code == 33
                                    then codes "SRV"
                                    else (if code == 35
                                        then codes "NAPTR"
                                        else (if code == 39
                                            then codes "DNAME"
                                            else (if code == 41
                                                then codes "OPT"
                                                else (if code == 43
                                                    then codes "DS"
                                                    else (if code == 46
                                                        then codes "RRSIG"
                                                        else (if code == 47
                                                            then codes "NSEC"
                                                            else (if code == 48
                                                            then codes "DNSKEY"
                                                            else (if code == 50
                                                            then codes "NSEC3"
                                                            else (if code == 52
                                                            then codes "TLSA"
                                                            else (if code == 64
                                                            then codes "SVCB"
                                                            else (if code == 65
                                                            then codes "HTTPS"
                                                            else (if code == 257
                                                            then codes "CAA"
                                                            else codes "TYPE"
                                                            ++ decimal code))))))))))))))))))))

unfoldable pub rcode_name : ℕ → Text
rcode_name rcode =
    if rcode == 0
    then codes "NOERROR"
    else (if rcode == 1
        then codes "FORMERR"
        else (if rcode == 2
            then codes "SERVFAIL"
            else (if rcode == 3
                then codes "NXDOMAIN"
                else (if rcode == 4
                    then codes "NOTIMP"
                    else (if rcode == 5
                        then codes "REFUSED"
                        else (if rcode == 6
                            then codes "YXDOMAIN"
                            else (if rcode == 7
                                then codes "YXRRSET"
                                else (if rcode == 8
                                    then codes "NXRRSET"
                                    else (if rcode == 9
                                        then codes "NOTAUTH"
                                        else (if rcode == 10
                                            then codes "NOTZONE"
                                            else codes "RCODE?"))))))))))

-- The header of a query: one question, recursion desired.
abbrev pub query_header : ℕ → List ℕ
query_header id = (id / 256) ∷ (id % 256) ∷ 1 ∷ 0 ∷ 0 ∷ 1 ∷ 0 ∷ 0 ∷ 0 ∷ 0 ∷ 0 ∷ 0 ∷ []

-- `build_query`
unfoldable pub build_query : ℕ → Text → ℕ → Result (List ℕ)
build_query id name qtype =
    encode_name name >>= λ wire. ok (query_header id ++ (wire ++ (be16 qtype ++ be16 1)))

-- `header_truncated`
unfoldable pub header_truncated : List ℕ → Bool
unfolding byte
header_truncated msg = leb 4 (length msg) && byte msg 2 / 2 % 2 == 1

-- `eq_ignore_ascii_case`
abbrev pub lower : ℕ → ℕ
lower c = if leb b'A' c && leb c b'Z' then c + 32 else c

unfoldable pub same_name : Text → Text → Bool
same_name [] [] = true
same_name (c ∷ s) (d ∷ t) = lower c == lower d && same_name s t
same_name s t = false

-- The first question of a response must be that of the query.
unfoldable pub check_question : List ℕ → Text → ℕ → ℕ → Result (Unit {0})
unfolding same_name
check_question query name qtype qclass = do
  want ← read_name query 12
  want_type ← read_u16 query want.1
  refuse (not (same_name name want.0) || not (qtype == want_type) || not (qclass == 1))
      different_question

-- One question at `pos`: the place behind it. `first` says whether it is checked.
unfoldable pub read_question : List ℕ → List ℕ → Bool → ℕ → Result ℕ
unfolding check_question
read_question msg query first pos = do
  name ← read_name msg pos
  qtype ← read_u16 msg name.1
  qclass ← read_u16 msg (name.1 + 2)
  (if first then check_question query name.0 qtype qclass else ok tt)
  ok (name.1 + 4)

-- The loop over the questions left.
unfoldable pub read_questions : ℕ → List ℕ → List ℕ → Bool → ℕ → Result ℕ
unfolding read_question
read_questions zero msg query first pos = ok pos
read_questions (suc n) msg query first pos =
    read_question msg query first pos >>= read_questions n msg query false

pub record Answer : Type 0 where
  pub name : Text
  pub kind : Text
  pub ttl : ℕ
  pub text : Text

pub record Parsed : Type 0 where
  pub rcode : Text
  pub authoritative : Bool
  pub answers : List Answer
  pub capped : Bool

module _ (show_v6 : List ℕ → Text) where
  -- One record at `pos`, with the place behind it; `none` where it runs off the message.
  unfoldable pub read_record : List ℕ → ℕ → Option (Answer × ℕ)
  unfolding type_name
  read_record msg pos = to_option (read_name msg pos) >>? λ name.
      to_option (read_u16 msg name.1) >>? λ kind. to_option (read_u16 msg (name.1 + 2)) >>? λ class.
      to_option (read_u32 msg (name.1 + 4)) >>? λ ttl.
      to_option (read_u16 msg (name.1 + 8)) >>? λ len. slice msg (name.1 + 10) len >>? λ rdata.
      some (
        record {
          name = name.0;
          kind = type_name kind;
          ttl = ttl;
          text = render_rdata show_v6 msg (name.1 + 10) rdata kind;
        },
        name.1 + 10 + len,
      )

  -- The loop over the records left; `kept` counts the answers so far. Behind the answers, whether
  -- the list was capped.
  unfoldable pub read_answers : ℕ → List ℕ → ℕ → ℕ → List Answer × Bool
  read_answers zero msg kept pos = ([], false)
  read_answers (suc n) msg kept pos =
      if leb max_answers kept then ([], true) else elim (read_record msg pos) [
        | none ↦ ([], false)
        | some (a, next) ↦ let rest = read_answers n msg (suc kept) next in (a ∷ rest.0, rest.1)
      ]

  unfoldable pub parse_response : List ℕ → List ℕ → Result Parsed
  unfolding rcode_name u16_at
  parse_response msg query = do
    refuse (ltb (length msg) 12) short_response
    refuse (not (u16_at msg 0 == u16_at query 0)) wrong_id
    refuse (u16_at msg 2 / 2 ^ 15 % 2 == 0) not_a_reply
    pos ← read_questions (u16_at msg 4) msg query true 12
    ok (record {
      rcode = rcode_name (u16_at msg 2 % 16);
      authoritative = u16_at msg 2 / 2 ^ 10 % 2 == 1;
      answers = (read_answers (u16_at msg 6) msg 0 pos).0;
      capped = (read_answers (u16_at msg 6) msg 0 pos).1;
    })

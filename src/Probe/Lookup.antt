-- ===== src/Probe/Lookup.antt =====
-- The lookup of src/probe.rs: `RecordType`, reverse names and `nslookup`. What the server answers
-- over UDP and over TCP, the identifier of the query, and the standard library's reading of an
-- address are inputs.
pub mod Outcome
pub mod Reverse
use tunnel_rs.Base.{
  ℕ, ◌+◌, ◌-◌, ◌*◌, ◌/◌, ◌%◌, Bool, true, false, Option, none, some, List, [], ◌∷◌, ◌++◌,
  if◌then◌else◌, codes,
}
use tunnel_rs.Probe.Message.{build_query, header_truncated, parse_response, Parsed, Answer}
use tunnel_rs.Probe.Text.{
  Text, is_empty, trim, hex_digit, decimal, Error, no_target, address_needs_ptr, Result, ok, err,
  refuse, ◌>>=◌, ◌>>◌,
}

pub data RecordType : Type 0 where
  auto : RecordType
  a_record : RecordType
  aaaa : RecordType
  ptr : RecordType
  cname : RecordType
  txt : RecordType
  mx : RecordType
  ns : RecordType
  soa : RecordType
  caa : RecordType
  tlsa : RecordType

unfoldable pub label : RecordType → Text
label auto = codes "AUTO"
label a_record = codes "A"
label aaaa = codes "AAAA"
label ptr = codes "PTR"
label cname = codes "CNAME"
label txt = codes "TXT"
label mx = codes "MX"
label ns = codes "NS"
label soa = codes "SOA"
label caa = codes "CAA"
label tlsa = codes "TLSA"

-- `concrete`, with whether the target is an address.
unfoldable pub concrete : RecordType → Bool → RecordType
concrete auto true = ptr
concrete auto false = a_record
concrete other target_is_ip = other

unfoldable pub code : RecordType → ℕ
code auto = 1
code a_record = 1
code ns = 2
code cname = 5
code soa = 6
code ptr = 12
code mx = 15
code txt = 16
code aaaa = 28
code tlsa = 52
code caa = 257

-- An address by its bytes, four of them or sixteen.
pub data IpAddr : Type 0 where
  v4 : ℕ → ℕ → ℕ → ℕ → IpAddr
  v6 : List ℕ → IpAddr

-- The two digits of each byte, the last byte first, each with its dot.
unfoldable pub nibbles : List ℕ → Text → Text
nibbles [] out = out
nibbles (b ∷ bs) out = nibbles bs (hex_digit (b % 16) ∷ b'.' ∷ hex_digit (b / 16) ∷ b'.' ∷ out)

-- `String::pop`
unfoldable pub pop : Text → Text
pop [] = []
pop (c ∷ []) = []
pop (c ∷ d ∷ s) = c ∷ pop (d ∷ s)

unfoldable pub reverse_labels : IpAddr → Text
unfolding nibbles pop
reverse_labels (v4 a b c d) =
    decimal d ++ (b'.' ∷ (decimal c ++ (b'.' ∷ (decimal b ++ (b'.' ∷ decimal a)))))
reverse_labels (v6 bytes) = pop (nibbles bytes [])

abbrev pub reverse_zone : IpAddr → Text
reverse_zone (v4 a b c d) = codes "in-addr.arpa"
reverse_zone (v6 bytes) = codes "ip6.arpa"

unfoldable pub reverse_name : IpAddr → Text
unfolding reverse_labels
reverse_name ip = reverse_labels ip ++ (b'.' ∷ reverse_zone ip)

-- The match of `nslookup` on the target and the record.
unfoldable pub question : Text → Option IpAddr → RecordType → Result Text
unfolding reverse_name
question target none record_type = ok target
question target (some ip) ptr = ok (reverse_name ip)
question target (some ip) other = err address_needs_ptr

-- The parts of the note of an outcome.
pub data Notice : Type 0 where
  retried_over_tcp : Notice
  retry_failed : Notice
  list_capped : Notice

pub data Transport : Type 0 where
  udp : Transport
  tcp : Transport

-- `DnsOutcome` without the server and the time.
pub record DnsOutcome : Type 0 where
  pub asked : Text
  pub record_type : RecordType
  pub transport : Transport
  pub rcode : Text
  pub authoritative : Bool
  pub answers : List Answer
  pub note : List Notice

-- The bytes to parse, how they came, and the note on it.
pub record Received : Type 0 where
  pub bytes : List ℕ
  pub transport : Transport
  pub note : List Notice

abbrev pub after_retry : List ℕ → Result (List ℕ) → Received
after_retry over_udp (ok full) = record {
  bytes = full;
  transport = tcp;
  note = retried_over_tcp ∷ [];
}
after_retry over_udp (err why) = record {
  bytes = over_udp;
  transport = udp;
  note = retry_failed ∷ [];
}

unfoldable pub receive : List ℕ → Result (List ℕ) → Received
unfolding header_truncated
receive over_udp over_tcp =
    if header_truncated over_udp
    then after_retry over_udp over_tcp
    else record { bytes = over_udp; transport = udp; note = [] }

module _ (parse_ip : Text → Option IpAddr) (query_udp query_tcp : List ℕ → Result (List ℕ))
    (show_v6 : List ℕ → Text) where
  abbrev pub is_ip : Option IpAddr → Bool
  is_ip none = false
  is_ip (some ip) = true

  unfoldable pub nslookup : ℕ → RecordType → Text → Result DnsOutcome
  unfolding question receive concrete
  nslookup id wanted target = do
    refuse (is_empty (trim target)) no_target
    name ←
        question (trim target) (parse_ip (trim target))
          (concrete wanted (is_ip (parse_ip (trim target))))
    query ← build_query id name (code (concrete wanted (is_ip (parse_ip (trim target)))))
    over_udp ← query_udp query
    parsed ← parse_response show_v6 (receive over_udp (query_tcp query)).bytes query
    ok (record {
      asked = name;
      record_type = concrete wanted (is_ip (parse_ip (trim target)));
      transport = (receive over_udp (query_tcp query)).transport;
      rcode = parsed.rcode;
      authoritative = parsed.authoritative;
      answers = parsed.answers;
      note =
          (receive over_udp (query_tcp query)).note
          ++ (if parsed.capped then list_capped ∷ [] else []);
    })

-- ===== src/Probe/Lookup/Outcome.antt =====
-- What the outcome of a lookup in src/probe.rs says, and that every IPv4 address can be asked
-- about.
use tunnel_rs.Base.{ℕ, ◌≡◌, ◌⊎◌, Bool, true, false, ◌&&◌, Option, none, some, List, [], ◌∷◌, nat_eq}
use tunnel_rs.Probe.Lookup.{ptr, label, code, IpAddr, reverse_name, Notice, DnsOutcome, receive}
use tunnel_rs.Probe.Message.{header_truncated, parse_response, Parsed, type_name}
use tunnel_rs.Probe.Text.{Text, trim, Result, ok}

abbrev is_nil : List Notice → Bool
is_nil [] = true
is_nil (x ∷ xs) = false

module _ (parse_ip : Text → Option IpAddr) (query_udp query_tcp : List ℕ → Result (List ℕ))
    (show_v6 : List ℕ → Text) where
  -- What an outcome stands for.
  pub record Answered (target : Text) (o : DnsOutcome) (query over_udp : List ℕ) (parsed : Parsed)
      : Type 0 where
    pub sent : query_udp query ≡ ok over_udp
    pub read : parse_response show_v6 (receive over_udp (query_tcp query)).bytes query ≡ ok parsed
    pub told : (o.answers ≡ parsed.answers) × (o.rcode ≡ parsed.rcode)
    pub honest : (header_truncated over_udp && is_nil o.note) ≡ false
    pub shown : type_name (code o.record_type) ≡ label o.record_type
    pub asks :
        ((parse_ip (trim target) ≡ none) × (o.asked ≡ trim target))
        ⊎ ((a : IpAddr) × (parse_ip (trim target) ≡ some a)
            × (o.record_type ≡ ptr)
            × (o.asked ≡ reverse_name a))

-- ===== src/Probe/Intel.antt =====
-- What DNS alone says of an address in src/probe.rs: `lookup_first`, the fields of an origin
-- record, and `intel`. What the server answers and the identifiers of the queries are inputs.
pub mod Origin
use tunnel_rs.Base.{
  ℕ, ◌+◌, ◌-◌, ◌*◌, ◌^◌, ◌<◌, Bool, true, false, ◌&&◌, ◌||◌, not, Option, none, some, List, [], ◌∷◌,
  ◌++◌, map, get_elem?, leb, ltb, ◌==◌, nat_eq, if◌then◌else◌, codes, ◌>>=◌ as ◌>>?◌,
}
use tunnel_rs.Probe.Lookup.{IpAddr, v4, v6, reverse_labels, reverse_name}
use tunnel_rs.Probe.Message.{build_query, parse_response, type_name, Answer, Parsed}
use tunnel_rs.Probe.Render.{to_option}
use tunnel_rs.Probe.Text.{
  parse_number, Text, is_whitespace, is_empty, trim, trim_start, split, decimal, Result, ok, err,
}

-- Equality of texts.
unfoldable pub same_text : Text → Text → Bool
same_text [] [] = true
same_text (c ∷ s) (d ∷ t) = c == d && same_text s t
same_text s t = false

-- `replace('"', "")`
unfoldable pub without_quotes : Text → Text
without_quotes [] = []
without_quotes (c ∷ s) = let rest = without_quotes s in if c == b'"' then rest else c ∷ rest

unfoldable pub cymru_fields : Text → List Text
unfolding without_quotes
cymru_fields text = map trim (split b'|' (without_quotes text))

-- The text up to its first white space.
unfoldable pub word : Text → Text
word [] = []
word (c ∷ s) = let rest = word s in if is_whitespace c then [] else c ∷ rest

-- `split_whitespace().next()`
unfoldable pub first_word : Text → Option Text
unfolding word
first_word s = if is_empty (trim_start s) then none else some (word (trim_start s))

pub record AsnInfo : Type 0 where
  pub asn : ℕ
  pub prefix : Text
  pub org : Text

abbrev pub or_default : Option Text → Text
or_default none = []
or_default (some s) = s

unfoldable pub parse_origin : Text → Option AsnInfo
unfolding cymru_fields first_word parse_number
parse_origin text = get_elem? (cymru_fields text) 0 >>? λ first. first_word first >>? λ number.
    parse_number (2 ^ 32 - 1) number >>? λ asn.
    some (record { asn = asn; prefix = or_default (get_elem? (cymru_fields text) 1); org = [] })

unfoldable pub non_empty : Option Text → Option Text
non_empty none = none
non_empty (some []) = none
non_empty (some (c ∷ s)) = some (c ∷ s)

-- `find(|a| a.kind == want)`
unfoldable pub find_kind : Text → List Answer → Option Text
unfolding same_text
find_kind want [] = none
find_kind want (a ∷ more) =
    let rest = find_kind want more in if same_text a.kind want then some a.text else rest

-- `IntelOutcome` without the target and the time; whether there is a note.
pub record IntelOutcome : Type 0 where
  pub ptr : Option Text
  pub asn : Option ℕ
  pub prefix : Option Text
  pub country : Option Text
  pub registry : Option Text
  pub allocated : Option Text
  pub org : Option Text
  pub noted : Bool

-- The identifiers of the queries of one run.
pub record Ids : Type 0 where
  pub for_ptr : ℕ
  pub for_origin : ℕ
  pub for_org : ℕ

abbrev pub is_none {κ} : {A : Type κ} → Option A → Bool
is_none none = true
is_none (some x) = false

abbrev pub origin_zone : IpAddr → Text
origin_zone (v4 a b c d) = codes "origin.asn.cymru.com"
origin_zone (v6 bytes) = codes "origin6.asn.cymru.com"

module _ (query_udp : List ℕ → Result (List ℕ)) (show_v6 : List ℕ → Text) where
  unfoldable pub lookup_first : ℕ → Text → ℕ → Option Text
  unfolding find_kind
  lookup_first id name qtype = to_option (build_query id name qtype) >>? λ query.
      to_option (query_udp query) >>? λ bytes.
      to_option (parse_response show_v6 bytes query) >>? λ parsed.
      find_kind (type_name qtype) parsed.answers

  -- The name of the network, by a second lookup.
  unfoldable pub lookup_org : ℕ → Option ℕ → Option Text
  unfolding lookup_first non_empty cymru_fields
  lookup_org id none = none
  lookup_org id (some asn) =
      lookup_first id (codes "AS" ++ (decimal asn ++ codes ".asn.cymru.com")) 16 >>? λ text.
      non_empty (get_elem? (cymru_fields text) 4)

  unfoldable pub intel : Ids → IpAddr → IntelOutcome
  unfolding lookup_org parse_origin reverse_name
  intel ids target =
      let reverse : Option Text = lookup_first ids.for_ptr (reverse_name target) 12 in
      let origin : Option Text =
        lookup_first ids.for_origin (reverse_labels target ++ (b'.' ∷ origin_zone target)) 16 in
      let info : Option AsnInfo = origin >>? parse_origin in
      let field : ℕ → Option Text =
        λ i. origin >>? λ text. non_empty (get_elem? (cymru_fields text) i) in
      let asn : Option ℕ = info >>? λ known. some known.asn in
      record {
        ptr = reverse;
        asn = asn;
        prefix = info >>? λ known. non_empty (some known.prefix);
        country = field 2;
        registry = field 3;
        allocated = field 4;
        org = lookup_org ids.for_org asn;
        noted = is_none reverse && is_none asn;
      }

  -- `asn_origin`
  unfoldable pub asn_origin : Ids → IpAddr → Option AsnInfo
  unfolding lookup_org parse_origin
  asn_origin ids ip =
      lookup_first ids.for_origin (reverse_labels ip ++ (b'.' ∷ origin_zone ip)) 16 >>? λ text.
      parse_origin text >>? λ info.
      some (record info { org = or_default (lookup_org ids.for_org (some info.asn)) })

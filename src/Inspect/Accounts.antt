-- ===== src/Inspect/Accounts.antt =====
-- The bytes for each protocol of src/inspect.rs against the live flows, over every packet that
-- `record` counts, and the cap on the rows.
use tunnel_rs.Base.{
  ℕ, ◌+◌, ◌-◌, ◌≤◌, ◌<◌, ◌≡◌, refl, Bool, ◌&&◌, not, Option, subst, none, some, ◌∷◌, [], length,
  leb, ◌==◌, nat_eq, String, string_eq, if◌then◌else◌, arith, Bool-cases, inl, inr,
}
use tunnel_rs.Base.Table.{
  Table, find, contains, insert, find-contains, length-insert, length-insert_found,
}
use tunnel_rs.Inspect.AppProto.{AppProto, label}
use tunnel_rs.Inspect.Monitor.{
  FlowKey, flow_key_eq, ParsedPacket, Inner, key_of, tally, at_cap, flow_at, or_open, account,
  record_parsed,
}
use tunnel_rs.Inspect.Totals.{
  Direction, up, down, Flow, entry, record_packet, part, Attributed, entry-insert,
  record_packet-Attributed,
}

-- What the live flows with this label carried.
abbrev pub carried : String → Table FlowKey Flow → ℕ
carried k [] = 0
carried k ((key, f) ∷ flows) = part k f + carried k flows

-- Each protocol's total is what the live flows that now have its label carried, and the bytes
-- that count under the label and have no row.
abbrev pub Accounted : Inner → (String → ℕ) → Type 0
Accounted i rowless = (k : String) → entry k i.proto_bytes ≡ carried k i.flows + rowless k

-- What a row carried under the label, if there is one.
abbrev carried_by : String → Option Flow → ℕ
carried_by k none = 0
carried_by k (some f) = part k f

abbrev held : String → FlowKey → Table FlowKey Flow → ℕ
held k key flows = carried_by k (find key flows)

carried-insert :
    (k : String) (key : FlowKey) (g : Flow) (flows : Table FlowKey Flow)
    → carried k (insert key g flows) + held k key flows ≡ carried k flows + part k g
unfolding insert find
carried-insert k key g [] = omega arith
carried-insert k key g ((j, f) ∷ flows) = elim (Bool-cases (j == key)) [
  | inl same ↦ rw (same, held) (omega arith)
  | inr apart ↦ rw (apart, held) (omega (arith, carried-insert k key g flows))
]

held-le :
    (k : String) (key : FlowKey) (flows : Table FlowKey Flow) → held k key flows ≤ carried k flows
unfolding find
held-le k key [] = omega arith
held-le k key ((j, f) ∷ flows) = elim (Bool-cases (j == key)) [
  | inl same ↦ rw (same, held) (omega arith)
  | inr apart ↦ rw (apart, held) (omega (arith, held-le k key flows))
]

-- A row that opens has carried nothing.
part-or_open :
    (k : String) (app : AppProto) (row : Option Flow) → carried_by k row ≡ part k (or_open app row)
unfolding or_open
part-or_open k app none = ground arith
part-or_open k app (some f) = refl

tally-same :
    (dir : Direction) (len : ℕ) (i : Inner)
    → ((tally dir len i).flows ≡ i.flows) × ((tally dir len i).proto_bytes ≡ i.proto_bytes)
unfolding tally
tally-same up len i = (refl, refl)
tally-same down len i = (refl, refl)

-- The bytes without a row after a packet.
abbrev declined : ParsedPacket → FlowKey → Table FlowKey Flow → (String → ℕ) → String → ℕ
declined p key flows rowless k =
    if leb 8192 (length flows) && not (contains key flows) && label p.app == k
    then rowless k + p.len
    else rowless k

account-Accounted :
    (torrenting : Bool) (dir : Direction) (p : ParsedPacket) (key : FlowKey) (i : Inner)
    (rowless : String → ℕ)
    → Accounted i rowless
    → Accounted (account torrenting dir p key i) (declined p key i.flows rowless)
unfolding account at_cap flow_at
account-Accounted torrenting dir p key i rowless h k =
    elim (Bool-cases (leb 8192 (length i.flows) && not (contains key i.flows))) [
      | inl full ↦ rw full (
          ground (
            arith,
            entry-insert (label p.app) k (entry (label p.app) i.proto_bytes + p.len) i.proto_bytes,
            string_eq.beq_iff (label p.app) k,
            h k,
          ))
      | inr free ↦
          let f = flow_at key p.app i.flows in
          let r = record_packet dir p.len p.app torrenting f i.proto_bytes in
          let rest = λ (j : String). carried j i.flows - held j key i.flows + rowless j in
          let before : Attributed i.proto_bytes f rest = λ j.
            omega (arith, h j, part-or_open j p.app (find key i.flows), held-le j key i.flows) in
          let after =
            record_packet-Attributed dir p.len p.app torrenting f i.proto_bytes rest before k in
          rw free omega (arith, after, carried-insert k key r.0 i.flows, held-le k key i.flows)
    ]

account-rows :
    (torrenting : Bool) (dir : Direction) (p : ParsedPacket) (key : FlowKey) (i : Inner)
    → length i.flows ≤ 8192
    → length (account torrenting dir p key i).flows ≤ 8192
unfolding account at_cap flow_at
account-rows torrenting dir p key i h =
    let f = flow_at key p.app i.flows in
    let r = record_packet dir p.len p.app torrenting f i.proto_bytes in
    elim (Bool-cases (leb 8192 (length i.flows) && not (contains key i.flows))) [
      | inl full ↦ rw full h
      | inr free ↦ elim (Bool-cases (contains key i.flows)) [
        | inl there ↦
            let same = length-insert_found key r.0 i.flows (find-contains key i.flows there) in
            rw free omega (arith, same)
        | inr absent ↦
            let room : length i.flows < 8192 = ground arith in
            rw free omega (arith, length-insert key r.0 i.flows)
      ]
    ]

module _ (torrenting : Bool) (dir : Direction) (p : ParsedPacket) (i : Inner) where
  -- If each protocol's total is what the live flows with its label carried and the bytes without
  -- a row, it is so after every packet that parses, whatever labels the flow goes through; the
  -- bytes without a row grow by the packet exactly if there are 8192 rows or more and none is
  -- the packet's, and then under the packet's own label.
  pub record_parsed-Accounted :
      (rowless : String → ℕ)
      → Accounted i rowless
      → Accounted (record_parsed torrenting dir p i) (λ k.
        if leb 8192 (length i.flows) && not (contains (key_of dir p) i.flows) && label p.app == k
        then rowless k + p.len
        else rowless k)
  unfolding record_parsed
  record_parsed-Accounted rowless h =
      let (rows, bytes) = tally-same dir p.len i in
      let before : Accounted (tally dir p.len i) rowless = λ k. rw (bytes, rows) (h k) in
      subst
        (λ (z : Table FlowKey Flow).
          Accounted (record_parsed torrenting dir p i) (declined p (key_of dir p) z rowless))
        rows (account-Accounted torrenting dir p (key_of dir p) (tally dir p.len i) rowless before)

  -- There are never more than 8192 rows.
  pub length-record_parsed :
      length i.flows ≤ 8192 → length (record_parsed torrenting dir p i).flows ≤ 8192
  unfolding record_parsed
  length-record_parsed h =
      account-rows torrenting dir p (key_of dir p) (tally dir p.len i)
        (rw (tally-same dir p.len i).0 h)

-- ===== src/Inspect/Totals.antt =====
-- `relabel` of src/inspect.rs and the part of `record` that follows the lookup of the flow: the
-- upgrade of its label and the bytes for each protocol.
use tunnel_rs.Base.{
  ℕ, ◌+◌, ◌-◌, ◌≡◌, ◌∙◌, sym, ap, refl, Bool, true, false, ◌&&◌, max, ltb, ◌==◌, nat_eq, String,
  string_eq, if◌then◌else◌, arith, Bool-cases, inl, inr, none, some,
}
use tunnel_rs.Base.Table.{Table, find, insert, find-insert, ==_refl}
use tunnel_rs.Inspect.AppProto.{AppProto, obfuscated, obfuscated_bt, rank, label}

pub data Direction : Type 0 where
  up : Direction
  down : Direction

-- The fields of `Flow` that `record` reads or writes here, times left out.
pub record Flow : Type 0 where
  pub app : AppProto
  pub up_bytes : ℕ
  pub down_bytes : ℕ
  pub pkts : ℕ

-- `*map.get(key).unwrap_or(&0)`
unfoldable pub entry : String → Table String ℕ → ℕ
entry k m = elim (find k m) [ none ↦ 0 | some n ↦ n ]

unfoldable pub relabel : Flow → Table String ℕ → AppProto → Flow × Table String ℕ
unfolding entry
relabel f m app =
    let hist = f.up_bytes + f.down_bytes in
    let less = insert (label f.app) (entry (label f.app) m - hist) m in
    (
      record f { app = app },
      if ltb 0 hist then insert (label app) (entry (label app) less + hist) less else m,
    )

-- `flow.app == AppProto::Obfuscated`
unfoldable pub is_obfuscated : AppProto → Bool
is_obfuscated obfuscated = true
is_obfuscated app = false

unfoldable pub upgrade : Flow → Table String ℕ → AppProto → Flow × Table String ℕ
unfolding relabel
upgrade f m app = if ltb (rank f.app) (rank app) then relabel f m app else (f, m)

-- A flow of a host that is known to torrent.
unfoldable pub mark_torrent : Bool → Flow × Table String ℕ → Flow × Table String ℕ
unfolding relabel is_obfuscated
mark_torrent torrenting (f, m) =
    if is_obfuscated f.app && torrenting then relabel f m obfuscated_bt else (f, m)

unfoldable pub add : Direction → ℕ → Flow → Flow
add up len f = record f { up_bytes = f.up_bytes + len; pkts = f.pkts + 1 }
add down len f = record f { down_bytes = f.down_bytes + len; pkts = f.pkts + 1 }

unfoldable pub count : Direction → ℕ → Flow × Table String ℕ → Flow × Table String ℕ
unfolding entry add
count dir len (f, m) = (add dir len f, insert (label f.app) (entry (label f.app) m + len) m)

-- One packet, of a flow that has a row, of `len` bytes whose own label is `app`; `torrenting`
-- is what the monitor knows of the remote host.
unfoldable pub record_packet :
    Direction → ℕ → AppProto → Bool → Flow → Table String ℕ → Flow × Table String ℕ
unfolding upgrade mark_torrent count
record_packet dir len app torrenting f m = count dir len (mark_torrent torrenting (upgrade f m app))

-- What a flow carried, counted under this label.
abbrev pub part : String → Flow → ℕ
part k f = if label f.app == k then f.up_bytes + f.down_bytes else 0

-- Each protocol's total is what this flow carried, if it has the label, and what else counts
-- under the label.
abbrev pub Attributed : Table String ℕ → Flow → (String → ℕ) → Type 0
Attributed m f rest = (k : String) → entry k m ≡ part k f + rest k

pub entry-insert :
    (k j : String) (v : ℕ) (m : Table String ℕ)
    → entry j (insert k v m) ≡ (if k == j then v else entry j m)
unfolding entry
entry-insert k j v m = ground (arith, find-insert k j v m)

pub relabel-Attributed :
    (f : Flow) (rest : String → ℕ) (m : Table String ℕ) (app : AppProto)
    → Attributed m f rest
    → Attributed ((relabel f m app).1) ((relabel f m app).0) rest
unfolding relabel
relabel-Attributed f rest m app h k = ground (
  arith,
  entry-insert (label f.app) k (entry (label f.app) m - (f.up_bytes + f.down_bytes)) m,
  entry-insert (label f.app) (label app) (entry (label f.app) m - (f.up_bytes + f.down_bytes)) m,
  entry-insert (label app) k
      (entry (label app)
          (insert (label f.app) (entry (label f.app) m - (f.up_bytes + f.down_bytes)) m)
        + (f.up_bytes + f.down_bytes))
      (insert (label f.app) (entry (label f.app) m - (f.up_bytes + f.down_bytes)) m),
  string_eq.beq_iff (label f.app) k,
  string_eq.beq_iff (label app) k,
  string_eq.beq_iff (label f.app) (label app),
  ==_refl (label f.app),
  h k,
  h (label f.app),
  h (label app),
)

upgrade-Attributed :
    (f : Flow) (rest : String → ℕ) (m : Table String ℕ) (app : AppProto)
    → Attributed m f rest
    → Attributed ((upgrade f m app).1) ((upgrade f m app).0) rest
unfolding upgrade
upgrade-Attributed f rest m app h = elim (Bool-cases (ltb (rank f.app) (rank app))) [
  | inl e ↦ rw e (relabel-Attributed f rest m app h)
  | inr e ↦ rw e h
]

mark_torrent-Attributed :
    (t : Bool) (f : Flow) (rest : String → ℕ) (m : Table String ℕ)
    → Attributed m f rest
    → Attributed ((mark_torrent t (f, m)).1) ((mark_torrent t (f, m)).0) rest
unfolding mark_torrent
mark_torrent-Attributed t f rest m h = elim (Bool-cases (is_obfuscated f.app && t)) [
  | inl e ↦ rw e (relabel-Attributed f rest m obfuscated_bt h)
  | inr e ↦ rw e h
]

count-Attributed :
    (dir : Direction) (len : ℕ) (f : Flow) (rest : String → ℕ) (m : Table String ℕ)
    → Attributed m f rest
    → Attributed ((count dir len (f, m)).1) ((count dir len (f, m)).0) rest
unfolding count add
count-Attributed up len f rest m h k = ground (
  arith,
  entry-insert (label f.app) k (entry (label f.app) m + len) m,
  h k,
  string_eq.beq_iff (label f.app) k,
)
count-Attributed down len f rest m h k = ground (
  arith,
  entry-insert (label f.app) k (entry (label f.app) m + len) m,
  h k,
  string_eq.beq_iff (label f.app) k,
)

-- The rest of the packet's accounting moves bytes only with the flow.
pub record_packet-Attributed :
    (dir : Direction) (len : ℕ) (app : AppProto) (torrenting : Bool) (f : Flow) (m : Table String ℕ)
    (rest : String → ℕ)
    → Attributed m f rest
    → Attributed
        ((record_packet dir len app torrenting f m).1)
        ((record_packet dir len app torrenting f m).0)
        rest
unfolding record_packet
record_packet-Attributed dir len app t f m rest h =
    count-Attributed dir len ((mark_torrent t (upgrade f m app)).0) rest
      ((mark_torrent t (upgrade f m app)).1)
      (mark_torrent-Attributed t ((upgrade f m app).0) rest ((upgrade f m app).1)
        (upgrade-Attributed f rest m app h))

is_obfuscated-rank : (app : AppProto) → is_obfuscated app ≡ true → rank app ≡ 1
unfolding is_obfuscated
is_obfuscated-rank app h = ground arith

add-app : (dir : Direction) (len : ℕ) (f : Flow) → (add dir len f).app ≡ f.app
unfolding add
add-app up len f = refl
add-app down len f = refl

mark_torrent-rank :
    (t : Bool) (r : Flow × Table String ℕ) → rank ((mark_torrent t r).0.app) ≡ rank (r.0.app)
unfolding mark_torrent relabel
mark_torrent-rank t (f, m) = elim (Bool-cases (is_obfuscated f.app && t)) [
  | inl e ↦ rw e (sym (is_obfuscated-rank f.app (ground arith)))
  | inr e ↦ rw e refl
]

upgrade-rank :
    (f : Flow) (m : Table String ℕ) (app : AppProto)
    → rank ((upgrade f m app).0.app) ≡ max (rank f.app) (rank app)
unfolding upgrade relabel
upgrade-rank f m app = elim (Bool-cases (ltb (rank f.app) (rank app))) [
  | inl e ↦ rw e (ground arith)
  | inr e ↦ rw e (ground arith)
]

-- A flow's confidence tier after a packet is the higher of its own and the packet's, so no
-- packet lowers it.
pub record_packet-rank :
    (dir : Direction) (len : ℕ) (app : AppProto) (torrenting : Bool) (f : Flow) (m : Table String ℕ)
    → rank ((record_packet dir len app torrenting f m).0.app) ≡ max (rank f.app) (rank app)
unfolding record_packet count
record_packet-rank dir len app t f m =
    ap rank (add-app dir len ((mark_torrent t (upgrade f m app)).0))
    ∙ mark_torrent-rank t (upgrade f m app)
    ∙ upgrade-rank f m app

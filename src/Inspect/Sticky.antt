-- ===== src/Inspect/Sticky.antt =====
-- How firmly a flow of src/inspect.rs keeps a label: no later packet replaces one of the
-- highest tier.
use tunnel_rs.Base.{ℕ, ◌≤◌, ◌≡◌, ◌∙◌, refl, Bool, false, List, [], ltb, nat_eq, String, arith}
use tunnel_rs.Base.Table.{Table}
use tunnel_rs.Inspect.AppProto.{AppProto, tls, rank}
use tunnel_rs.Inspect.Signature.{is_tls, is_bittorrent, is_http_tracker, looks_random, starts_with}
use tunnel_rs.Inspect.Classify.{tcp, classify, tcp_signatures, well_known, has}
use tunnel_rs.Inspect.Totals.{
  Direction, up, down, Flow, record_packet, count, add, mark_torrent, upgrade, is_obfuscated,
}

rank_le : (app : AppProto) → rank app ≤ 3
rank_le app = ground arith

add-app_same : (dir : Direction) (len : ℕ) (f : Flow) → (add dir len f).app ≡ f.app
unfolding add
add-app_same up len f = refl
add-app_same down len f = refl

strong_off : (app : AppProto) → 3 ≤ rank app → is_obfuscated app ≡ false
unfolding is_obfuscated
strong_off app h = ground arith

-- A flow with a label of the highest tier keeps it whatever packet follows.
pub record_packet_strong :
    (dir : Direction) (len : ℕ) (app : AppProto) (torrenting : Bool) (f : Flow) (m : Table String ℕ)
    → 3 ≤ rank f.app
    → (record_packet dir len app torrenting f m).0.app ≡ f.app
unfolding record_packet count mark_torrent upgrade
record_packet_strong dir len app t f m h =
    let weak : ltb (rank f.app) (rank app) ≡ false = ground (arith, rank_le app) in
    rw (weak, strong_off f.app h) (add-app_same dir len f)

quiet_443 : (above : List ℕ → ℕ → Bool) (s : ℕ) → 49152 ≤ s → classify above tcp s 443 [] ≡ tls
unfolding classify tcp_signatures well_known has is_tls is_bittorrent is_http_tracker looks_random
    starts_with
quiet_443 above s h = ground arith

-- A TCP flow from an ephemeral port to 443 that opens with an empty packet is labelled TLS by
-- the port alone, and no later packet, whatever signature it carries, replaces the label.
pub port_label_sticks :
    (above : List ℕ → ℕ → Bool) (s : ℕ) (dir : Direction) (len : ℕ) (app : AppProto)
    (torrenting : Bool) (f : Flow) (m : Table String ℕ)
    → 49152 ≤ s
    → f.app ≡ classify above tcp s 443 []
    → (record_packet dir len app torrenting f m).0.app ≡ tls
port_label_sticks above s dir len app t f m h e =
    let is : f.app ≡ tls = e ∙ quiet_443 above s h in
    record_packet_strong dir len app t f m (rw is (omega arith)) ∙ is

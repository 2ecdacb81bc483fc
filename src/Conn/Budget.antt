-- ===== src/Conn/Budget.antt =====
-- `Budget` of src/conn.rs. A `usize` is a number; no sum below reaches 2 ^ 64, since a charge is
-- admitted only under the byte ceiling.
use tunnel_rs.Base.{ℕ, suc, ◌+◌, ◌-◌, ◌*◌, ◌/◌, ◌<◌, ◌≤◌, ◌≡◌, Bool, true, ◌&&◌, ltb, leb, arith}

pub record Budget : Type 0 where
  pub charged : ℕ
  pub cost : ℕ
  pub max_flows : ℕ
  pub max_bytes : ℕ

unfoldable pub new : ℕ → ℕ → ℕ → Budget
new cost max_flows max_bytes = record {
  charged = 0;
  cost = cost;
  max_flows = max_flows;
  max_bytes = max_bytes;
}

unfoldable pub admits : Budget → ℕ → Bool
admits b live = ltb live b.max_flows && leb (b.charged + b.cost) b.max_bytes

unfoldable pub charge : Budget → Budget
charge b = record b { charged = b.charged + b.cost }

-- `saturating_sub`
unfoldable pub refund : Budget → Budget
refund b = record b { charged = b.charged - b.cost }

unfoldable pub mib : Budget → ℕ
mib b = b.charged / (1024 * 1024)

-- The charge is the exact cost of the live flows, and both ceilings hold.
pub record Covers (b : Budget) (live : ℕ) : Type 0 where
  pub exact : b.charged ≡ live * b.cost
  pub bytes : b.charged ≤ b.max_bytes
  pub flows : live ≤ b.max_flows

pub new-Covers : (cost max_flows max_bytes : ℕ) → Covers (new cost max_flows max_bytes) 0
unfolding new
new-Covers cost max_flows max_bytes = omega arith

-- A flow that is admitted and charged for keeps the budget exact and under its ceilings.
pub charge-Covers :
    (b : Budget) (live : ℕ) → Covers b live → admits b live ≡ true → Covers (charge b) (suc live)
unfolding admits charge
charge-Covers b live c ok =
    let fits : (live < b.max_flows) × (b.charged + b.cost ≤ b.max_bytes) = ground arith in
    omega arith

-- A refund for a flow that closes keeps it exact: what is left is what is still open.
pub refund-Covers : (b : Budget) (live : ℕ) → Covers b (suc live) → Covers (refund b) live
unfolding refund
refund-Covers b live c = omega arith

-- A refund takes back what the charge took, and never less than nothing.
pub refund-charge : (b : Budget) → refund (charge b) ≡ b
unfolding refund charge
refund-charge b = ground arith

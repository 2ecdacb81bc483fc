-- ===== src/Conn/Manager/Heap.antt =====
-- The heap of deadlines of src/conn.rs: what it holds, and that it stays in order.
use tunnel_rs.Base.{
  ℕ, ◌<◌, ◌≡◌, refl, inl, inr, Bool, true, false, ◌&&◌, ◌||◌, List, [], ◌∷◌, leb, ◌==◌, nat_eq,
  arith, Bool-cases, ◌⊎◌, ◌≤◌, ◌∙◌, ap,
}
use tunnel_rs.Conn.Flow.{flow_id_eq, FlowId, tuple_eq}
use tunnel_rs.Conn.Manager.{file}
use tunnel_rs.Conn.Manager.Expiry.{NoneDue}

-- Whether the heap holds an entry.
abbrev pub filed : ℕ → FlowId → List (ℕ × FlowId) → Bool
filed at id [] = false
filed at id ((t, x) ∷ h) = (t == at && x == id) || filed at id h

abbrev pub NoEarlier : ℕ → List (ℕ × FlowId) → Type 0
NoEarlier at [] = Unit
NoEarlier at ((t, x) ∷ h) = at ≤ t

abbrev pub Ordered : List (ℕ × FlowId) → Type 0
Ordered [] = Unit
Ordered ((t, x) ∷ h) = NoEarlier t h × Ordered h

pub filed-file :
    (at at' : ℕ) (id id' : FlowId) (h : List (ℕ × FlowId))
    → filed at id (file at' id' h) ≡ ((at' == at && id' == id) || filed at id h)
unfolding file
filed-file at at' id id' [] = refl
filed-file at at' id id' ((t, x) ∷ h) = ground (arith, filed-file at at' id id' h)

pub file-filed :
    (at : ℕ) (id x : FlowId) (h : List (ℕ × FlowId)) → id ≡ x → filed at x (file at id h) ≡ true
file-filed at id x h e =
    let here : (at == at && id == x) ≡ true = ground (arith, flow_id_eq.beq_iff id x) in
    filed-file at at x id h ∙ ap (λ (b : Bool). b || filed at x h) here

file-NoEarlier :
    (t at : ℕ) (id : FlowId) (h : List (ℕ × FlowId))
    → t ≤ at
    → NoEarlier t h
    → NoEarlier t (file at id h)
unfolding file
file-NoEarlier t at id [] le a = le
file-NoEarlier t at id ((u, x) ∷ h) le a = ground arith

pub file-Ordered :
    (at : ℕ) (id : FlowId) (h : List (ℕ × FlowId)) → Ordered h → Ordered (file at id h)
unfolding file
file-Ordered at id [] o = (tt, tt)
file-Ordered at id ((t, x) ∷ h) o = elim (Bool-cases (leb at t)) [
  | inl early ↦ rw early (ground arith, o)
  | inr late ↦ rw late (file-NoEarlier t at id h (ground arith) o.0, file-Ordered at id h o.1)
]

filed-ge :
    (t at : ℕ) (id : FlowId) (h : List (ℕ × FlowId))
    → NoEarlier t h
    → Ordered h
    → filed at id h ≡ true
    → t ≤ at
filed-ge t at id [] a o f = cc
filed-ge t at id ((u, x) ∷ h) a o f = elim (Bool-cases (u == at && x == id)) [
  | inl here ↦ ground arith
  | inr other ↦ let le = filed-ge u at id h o.0 o.1 (rw other at f) in omega arith
]

-- In an ordered heap whose first entry is not due, no entry is.
pub filed-later :
    (now at : ℕ) (id : FlowId) (h : List (ℕ × FlowId))
    → Ordered h
    → NoneDue now h
    → filed at id h ≡ true
    → now < at
filed-later now at id [] o d f = cc
filed-later now at id ((t, x) ∷ h) o d f =
    let le = filed-ge t at id ((t, x) ∷ h) (omega arith) o f in omega arith

-- What is left of an entry's flow when the entry is taken off the heap.
pub popped :
    (at d : ℕ) (id x : FlowId) (h : List (ℕ × FlowId))
    → filed d x ((at, id) ∷ h) ≡ true
    → (filed d x h ≡ true) ⊎ ((at ≡ d) × (id ≡ x))
popped at d id x h f = elim (Bool-cases (at == d && id == x)) [
  | inl here ↦ inr (ground (arith, flow_id_eq.beq_iff id x))
  | inr other ↦ inl (rw other at f)
]

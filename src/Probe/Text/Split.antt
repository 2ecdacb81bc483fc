-- ===== src/Probe/Text/Split.antt =====
-- Cutting a text of src/probe.rs into parts and joining them again.
use tunnel_rs.Base.{
  ℕ, ◌≡◌, ◌≢◌, refl, inl, inr, Bool, true, false, List, [], ◌∷◌, ◌==◌, nat_eq, if◌then◌else◌, arith,
  Bool-cases,
}
use tunnel_rs.Probe.Text.{Text, extend, split, join}

split-ne-nil : (sep : ℕ) (s : Text) → split sep s ≢ []
unfolding split
split-ne-nil sep [] h = cc
split-ne-nil sep (c ∷ s) h = go (c == sep) (split sep s) h
  where
    go : (b : Bool) (ps : List Text) → (if b then [] ∷ ps else extend c ps) ≢ []
    go true ps h = cc
    go false [] h = cc
    go false (p ∷ ps) h = cc

join-extend : (sep c : ℕ) (ps : List Text) → ps ≢ [] → join sep (extend c ps) ≡ c ∷ join sep ps
unfolding join
join-extend sep c [] ne = absurd (ne refl)
join-extend sep c (p ∷ []) ne = refl
join-extend sep c (p ∷ q ∷ ps) ne = refl

join-nil : (sep : ℕ) (ps : List Text) → ps ≢ [] → join sep ([] ∷ ps) ≡ sep ∷ join sep ps
unfolding join
join-nil sep [] ne = absurd (ne refl)
join-nil sep (p ∷ ps) ne = refl

-- Joining undoes splitting.
pub join-split : (sep : ℕ) (s : Text) → join sep (split sep s) ≡ s
unfolding split
join-split sep [] = unfold join in refl
join-split sep (c ∷ s) = elim (Bool-cases (c == sep)) [
  | inl same ↦
      let e : c ≡ sep = ground arith in
      rw (same, join-nil sep (split sep s) (split-ne-nil sep s), join-split sep s, e) refl
  | inr other ↦
      rw (other, join-extend sep c (split sep s) (split-ne-nil sep s), join-split sep s) refl
]

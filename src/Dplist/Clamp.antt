-- ===== src/Dplist/Clamp.antt =====
-- lib/dplist.c: the index that `dpl_remove_at_index` reworks means the same element.
use osc_final_lab.Common.{
  ◌⊎◌, ltb_of_le, leb_of_lt, ℕ, suc, ◌≤◌, ◌≡◌, refl, ◌∷◌, length, arith, ℤ, pos, negsuc, pos_part,
  inl, inr,
}
use osc_final_lab.Dplist.Spec.{remove_at_last, elem_at_last, remove_at, elem_at}
use osc_final_lab.Dplist.Memory.{Ptr}
use osc_final_lab.Dplist.Chain.{Cells}
use osc_final_lab.Dplist.Locate.{ref_at_last, ref_at}
use osc_final_lab.Dplist.Read.{cap_index-cases}
use osc_final_lab.Dplist.{cap_index, clamp_index}

abbrev pub Clamped : ℕ → ℕ → ℕ → Type 0
Clamped n i j = (j ≤ n) × ((j ≡ i) ⊎ ((j ≡ n) × (n ≤ i)))

cap_at_zero : (n : ℕ) → cap_index (pos (suc n)) (pos 0) ≡ pos 0
unfolding cap_index
cap_at_zero n = rw (leb_of_lt (suc n) 0 (omega arith))

pub clamp_index-Clamped :
    (n : ℕ) (index : ℤ)
    → (j : ℕ) × (clamp_index (pos (suc n)) index ≡ pos j) × Clamped n (pos_part index) j
unfolding clamp_index
clamp_index-Clamped n (negsuc i) = (0, cap_at_zero n, (omega arith, inl refl))
clamp_index-Clamped n (pos i) = elim (cap_index-cases n i) [
  | inl (past, e) ↦ (n, rw (ltb_of_le i 0 (omega arith)) e, (omega arith, inr (refl, past)))
  | inr (inside, e) ↦ (i, rw (ltb_of_le i 0 (omega arith)) e, (inside, inl refl))
]

-- Every clamped index means the same element as the given one.
pub Clamped-same :
    (c : Ptr × Ptr) (cs : Cells) (i j : ℕ)
    → Clamped (length cs) i j
    → (remove_at j (c ∷ cs) ≡ remove_at i (c ∷ cs))
      × (ref_at j (c ∷ cs) ≡ ref_at i (c ∷ cs))
      × (elem_at j (c ∷ cs) ≡ elem_at i (c ∷ cs))
Clamped-same c cs i j (inside, inl same) = rw same (refl, refl, refl)
Clamped-same c cs i j (inside, inr (last, past)) =
    rw last (remove_at_last i c cs past, ref_at_last i c cs past, elem_at_last i c cs past)

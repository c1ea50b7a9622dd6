-- ===== src/Dplist/Read.antt =====
-- lib/dplist.c: the functions that only read: size, reference and element at an index.
use osc_final_lab.Common.{
  leb_of_lt, leb, Bool-cases, ◌⊎◌, inr, inl, pos_part, ℤ, ℕ, zero, suc, ◌+◌, ◌-◌, ◌≤◌, ◌≡◌, refl,
  ap, ◌∙◌, [], ◌∷◌, arith, length, pos, negsuc, ok, ==_of_ne,
}
use osc_final_lab.Dplist.Access.{load_node-ok, load_list-ok}
use osc_final_lab.Dplist.Locate.{ref_at, ref_at_nil, ref_at-zero, ref_at_last}
use osc_final_lab.Dplist.Memory.{Ptr, null, Dplist, Mem}
use osc_final_lab.Dplist.Chain.{first, Cells, Chain, IsList}
use osc_final_lab.Dplist.{
  cap_index, reference_from, dpl_get_reference_at_index, int_max, size_loop, dpl_size, walk,
}

pub cap_index-cases :
    (n i : ℕ)
    → ((n ≤ i) × (cap_index (pos (suc n)) (pos i) ≡ pos n))
      ⊎ ((i ≤ n) × (cap_index (pos (suc n)) (pos i) ≡ pos i))
unfolding cap_index
cap_index-cases n i = elim (Bool-cases (leb (suc n) i)) [
  | inl past ↦ inl (ground arith, ground arith)
  | inr inside ↦ inr (ground arith, ground arith)
]

module _ {S : Type 0} (m : Mem S) where
  size_loop-length :
      (room : ℕ) (before p e : Ptr) (cs : Cells) (count : ℕ)
      → Chain m.nodes before ((p, e) ∷ cs)
      → length cs ≤ room
      → size_loop room p count m ≡ ok (pos (count + length cs)) m
  unfolding size_loop
  size_loop-length zero before p e [] count (ne, out, at, rest) fits =
      rw (load_node-ok m p ne at) (ap (λ n. ok (pos n) m) (omega arith))
  size_loop-length zero before p e (c ∷ cs) count (ne, out, at, rest) fits = absurd (omega arith)
  size_loop-length (suc room) before p e [] count (ne, out, at, rest) fits =
      rw (load_node-ok m p ne at) (ap (λ n. ok (pos n) m) (omega arith))
  size_loop-length (suc room) before p e ((q, f) ∷ cs) count (ne, out, at, rest) fits =
      rw (load_node-ok m p ne at, ==_of_ne q null rest.0)
        (size_loop-length room p q f cs (count + 1) rest (omega arith)
          ∙ ap (λ n. ok (pos n) m) (omega arith))

  -- For a list of at most `int_max` nodes, `dpl_size` ends, changes nothing and returns the
  -- number of its nodes.
  pub dpl_size-length :
      (list : Ptr) {d : Dplist S} {cs : Cells}
      → IsList m list d cs
      → length cs ≤ int_max
      → dpl_size list m ≡ ok (pos (length cs)) m
  unfolding dpl_size
  dpl_size-length list {d} {cs = []} is fits =
      rw (
        ==_of_ne list null is.not_null,
        load_list-ok m list is.not_null is.struct_at,
        is.head_first,
      )
  dpl_size-length list {d} {cs = (p, e) ∷ cs} is fits =
      rw
        (
          ==_of_ne list null is.not_null,
          load_list-ok m list is.not_null is.struct_at,
          is.head_first,
          ==_of_ne p null is.chain.0,
        )
        (size_loop-length (int_max - 1) null p e cs 1 is.chain (omega arith)
          ∙ ap (λ n. ok (pos n) m) (omega arith))

  pub dpl_size-null : dpl_size null m ≡ ok (negsuc 0) m
  unfolding dpl_size
  dpl_size-null = refl

  walk-ref_at :
      (i : ℕ) (before p e : Ptr) (cs : Cells)
      → Chain m.nodes before ((p, e) ∷ cs)
      → i ≤ length cs
      → walk i p m ≡ ok (ref_at i ((p, e) ∷ cs)) m
  unfolding walk ref_at
  walk-ref_at zero before p e [] c fits = refl
  walk-ref_at zero before p e (d ∷ cs) c fits = refl
  walk-ref_at (suc i) before p e [] c fits = absurd (omega arith)
  walk-ref_at (suc i) before p e ((q, f) ∷ cs) (ne, out, at, rest) fits =
      rw (load_node-ok m p ne at) (walk-ref_at i p q f cs rest (omega arith))

  reference_from-ref_at :
      (before : Ptr) (cs : Cells) (index : ℤ)
      → Chain m.nodes before cs
      → reference_from (first cs) (pos (length cs)) index m ≡ ok (ref_at (pos_part index) cs) m
  unfolding reference_from
  reference_from-ref_at before [] index c = ground (arith, ref_at_nil (pos_part index))
  reference_from-ref_at before ((p, e) ∷ cs) (negsuc n) c =
      ground (arith, ref_at-zero ((p, e) ∷ cs))
  reference_from-ref_at before ((p, e) ∷ cs) (pos zero) c =
      ground (arith, ref_at-zero ((p, e) ∷ cs))
  reference_from-ref_at before ((p, e) ∷ cs) (pos (suc i)) c =
      rw (==_of_ne (suc (length cs)) 0 (omega arith), leb_of_lt (suc i) 0 (omega arith))
        (elim (cap_index-cases (length cs) (suc i)) [
          | inl (past, e') ↦ rw e' (
              walk-ref_at (length cs) before p e cs c (omega arith)
              ∙ ap (λ a. ok a m) (ref_at_last (suc i) (p, e) cs past))
          | inr (inside, e') ↦ rw e' (walk-ref_at (suc i) before p e cs c inside)
        ])

  -- For a list of at most `int_max` nodes, `dpl_get_reference_at_index` changes nothing and
  -- returns the address of the node that `ref_at` gives for the index: a negative index counts as
  -- 0, one past the end as the last, and an empty list gives NULL.
  pub dpl_get_reference_at_index-ref_at :
      (list : Ptr) {d : Dplist S} {cs : Cells} (index : ℤ)
      → IsList m list d cs
      → length cs ≤ int_max
      → dpl_get_reference_at_index list index m ≡ ok (ref_at (pos_part index) cs) m
  unfolding dpl_get_reference_at_index
  dpl_get_reference_at_index-ref_at list {cs} index is fits =
      rw
        (
          ==_of_ne list null is.not_null,
          dpl_size-length list is fits,
          load_list-ok m list is.not_null is.struct_at,
          is.head_first,
        )
        (reference_from-ref_at null cs index is.chain)

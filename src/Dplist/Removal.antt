-- ===== src/Dplist/Removal.antt =====
-- lib/dplist.c: what `dpl_remove_at_index` promises.
use osc_final_lab.Common.{
  ℕ, ◌≤◌, ◌≡◌, sym, ◌∙◌, ap, Bool, some, [], ◌∷◌, length, arith, ok, Returns, Returns-mono,
  ==_of_ne, ℤ, pos_part,
}
use mathlib.Core.Path.{subst}
use osc_final_lab.Dplist.Spec.{remove_at, elem_at}
use osc_final_lab.Dplist.Memory.{Ptr, null, Dplist, Mem}
use osc_final_lab.Dplist.Chain.{Cells, first, IsList}
use osc_final_lab.Dplist.Locate.{ref_at}
use osc_final_lab.Dplist.Read.{dpl_size-length}
use osc_final_lab.Dplist.Discard.{Released}
use osc_final_lab.Dplist.{int_max, dpl_remove_at_index}
use osc_final_lab.Dplist.RemoveAt.{Removed, remove_node-Removed}
use osc_final_lab.Dplist.Clamp.{clamp_index-Clamped, Clamped-same}

Removed-at :
    {S : Type 0} (m : Mem S) (list : Ptr) (d : Dplist S) (cs : Cells) (j i : ℕ) {s : S} (g : Mem S)
    → remove_at j cs ≡ remove_at i cs
    → ref_at j cs ≡ ref_at i cs
    → Removed m list d cs j s g
    → Removed m list d cs i s g
Removed-at m list d cs j i g removed ref r = record {
  is_list = subst (λ x. IsList g list (record d { head = first x }) x) removed r.is_list;
  freed = rw ref at r.freed;
  outside = r.outside;
  other_lists = r.other_lists;
  elems = r.elems;
}

module _ {S : Type 0} (m : Mem S) (list : Ptr) (d : Dplist S) (free_element : Bool) where
  -- For a non-empty list of at most `int_max` nodes, and a free callback that succeeds on the
  -- element at the index when it is to be freed, `dpl_remove_at_index` returns the list without a
  -- fault, and afterwards the list's nodes are doubly linked and hold `remove_at` of the old
  -- elements; the node at the index is freed, the element is released, and no other list and no
  -- node outside the list has changed.
  pub dpl_remove_at_index-remove_at :
      (c : Ptr × Ptr) (cs : Cells) (index : ℤ) (element : Ptr) (s : S)
      → IsList m list d (c ∷ cs)
      → length (c ∷ cs) ≤ int_max
      → elem_at (pos_part index) (c ∷ cs) ≡ some (ref_at (pos_part index) (c ∷ cs), element)
      → Released d free_element element m.elems s
      → Returns
          (λ r g. (r ≡ list) × Removed m list d (c ∷ cs) (pos_part index) s g)
          (dpl_remove_at_index list index free_element m)
  unfolding dpl_remove_at_index
  dpl_remove_at_index-remove_at c cs index element s is fits is_element released =
      let (j, clamped, at) = clamp_index-Clamped (length cs) index in
      let (removed, ref, elem) = Clamped-same c cs (pos_part index) j at in
      rw
        (
          ==_of_ne list null is.not_null,
          dpl_size-length m list is fits,
          ==_of_ne (length (c ∷ cs)) 0 (omega arith),
          clamped,
        )
        (Returns-mono
          (remove_node-Removed m list d element free_element s c cs j is fits at.0
            (elem ∙ is_element ∙ ap (λ x. some (x, element)) (sym ref)) released)
          λ r g (same, done).
            (same, Removed-at m list d (c ∷ cs) j (pos_part index) g removed ref done))

  pub dpl_remove_at_index-nil :
      (index : ℤ) → IsList m list d [] → dpl_remove_at_index list index free_element m ≡ ok list m
  unfolding dpl_remove_at_index
  dpl_remove_at_index-nil index is =
      rw (==_of_ne list null is.not_null, dpl_size-length m list is (omega arith))

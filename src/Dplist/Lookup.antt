-- ===== src/Dplist/Lookup.antt =====
-- lib/dplist.c: the functions that look elements up.
use osc_final_lab.Common.{
  pure, if◌then◌else◌, ℕ, ◌+◌, ◌≤◌, ◌≡◌, refl, sym, ap, true, false, some, [], ◌∷◌, length, arith,
  ok, ◌==◌, Bool-cases, ==_of_ne, ℤ, pos, negsuc, pos_part, inl, inr,
}
use osc_final_lab.Dplist.Spec.{elem_at}
use osc_final_lab.Dplist.Memory.{Ptr, null, Dplist, Mem, Callbacks}
use osc_final_lab.Dplist.Chain.{has, has-null, Cells, first, Chain, IsList}
use osc_final_lab.Dplist.Locate.{ref_at, locate}
use osc_final_lab.Dplist.Access.{compare_elements-ok, load_node-ok, load_list-ok}
use osc_final_lab.Dplist.Read.{dpl_size-length, dpl_get_reference_at_index-ref_at}
use osc_final_lab.Dplist.{
  int_max, dpl_get_element_at_index, index_loop, dpl_get_index_of_element, reference_loop,
  dpl_get_element_at_reference,
}

-- The element that goes with an address in a list of cells, NULL if there is none.
pub element_of : Ptr → Cells → Ptr
element_of r [] = null
element_of r ((p, e) ∷ cs) = if p == r then e else element_of r cs

element_of_off : (r : Ptr) (cs : Cells) → has r cs ≡ false → element_of r cs ≡ null
unfolding element_of
element_of_off r [] out = refl
element_of_off r ((p, e) ∷ cs) out = ground (arith, element_of_off r cs)

module _ {S : Type 0} (m : Mem S) where
  -- For a non-empty list of at most `int_max` nodes, `dpl_get_element_at_index` changes nothing
  -- and returns the element that `elem_at` gives for the index: a negative index counts as 0, one
  -- past the end as the last.
  pub dpl_get_element_at_index-elem_at :
      (list : Ptr) (d : Dplist S) (c : Ptr × Ptr) (cs : Cells) (index : ℤ)
      → IsList m list d (c ∷ cs)
      → length (c ∷ cs) ≤ int_max
      → (e : Ptr) × (elem_at (pos_part index) (c ∷ cs) ≡ some (ref_at (pos_part index) (c ∷ cs), e))
        × (dpl_get_element_at_index list index m ≡ ok e m)
  unfolding dpl_get_element_at_index
  dpl_get_element_at_index-elem_at list d c cs index is fits =
      let l =
        locate m.nodes null c cs (pos_part index) is.chain
          (has-null m.nodes null (c ∷ cs) is.chain) in
      (
        l.node.element,
        l.cell,
        rw (
          ==_of_ne list null is.not_null,
          dpl_size-length m list is fits,
          ==_of_ne (length (c ∷ cs)) 0 (omega arith),
          dpl_get_reference_at_index-ref_at m list index is fits,
          load_node-ok m (ref_at (pos_part index) (c ∷ cs)) l.ne_null l.holds,
        ),
      )

  index_loop-none :
      (callbacks : Callbacks S) (before : Ptr) (cs : Cells) (index : ℕ)
      → Chain m.nodes before cs
      → ((x : Ptr) → callbacks.element_compare x x m.elems ≡ some (pos 0))
      → index_loop callbacks (length cs) index (first cs) m ≡ ok (negsuc 0) m
  unfolding index_loop
  index_loop-none callbacks before [] index chain reflexive = refl
  index_loop-none callbacks before ((p, e) ∷ cs) index (ne, out, at, rest) reflexive =
      rw (load_node-ok m p ne at, compare_elements-ok m callbacks e e (reflexive e))
        (index_loop-none callbacks p cs (index + 1) rest reflexive)

  -- For a list of at most `int_max` nodes whose compare callback returns 0 on any element and
  -- itself, `dpl_get_index_of_element` returns -1 whatever element is asked for, also one that is
  -- in the list.
  pub dpl_get_index_of_element-none :
      (list element : Ptr) (d : Dplist S) (cs : Cells)
      → IsList m list d cs
      → length cs ≤ int_max
      → ((x : Ptr) → d.callbacks.element_compare x x m.elems ≡ some (pos 0))
      → dpl_get_index_of_element list element m ≡ ok (negsuc 0) m
  unfolding dpl_get_index_of_element
  dpl_get_index_of_element-none list element d cs is fits reflexive =
      rw
        (
          ==_of_ne list null is.not_null,
          load_list-ok m list is.not_null is.struct_at,
          dpl_size-length m list is fits,
          is.head_first,
        )
        (index_loop-none d.callbacks null cs 0 is.chain reflexive)

  reference_loop-element_of :
      (before reference : Ptr) (cs : Cells)
      → Chain m.nodes before cs
      → reference_loop (length cs) (first cs) reference m ≡ ok (element_of reference cs) m
  unfolding reference_loop element_of
  reference_loop-element_of before reference [] chain = refl
  reference_loop-element_of before reference ((p, e) ∷ cs) (ne, out, at, rest) =
      rw (load_node-ok m p ne at) (elim (Bool-cases (p == reference)) [
        | inl here ↦ rw here
        | inr there ↦ rw there (reference_loop-element_of p reference cs rest)
      ])

  -- For a list of at most `int_max` nodes, `dpl_get_element_at_reference` changes nothing and
  -- returns the element of the node at the reference, and NULL if that node is not in the list or
  -- the reference is NULL.
  pub dpl_get_element_at_reference-element_of :
      (list reference : Ptr) (d : Dplist S) (cs : Cells)
      → IsList m list d cs
      → length cs ≤ int_max
      → dpl_get_element_at_reference list reference m ≡ ok (element_of reference cs) m
  unfolding dpl_get_element_at_reference element_of
  dpl_get_element_at_reference-element_of list reference d cs is fits =
      elim (Bool-cases (reference == null)) [
        | inl absent ↦
            rw (==_of_ne list null is.not_null, absent)
              (ap (λ e. ok e m) (sym (element_of_off reference cs (null_off absent))))
        | inr given ↦
            rw
              (
                ==_of_ne list null is.not_null,
                given,
                dpl_size-length m list is fits,
                load_list-ok m list is.not_null is.struct_at,
                is.head_first,
              )
              (at_reference cs is.chain)
      ]
    where
      null_off : (reference == null) ≡ true → has reference cs ≡ false
      null_off absent =
          let e : reference ≡ null = ground arith in rw e (has-null m.nodes null cs is.chain)

      at_reference :
          (cs : Cells)
          → Chain m.nodes null cs
          → (if length cs == 0 then pure null else reference_loop (length cs) (first cs) reference)
              m
            ≡ ok (element_of reference cs) m
      at_reference [] chain = refl
      at_reference (c ∷ cs) chain =
          rw (==_of_ne (length (c ∷ cs)) 0 (omega arith))
            (reference_loop-element_of null reference (c ∷ cs) chain)

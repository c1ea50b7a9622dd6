-- ===== src/Dplist/RoundTrip.antt =====
-- lib/dplist.c: `dpl_create`, and what is read back after an insertion.
use osc_final_lab.Common.{
  ◌≡◌, ◌≢◌, ◌≤◌, ◌<◌, ◌∙◌, refl, Bool, none, some, [], ◌∷◌, length, arith, ok, ℤ, pos_part, Returns,
  returns, Returns-bind, ◌>>=◌, ==_of_ne,
}
use osc_final_lab.Dplist.Spec.{elem_at, elem_at-insert_at, length-insert_at}
use osc_final_lab.Dplist.Memory.{Ptr, null, Callbacks, Dplist, Mem, store_list, update}
use osc_final_lab.Dplist.Chain.{Cells, IsList}
use osc_final_lab.Dplist.InsertAt.{Copied, dpl_insert_at_index-insert_at}
use osc_final_lab.Dplist.Lookup.{dpl_get_element_at_index-elem_at}
use osc_final_lab.Dplist.{int_max, dpl_create, dpl_insert_at_index, dpl_get_element_at_index}

module _ {S : Type 0} (m : Mem S) where
  pub dpl_create-ok :
      (fresh : Ptr) (callbacks : Callbacks S)
      → fresh ≢ null
      → dpl_create fresh callbacks m
        ≡ ok fresh (record m {
          lists = update m.lists fresh (some (record { head = null; callbacks = callbacks }));
        })
  unfolding dpl_create store_list
  dpl_create-ok fresh callbacks ne = rw (==_of_ne fresh null ne) refl

  -- For a non-NULL address from `malloc`, `dpl_create` returns that address, an empty list with
  -- the given callbacks stands there, and no node and no other list is changed.
  pub dpl_create-nil :
      (fresh : Ptr) (callbacks : Callbacks S)
      → fresh ≢ null
      → Returns
          (λ r g.
            (r ≡ fresh)
            × IsList g fresh (record { head = null; callbacks = callbacks }) []
            × (g.nodes ≡ m.nodes)
            × ((a : Ptr) → a ≢ fresh → g.lists a ≡ m.lists a))
          (dpl_create fresh callbacks m)
  unfolding dpl_create store_list
  dpl_create-nil fresh callbacks ne = rw (==_of_ne fresh null ne) (
      returns (
        refl,
        record { not_null = ne; struct_at = ground arith; head_first = refl; chain = tt },
        refl,
        λ a apart. ground arith,
      ))

  get_element_in :
      (g : Mem S) (list : Ptr) (d : Dplist S) (cs : Cells) (index : ℤ) (p e : Ptr)
      → IsList g list d cs
      → length cs ≤ int_max
      → elem_at (pos_part index) cs ≡ some (p, e)
      → dpl_get_element_at_index list index g ≡ ok e g
  unfolding elem_at
  get_element_in g list d [] index p e is fits at = cc
  get_element_in g list d (c ∷ cs) index p e is fits at =
      let (e', at', got) = dpl_get_element_at_index-elem_at g list d c cs index is fits in got ∙ cc

  -- On a list with fewer than `int_max` nodes, with a free address from `malloc` and a copy
  -- callback that succeeds when a copy is asked for, `dpl_insert_at_index` followed by
  -- `dpl_get_element_at_index` at the same index, whatever that index is, returns the element
  -- that was inserted: the copy, or the pointer itself.
  pub dpl_get_element_at_index-dpl_insert_at_index :
      (fresh list element e : Ptr) (index : ℤ) (s : S) (d : Dplist S) (cs : Cells)
      (insert_copy : Bool)
      → fresh ≢ null
      → m.nodes fresh ≡ none
      → IsList m list d cs
      → length cs < int_max
      → Copied d insert_copy element m.elems e s
      → Returns
          (λ r g. r ≡ e)
          ((do
            list' ← dpl_insert_at_index fresh list element index insert_copy
            dpl_get_element_at_index list' index)
            m)
  dpl_get_element_at_index-dpl_insert_at_index fresh list element e index s d cs insert_copy ne
        unused is fits copied =
      Returns-bind
        (dpl_insert_at_index-insert_at m fresh list element e index s d cs insert_copy ne unused is
          (omega arith) copied)
        (λ r g (same, ins).
          rw
            (
              same,
              get_element_in g list _ _ index fresh e ins.is_list
                  (omega (arith, length-insert_at (pos_part index) (fresh, e) cs))
                  (elem_at-insert_at (pos_part index) (fresh, e) cs),
            )
            (returns refl))

-- ===== src/Dplist/Tests.antt =====
-- lib/dplist.c: runs at concrete inputs.
use osc_final_lab.Common.{
  ◌≡◌, ◌≢◌, ℕ, ◌+◌, refl, true, Option, none, some, [], ◌∷◌, arith, ok, pos, negsuc, Returns, ◌>>=◌,
  ltb, ◌==◌, if◌then◌else◌,
}
use osc_final_lab.Dplist.Spec.{elem_at}
use osc_final_lab.Dplist.Memory.{Ptr, null, Node, Callbacks, Dplist, Mem}
use osc_final_lab.Dplist.Chain.{Cells, IsList, SameOutside, has}
use osc_final_lab.Dplist.Locate.{ref_at}
use osc_final_lab.Dplist.InsertAt.{Inserted, dpl_insert_at_index-insert_at}
use osc_final_lab.Dplist.Removal.{dpl_remove_at_index-remove_at}
use osc_final_lab.Dplist.RemoveAt.{Removed}
use osc_final_lab.Dplist.Free.{dpl_free-freed}
use osc_final_lab.Dplist.Lookup.{dpl_get_index_of_element-none}
use osc_final_lab.Dplist.RoundTrip.{dpl_get_element_at_index-dpl_insert_at_index}
use osc_final_lab.Dplist.{
  dpl_insert_at_index, dpl_remove_at_index, dpl_free, dpl_get_element_at_index,
  dpl_get_index_of_element,
}

-- Elements are numbers that are compared by value. The memory counts how many were released.
abbrev counting : Callbacks ℕ
counting = record {
  element_copy = λ e s. some (e + 1000, s);
  element_free = λ e s. some (null, s + 1);
  element_compare = λ x y s. some (if x == y then pos 0 else if ltb x y then negsuc 0 else pos 1);
}

abbrev two : Dplist ℕ
two = record { head = 10; callbacks = counting }

abbrev two_cells : Cells
two_cells = (10, 101) ∷ (20, 102) ∷ []

-- A list at address 1 with nodes at 10 and 20.
abbrev two_nodes : Ptr → Option Node
two_nodes a =
    if a == 10
    then some (record { prev = null; next = 20; element = 101 })
    else if a == 20
    then some (record { prev = 10; next = null; element = 102 })
    else none

abbrev memory : Mem ℕ
memory = record { nodes = two_nodes; lists = λ a. if a == 1 then some two else none; elems = 0 }

two-IsList : IsList memory 1 two two_cells
two-IsList = record {
  not_null = omega arith;
  struct_at = refl;
  head_first = refl;
  chain = (omega arith, refl, refl, (omega arith, refl, refl, tt));
}

dpl_insert_at_index-insert_at_example :
    Returns
      (λ r g. (r ≡ 1) × Inserted memory 1 two two_cells 1 30 1103 0 g)
      (dpl_insert_at_index 30 1 103 (pos 1) true memory)
dpl_insert_at_index-insert_at_example =
    dpl_insert_at_index-insert_at memory 30 1 103 1103 (pos 1) 0 two two_cells true (omega arith)
      refl two-IsList (omega arith) refl

dpl_get_element_at_index-dpl_insert_at_index_example :
    Returns
      (λ r g. r ≡ 1103)
      ((do
        list' ← dpl_insert_at_index 30 1 103 (pos 5) true
        dpl_get_element_at_index list' (pos 5))
        memory)
dpl_get_element_at_index-dpl_insert_at_index_example =
    dpl_get_element_at_index-dpl_insert_at_index memory 30 1 103 1103 (pos 5) 0 two two_cells true
      (omega arith) refl two-IsList (omega arith) refl

dpl_remove_at_index-remove_at_example :
    Returns
      (λ r g. (r ≡ 1) × Removed memory 1 two two_cells 1 1 g)
      (dpl_remove_at_index 1 (pos 1) true memory)
unfolding ref_at elem_at
dpl_remove_at_index-remove_at_example =
    dpl_remove_at_index-remove_at memory 1 two true (10, 101) ((20, 102) ∷ []) (pos 1) 102 1
      two-IsList (omega arith) refl (null, refl)

dpl_free-freed_example :
    Returns
      (λ r g.
        (r ≡ null)
        × (g.lists 1 ≡ none)
        × ((a : Ptr) → has a two_cells ≡ true → g.nodes a ≡ none)
        × SameOutside two_cells memory.nodes g.nodes
        × ((a : Ptr) → a ≢ 1 → g.lists a ≡ memory.lists a)
        × (g.elems ≡ 2))
      (dpl_free 1 true memory)
dpl_free-freed_example =
    dpl_free-freed 1 true memory two two_cells 2 two-IsList (omega arith)
      (1, (0, refl, (null, refl)), (null, refl))

dpl_get_index_of_element-none_example : dpl_get_index_of_element 1 102 memory ≡ ok (negsuc 0) memory
dpl_get_index_of_element-none_example =
    dpl_get_index_of_element-none memory 1 102 two two_cells two-IsList (omega arith)
      (λ x. ground arith)

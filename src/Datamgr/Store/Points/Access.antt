-- ===== src/Datamgr/Store/Points/Access.antt =====
-- datamgr.c: reads of elements, blocks and lists of readings in memory.
use osc_final_lab.Common.{
  ℕ, ◌≤◌, ◌≡◌, ◌≢◌, refl, sym, ◌∙◌, some, [], ◌∷◌, ◌++◌, length, arith, Run, ok, fault, Cmd,
  Returns, returns, pos, length-append,
}
use osc_final_lab.Config.{SensorData}
use osc_final_lab.Dplist.Spec.{elem_at, elem_at-cons}
use osc_final_lab.Dplist.Memory.{Ptr, null, Dplist, Mem}
use osc_final_lab.Dplist.Chain.{Cells, IsList}
use osc_final_lab.Dplist.Lookup.{dpl_get_element_at_index-elem_at}
use osc_final_lab.Dplist.{int_max, dpl_get_element_at_index}
use osc_final_lab.Datamgr.Store.{MapBlock, DataStore, MapStore}
use osc_final_lab.Datamgr.Store.Freeing.{load-some}
use osc_final_lab.Datamgr.Store.Points.{within, within_result, load_map, load_data}

pub elem_at-middle :
    (pre : Cells) (c : Ptr × Ptr) (post : Cells) → elem_at (length pre) (pre ++ c ∷ post) ≡ some c
unfolding elem_at
elem_at-middle [] c [] = refl
elem_at-middle [] c (k ∷ post) = refl
elem_at-middle (k ∷ pre) c post =
    elem_at-cons (length pre) k (pre ++ c ∷ post) (omega (arith, length-append pre (c ∷ post)))
    ∙ elem_at-middle pre c post

pub element_at :
    {S : Type 0} (m : Mem S) (list : Ptr) (d : Dplist S) (ws : Cells) (i : ℕ) (r e : Ptr)
    → IsList m list d ws
    → length ws ≤ int_max
    → elem_at i ws ≡ some (r, e)
    → dpl_get_element_at_index list (pos i) m ≡ ok e m
unfolding elem_at
element_at m list d [] i r e is fits at = cc
element_at m list d (c ∷ ws) i r e is fits at =
    let (e', cell, run) = dpl_get_element_at_index-elem_at m list d c ws (pos i) is fits in
    let same : e' ≡ e = cc in rw (sym same) run

module _ {V : Type 0} where
  within_result-Returns :
      {A : Type 0} {P : A → Mem (DataStore V) → Type 0} (m : Mem (MapStore V))
      (r : Run (Mem (DataStore V)) A)
      → Returns P r
      → Returns
          (λ a g.
            (h : Mem (DataStore V)) × P a h
            × (g ≡ record m { elems = record m.elems { inner = h } }))
          (within_result m r)
  unfolding within_result
  within_result-Returns m fault r = elim r [ ]
  within_result-Returns m (ok a h) (returns p) = returns (h, p, refl)

  pub within-Returns :
      {A : Type 0} {P : A → Mem (DataStore V) → Type 0} (m : Mem (MapStore V))
      (c : Cmd (Mem (DataStore V)) A)
      → Returns P (c m.elems.inner)
      → Returns
          (λ a g.
            (h : Mem (DataStore V)) × P a h
            × (g ≡ record m { elems = record m.elems { inner = h } }))
          (within c m)
  unfolding within
  within-Returns m c done = within_result-Returns m (c m.elems.inner) done

  pub within-ok :
      {A : Type 0} (m : Mem (MapStore V)) (c : Cmd (Mem (DataStore V)) A) {a : A}
      {g : Mem (DataStore V)}
      → c m.elems.inner ≡ ok a g
      → within c m ≡ ok a (record m { elems = record m.elems { inner = g } })
  unfolding within within_result
  within-ok m c e = rw e refl

  pub load_map-some :
      (m : Mem (MapStore V)) (p : Ptr) {b : MapBlock}
      → p ≢ null
      → m.elems.maps p ≡ some b
      → load_map p m ≡ ok b m
  unfolding load_map
  load_map-some m p ne at = rw (load_map, load-some m.elems.maps p ne at)

  pub load_data-some :
      (m : Mem (MapStore V)) (p : Ptr) {x : SensorData V}
      → p ≢ null
      → m.elems.inner.elems p ≡ some x
      → load_data p m ≡ ok x m
  unfolding load_data
  load_data-some m p ne at = rw (load_data, load-some m.elems.inner.elems p ne at)

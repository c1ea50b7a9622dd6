-- ===== src/Dplist/Discard.antt =====
-- lib/dplist.c: the end of `dpl_remove_at_index`: the head pointer, the element and the node.
use osc_final_lab.Common.{
  ◌≡◌, ◌≢◌, refl, ◌∙◌, Bool, true, false, none, some, arith, if◌then◌else◌, Bool-cases, inl, inr,
  Returns, returns, Returns-mono, ℤ, pos, eqb_ℤ,
}
use osc_final_lab.Dplist.Memory.{Ptr, null, Node, Dplist, Mem, update}
use osc_final_lab.Dplist.Access.{set_head-ok, load_list-ok, free_node-ok, free_element_at-ok}
use osc_final_lab.Dplist.{release_node, discard_node}

-- What the callback does to the memory of the elements, if it is called.
abbrev pub Released : {S : Type 0} → Dplist S → Bool → Ptr → S → S → Type 0
Released d true element s s' = (left : Ptr) × (d.callbacks.element_free element s ≡ some (left, s'))
Released d false element s s' = s' ≡ s

Released-head :
    {S : Type 0} (d : Dplist S) (p : Ptr) (free_element : Bool) (element : Ptr) (s s' : S)
    → Released d free_element element s s'
    → Released (record d { head = p }) free_element element s s'
Released-head d p true element s s' done = done
Released-head d p false element s s' done = done

-- The node `gone` is freed, the struct at `list` is `d`.
pub record Discarded {S : Type 0} (list gone : Ptr) (d : Dplist S) (s : S) (m g : Mem S)
    : Type 0 where
  pub freed : g.nodes gone ≡ none
  pub other_nodes : (a : Ptr) → a ≢ gone → g.nodes a ≡ m.nodes a
  pub struct_at : g.lists list ≡ some d
  pub other_lists : (a : Ptr) → a ≢ list → g.lists a ≡ m.lists a
  pub elems : g.elems ≡ s

module _ {S : Type 0} (list gone : Ptr) (list_ne : list ≢ null) (gone_ne : gone ≢ null) (n : Node)
    (s : S) where
  release_node-Discarded :
      (m : Mem S) (d : Dplist S) (free_element : Bool)
      → m.lists list ≡ some d
      → m.nodes gone ≡ some n
      → Released d free_element n.element m.elems s
      → Returns
          (λ r g. (r ≡ list) × Discarded list gone d s m g)
          (release_node list free_element gone m)
  unfolding release_node
  release_node-Discarded m d true struct_at at (left, done) =
      let m1 : Mem S = record m {
        nodes = update m.nodes gone (some (record n { element = left }));
        elems = s;
      } in
      rw
        (
          load_list-ok m list list_ne struct_at,
          free_element_at-ok m d.callbacks gone gone_ne at done,
          free_node-ok m1 gone {n = record n { element = left }} gone_ne (ground arith),
        )
        (returns (
          refl,
          record {
            freed = ground arith;
            other_nodes = λ a x. ground arith;
            struct_at = struct_at;
            other_lists = λ a x. refl;
            elems = refl;
          },
        ))
  release_node-Discarded m d false struct_at at done =
      rw (load_list-ok m list list_ne struct_at, free_node-ok m gone gone_ne at)
        (returns (
          refl,
          record {
            freed = ground arith;
            other_nodes = λ a x. ground arith;
            struct_at = struct_at;
            other_lists = λ a x. refl;
            elems = ground arith;
          },
        ))

  pub discard_node-Discarded :
      (m : Mem S) (d : Dplist S) (index : ℤ) (free_element : Bool)
      → m.lists list ≡ some d
      → m.nodes gone ≡ some n
      → Released d free_element n.element m.elems s
      → Returns
          (λ r g.
            (r ≡ list)
            × Discarded list gone
                (record d { head = if eqb_ℤ index (pos 0) then n.next else d.head })
                s
                m
                g)
          (discard_node list index free_element gone n m)
  unfolding discard_node
  discard_node-Discarded m d index free_element struct_at at done =
      elim (Bool-cases (eqb_ℤ index (pos 0))) [
        | inl front ↦
            let d1 : Dplist S = record d { head = n.next } in
            let m1 : Mem S = record m { lists = update m.lists list (some d1) } in
            rw (front, set_head-ok m list n.next {d = d} list_ne struct_at)
              (Returns-mono
                (release_node-Discarded m1 d1 free_element (ground arith) at
                  (Released-head d n.next free_element n.element m.elems s done))
                λ r g (same, e). (
                  same,
                  record {
                    freed = e.freed;
                    other_nodes = e.other_nodes;
                    struct_at = e.struct_at;
                    other_lists = λ a x. e.other_lists a x ∙ ground arith;
                    elems = e.elems;
                  },
                ))
        | inr inside ↦ rw inside (release_node-Discarded m d free_element struct_at at done)
      ]

-- ===== src/Dplist/InsertAt.antt =====
-- lib/dplist.c: what `dpl_insert_at_index` promises.
use osc_final_lab.Common.{
  sym, if◌then◌else◌, ℕ, ◌≤◌, ◌≡◌, ◌≢◌, refl, ◌∙◌, Bool, true, false, none, some, ◌∷◌, length,
  arith, ok, Returns, returns, Returns-bind, Returns-mono, ==_of_ne, ℤ, pos_part, pure,
}
use osc_final_lab.Dplist.Spec.{insert_at}
use osc_final_lab.Dplist.Memory.{Ptr, null, Dplist, Mem, update, copy_element}
use osc_final_lab.Dplist.Chain.{
  Cells, first, IsList, SameOutside, Chain-update, has-eq-false_of_none,
}
use osc_final_lab.Dplist.Access.{load_list-ok, store_node-ok, copy_element-ok}
use osc_final_lab.Dplist.Insertion.{link_node-insert_at}
use osc_final_lab.Dplist.{int_max, link_node, dpl_insert_at_index}

-- The element that the new node gets: a copy by the callback, or the given pointer itself.
abbrev pub Copied : {S : Type 0} → Dplist S → Bool → Ptr → S → Ptr → S → Type 0
Copied d true element s e s' = d.callbacks.element_copy element s ≡ some (e, s')
Copied d false element s e s' = (e ≡ element) × (s' ≡ s)

pub record Inserted {S : Type 0} (m : Mem S) (list : Ptr) (d : Dplist S) (cs : Cells)
    (i fresh e : ℕ) (s : S) (g : Mem S) : Type 0 where
  pub is_list :
      IsList g list
        (record d { head = first (insert_at i (fresh, e) cs) })
        (insert_at i (fresh, e) cs)
  pub outside : SameOutside ((fresh, e) ∷ cs) m.nodes g.nodes
  pub other_lists : (a : Ptr) → a ≢ list → g.lists a ≡ m.lists a
  pub elems : g.elems ≡ s

module _ {S : Type 0} (m : Mem S) (fresh list element e : Ptr) (index : ℤ) (s : S) where
  place :
      (d : Dplist S) (cs : Cells)
      → fresh ≢ null
      → m.nodes fresh ≡ none
      → IsList m list d cs
      → length cs ≤ int_max
      → Returns
          (λ _ g. Inserted m list d cs (pos_part index) fresh e s g)
          (link_node list fresh d.head index (record m {
            nodes = update m.nodes fresh (some (record { prev = null; next = null; element = e }));
            elems = s;
          }))
  place d cs ne unused is fits =
      let out = has-eq-false_of_none m.nodes null fresh cs unused is.chain in
      let m1 : Mem S = record m {
        nodes = update m.nodes fresh (some (record { prev = null; next = null; element = e }));
        elems = s;
      } in
      let is1 : IsList m1 list d cs = record {
        not_null = is.not_null;
        struct_at = is.struct_at;
        head_first = is.head_first;
        chain = Chain-update m.nodes null fresh _ cs out is.chain;
      } in
      rw is.head_first (
        Returns-mono (link_node-insert_at m1 fresh e ne (ground arith) list d index cs is1 fits out)
          λ _ g (linked, same). record {
            is_list = record {
              not_null = is.not_null;
              struct_at = linked.struct_at;
              head_first = refl;
              chain = linked.chain;
            };
            outside = λ a o. same a o ∙ ground arith;
            other_lists = linked.other_lists;
            elems = linked.elems;
          })

  new_element :
      (d : Dplist S) (insert_copy : Bool)
      → Copied d insert_copy element m.elems e s
      → (if insert_copy then copy_element d.callbacks element else pure element) m
        ≡ ok e (record m { elems = s })
  new_element d true copied = copy_element-ok m d.callbacks element copied
  new_element d false copied = λ i. ok (sym copied.0 i) (record m { elems = sym copied.1 i })

  -- For a list of at most `int_max` nodes in the heap, a free address from `malloc` and a copy
  -- callback that succeeds when a copy is asked for, `dpl_insert_at_index` returns the list
  -- without a fault, and afterwards the list's nodes are doubly linked and hold `insert_at` of
  -- the old elements at the index (a negative one counting as 0); no other node and no other list
  -- has changed.
  pub dpl_insert_at_index-insert_at :
      (d : Dplist S) (cs : Cells) (insert_copy : Bool)
      → fresh ≢ null
      → m.nodes fresh ≡ none
      → IsList m list d cs
      → length cs ≤ int_max
      → Copied d insert_copy element m.elems e s
      → Returns
          (λ r g. (r ≡ list) × Inserted m list d cs (pos_part index) fresh e s g)
          (dpl_insert_at_index fresh list element index insert_copy m)
  unfolding dpl_insert_at_index
  dpl_insert_at_index-insert_at d cs insert_copy ne unused is fits copied =
      let m1 : Mem S = record m { elems = s } in
      rw
        (
          ==_of_ne list null is.not_null,
          load_list-ok m list is.not_null is.struct_at,
          new_element d insert_copy copied,
          store_node-ok m1 fresh (record { prev = null; next = null; element = e }) ne,
        )
        (Returns-bind (place d cs ne unused is fits) λ u g done. returns (refl, done))

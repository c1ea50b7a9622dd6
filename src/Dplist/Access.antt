-- ===== src/Dplist/Access.antt =====
-- lib/dplist.c: what a read or a write does at an address that holds something.
use osc_final_lab.Common.{ℤ, none, ◌≡◌, ◌≢◌, some, ok, ==_of_ne}
use osc_final_lab.Dplist.Memory.{
  Ptr, null, Node, Callbacks, Dplist, Mem, update, load_node, load_list, store_node, store_list,
  set_next, set_prev, set_head, free_node, free_list, free_element_at, copy_element,
  compare_elements,
}

module _ {S : Type 0} (m : Mem S) where
  pub load_node-ok : (p : Ptr) {n : Node} → p ≢ null → m.nodes p ≡ some n → load_node p m ≡ ok n m
  unfolding load_node
  load_node-ok p ne at = rw (at, ==_of_ne p null ne)

  pub load_list-ok :
      (list : Ptr) {d : Dplist S} → list ≢ null → m.lists list ≡ some d → load_list list m ≡ ok d m
  unfolding load_list
  load_list-ok p ne at = rw (at, ==_of_ne p null ne)

  pub store_node-ok :
      (p : Ptr) (n : Node)
      → p ≢ null
      → store_node p n m ≡ ok tt (record m { nodes = update m.nodes p (some n) })
  unfolding store_node
  store_node-ok p n ne = rw (==_of_ne p null ne)

  pub set_next-ok :
      (p q : Ptr) {n : Node}
      → p ≢ null
      → m.nodes p ≡ some n
      → set_next p q m
        ≡ ok tt (record m { nodes = update m.nodes p (some (record n { next = q })) })
  unfolding set_next store_node
  set_next-ok p q ne at = rw (load_node-ok p ne at, ==_of_ne p null ne)

  pub set_prev-ok :
      (p q : Ptr) {n : Node}
      → p ≢ null
      → m.nodes p ≡ some n
      → set_prev p q m
        ≡ ok tt (record m { nodes = update m.nodes p (some (record n { prev = q })) })
  unfolding set_prev store_node
  set_prev-ok p q ne at = rw (load_node-ok p ne at, ==_of_ne p null ne)

  pub set_head-ok :
      (p q : Ptr) {d : Dplist S}
      → p ≢ null
      → m.lists p ≡ some d
      → set_head p q m
        ≡ ok tt (record m { lists = update m.lists p (some (record d { head = q })) })
  unfolding set_head store_list
  set_head-ok p q ne at = rw (load_list-ok p ne at, ==_of_ne p null ne)

  pub free_node-ok :
      (p : Ptr) {n : Node}
      → p ≢ null
      → m.nodes p ≡ some n
      → free_node p m ≡ ok tt (record m { nodes = update m.nodes p none })
  unfolding free_node
  free_node-ok p ne at = rw (load_node-ok p ne at)

  pub free_list-ok :
      (p : Ptr) {d : Dplist S}
      → p ≢ null
      → m.lists p ≡ some d
      → free_list p m ≡ ok tt (record m { lists = update m.lists p none })
  unfolding free_list
  free_list-ok p ne at = rw (load_list-ok p ne at)

  pub copy_element-ok :
      (c : Callbacks S) (e : Ptr) {e' : Ptr} {s : S}
      → c.element_copy e m.elems ≡ some (e', s)
      → copy_element c e m ≡ ok e' (record m { elems = s })
  unfolding copy_element
  copy_element-ok c e done = rw done

  pub free_element_at-ok :
      (c : Callbacks S) (p : Ptr) {n : Node} {left : Ptr} {s : S}
      → p ≢ null
      → m.nodes p ≡ some n
      → c.element_free n.element m.elems ≡ some (left, s)
      → free_element_at c p m
        ≡ ok tt
            (record m { nodes = update m.nodes p (some (record n { element = left })); elems = s })
  unfolding free_element_at store_node
  free_element_at-ok c p ne at done = rw (load_node-ok p ne at, done, ==_of_ne p null ne)

  pub compare_elements-ok :
      (c : Callbacks S) (x y : Ptr) {r : ℤ}
      → c.element_compare x y m.elems ≡ some r
      → compare_elements c x y m ≡ ok r m
  unfolding compare_elements
  compare_elements-ok c x y done = rw (done, compare_elements)

-- ===== src/Dplist/Memory.antt =====
-- lib/dplist.c: the two structs, the memory they live in, and its reads and writes. A read or a
-- write through NULL or through an address that holds nothing faults.
use osc_final_lab.Common.{
  ℕ, Option, none, some, ◌==◌, if◌then◌else◌, ℤ, ok, fault, Cmd, ◌>>=◌, ◌>>◌,
}

abbrev pub Ptr : Type 0
Ptr = ℕ

abbrev pub null : Ptr
null = 0

-- `struct dplist_node`
pub record Node : Type 0 where
  pub prev : Ptr
  pub next : Ptr
  pub element : Ptr

-- The three callbacks of `struct dplist`, over the memory `S` of the elements; `none` is a fault.
-- `element_free` gets the element and also says what it leaves in the pointer to it.
pub record Callbacks (S : Type 0) : Type 0 where
  pub element_copy : Ptr → S → Option (Ptr × S)
  pub element_free : Ptr → S → Option (Ptr × S)
  pub element_compare : Ptr → Ptr → S → Option ℤ

-- `struct dplist`
pub record Dplist (S : Type 0) : Type 0 where
  pub head : Ptr
  pub callbacks : Callbacks S

pub record Mem (S : Type 0) : Type 0 where
  pub nodes : Ptr → Option Node
  pub lists : Ptr → Option (Dplist S)
  pub elems : S

abbrev pub update {ℓ} : {A : Type ℓ} → (Ptr → A) → Ptr → A → Ptr → A
update h p c a = if a == p then c else h a

module _ {S : Type 0} where
  -- what stands at `p`, given the contents of that address
  at : {A : Type 0} → Ptr → Option A → Cmd (Mem S) A
  at p none m = fault
  at p (some x) m = if p == null then fault else ok x m

  unfoldable pub load_node : Ptr → Cmd (Mem S) Node
  unfolding at
  load_node p m = at p (m.nodes p) m

  unfoldable pub load_list : Ptr → Cmd (Mem S) (Dplist S)
  unfolding at
  load_list p m = at p (m.lists p) m

  -- `malloc` at the address `p` and the first writes to it; NULL is not checked by the code
  unfoldable pub store_node : Ptr → Node → Cmd (Mem S) (Unit {0})
  store_node p n m =
      if p == null then fault else ok tt (record m { nodes = update m.nodes p (some n) })

  unfoldable pub store_list : Ptr → Dplist S → Cmd (Mem S) (Unit {0})
  store_list p l m =
      if p == null then fault else ok tt (record m { lists = update m.lists p (some l) })

  -- `p->next = q`, `p->prev = q`, `p->head = q`
  unfoldable pub set_next : Ptr → Ptr → Cmd (Mem S) (Unit {0})
  set_next p q = do n ← load_node p; store_node p (record n { next = q })

  unfoldable pub set_prev : Ptr → Ptr → Cmd (Mem S) (Unit {0})
  set_prev p q = do n ← load_node p; store_node p (record n { prev = q })

  unfoldable pub set_head : Ptr → Ptr → Cmd (Mem S) (Unit {0})
  set_head p q = do l ← load_list p; store_list p (record l { head = q })

  -- `free`; of NULL and of what is not allocated it faults, which no caller here does
  unfoldable pub free_node : Ptr → Cmd (Mem S) (Unit {0})
  free_node p = do load_node p; λ m. ok tt (record m { nodes = update m.nodes p none })

  unfoldable pub free_list : Ptr → Cmd (Mem S) (Unit {0})
  free_list p = do load_list p; λ m. ok tt (record m { lists = update m.lists p none })

  -- a callback's result, with the new memory of the elements
  lift : {A : Type 0} → Option (A × S) → Cmd (Mem S) A
  lift none m = fault
  lift (some (a, s)) m = ok a (record m { elems = s })

  unfoldable pub copy_element : Callbacks S → Ptr → Cmd (Mem S) Ptr
  unfolding lift
  copy_element c e m = lift (c.element_copy e m.elems) m

  -- `list->element_free(&p->element)`
  unfoldable pub free_element_at : Callbacks S → Ptr → Cmd (Mem S) (Unit {0})
  unfolding lift
  free_element_at c p = do
    n ← load_node p
    e ← (λ m. lift (c.element_free n.element m.elems) m)
    store_node p (record n { element = e })

  unfoldable pub compare_elements : Callbacks S → Ptr → Ptr → Cmd (Mem S) ℤ
  compare_elements c x y m = elim (c.element_compare x y m.elems) [ none ↦ fault | some r ↦ ok r m ]

-- ===== src/Dplist.antt =====
-- lib/dplist.c: a doubly linked list on an explicit heap, function by function. A `void *` element
-- is an address whose contents live in the part `elems` of the memory, which only the callbacks
-- read and write. `fresh` is the address that `malloc` returns.
pub mod Memory
pub mod Chain
pub mod Spec
pub mod Locate
pub mod Relink
pub mod Unlink
pub mod Access
pub mod Insert
pub mod Insertion
pub mod InsertAt
pub mod Remove
pub mod Discard
pub mod RemoveAt
pub mod Clamp
pub mod Removal
pub mod Lookup
pub mod Free
pub mod Read
pub mod RoundTrip
mod Tests
use osc_final_lab.Common.{
  ℕ, zero, suc, ◌-◌, ◌+◌, Bool, true, false, Option, none, some, ◌==◌, leb, if◌then◌else◌, ℤ, pos,
  negsuc, ltb_ℤ, leb_ℤ, eqb_ℤ, pred_ℤ, pos_part, Cmd, pure, stop, ◌>>=◌, ◌>>◌,
}
use osc_final_lab.Dplist.Memory.{
  Ptr, null, Node, Callbacks, Dplist, Mem, load_node, store_node, set_next, set_prev, free_node,
  load_list, store_list, set_head, free_list, copy_element, free_element_at, compare_elements,
}

-- The largest `int`. `count++` past it is undefined behaviour, here a fault.
abbrev pub int_max : ℕ
int_max = 2147483647

-- An `index` past the end becomes the last one.
pub cap_index : (size index : ℤ) → ℤ
cap_index size index = if leb_ℤ size index then pred_ℤ size else index

-- The index that `dpl_remove_at_index` reworks into the range.
pub clamp_index : (size index : ℤ) → ℤ
clamp_index size index = cap_index size (if ltb_ℤ index (pos 0) then pos 0 else index)

module _ {S : Type 0} where
  -- `dpl_create`
  pub dpl_create : (fresh : Ptr) → Callbacks S → Cmd (Mem S) Ptr
  dpl_create fresh callbacks = do
    store_list fresh (record { head = null; callbacks = callbacks })
    pure fresh

  -- The `while` of `dpl_size`: `room` is how often `count` can still be incremented.
  size_loop : (room : ℕ) → Ptr → ℕ → Cmd (Mem S) ℤ
  size_loop zero current count = do
    n ← load_node current
    if n.next == null then pure (pos count) else stop
  size_loop (suc room) current count = do
    n ← load_node current
    if n.next == null then pure (pos count) else size_loop room n.next (count + 1)

  -- `dpl_size`
  pub dpl_size : Ptr → Cmd (Mem S) ℤ
  dpl_size list = if list == null then pure (negsuc 0) else do
    l ← load_list list
    if l.head == null then pure (pos 0) else size_loop (int_max - 1) l.head 1

  -- The `for` of `dpl_get_reference_at_index`: `rounds` steps along `next`.
  walk : (rounds : ℕ) → Ptr → Cmd (Mem S) Ptr
  walk zero p = pure p
  walk (suc rounds) p = do n ← load_node p; walk rounds n.next

  -- `dpl_get_reference_at_index` from the test for an empty list on
  reference_from : (head : Ptr) → (size index : ℤ) → Cmd (Mem S) Ptr
  reference_from head size index =
      if eqb_ℤ size (pos 0)
      then pure null
      else if leb_ℤ index (pos 0)
      then pure head
      else walk (pos_part (cap_index size index)) head

  -- `dpl_get_reference_at_index`
  pub dpl_get_reference_at_index : Ptr → ℤ → Cmd (Mem S) Ptr
  dpl_get_reference_at_index list index =
      if list == null
      then pure null
      else do size ← dpl_size list; l ← load_list list; reference_from l.head size index

  -- `dpl_get_element_at_index`
  pub dpl_get_element_at_index : Ptr → ℤ → Cmd (Mem S) Ptr
  dpl_get_element_at_index list index = if list == null then pure null else do
    size ← dpl_size list
    if eqb_ℤ size (pos 0)
        then pure null
        else do p ← dpl_get_reference_at_index list index; n ← load_node p; pure n.element

  -- The last branch of `dpl_insert_at_index`, cases 3 and 4.
  pub insert_inside : Ptr → (list_node : Ptr) → ℤ → Cmd (Mem S) (Unit {0})
  insert_inside list list_node index = do
    ref ← dpl_get_reference_at_index list index
    if ref == null then stop else do
      size ← dpl_size list
      r ← load_node ref
      if ltb_ℤ index size
          then (do
            set_prev list_node r.prev
            set_next list_node ref
            set_next r.prev list_node
            set_prev ref list_node)
          else if r.next == null
          then (do set_next list_node null; set_prev list_node ref; set_next ref list_node)
          else stop

  -- The cases of `dpl_insert_at_index` that link the new node in.
  pub link_node : Ptr → (list_node : Ptr) → (head : Ptr) → ℤ → Cmd (Mem S) (Unit {0})
  link_node list list_node head index =
      if head == null
      then (do set_prev list_node null; set_next list_node null; set_head list list_node)
      else if leb_ℤ index (pos 0)
      then (do
        set_prev list_node null
        set_next list_node head
        set_prev head list_node
        set_head list list_node)
      else insert_inside list list_node index

  -- `dpl_insert_at_index`; the memory that `malloc` returns is taken to be zeroed, and every case
  -- sets both pointers before anything reads them
  pub dpl_insert_at_index : (fresh : Ptr) → Ptr → (element : Ptr) → ℤ → Bool → Cmd (Mem S) Ptr
  dpl_insert_at_index fresh list element index insert_copy = if list == null then pure null else do
    l ← load_list list
    e ← (if insert_copy then copy_element l.callbacks element else pure element)
    store_node fresh (record { prev = null; next = null; element = e })
    link_node list fresh l.head index
    pure list

  -- The two writes of `dpl_remove_at_index` to the neighbours of the node `n`.
  pub fix_neighbours : Node → Cmd (Mem S) (Unit {0})
  fix_neighbours n = do
    (if n.prev == null then pure tt else set_next n.prev n.next)
    (if n.next == null then pure tt else set_prev n.next n.prev)

  -- The end of `dpl_remove_at_index`: the removed node's element and the node itself.
  pub release_node : Ptr → Bool → Ptr → Cmd (Mem S) Ptr
  release_node list free_element to_remove = do
    l ← load_list list
    (if free_element then free_element_at l.callbacks to_remove else pure tt)
    free_node to_remove
    pure list

  -- `if(index == 0)` and what follows it in `dpl_remove_at_index`
  pub discard_node : Ptr → ℤ → Bool → Ptr → Node → Cmd (Mem S) Ptr
  discard_node list index free_element to_remove n = do
    (if eqb_ℤ index (pos 0) then set_head list n.next else pure tt)
    release_node list free_element to_remove

  -- `dpl_remove_at_index` from the lookup of the node on, with the reworked index
  pub remove_node : Ptr → ℤ → Bool → Cmd (Mem S) Ptr
  remove_node list index free_element = do
    to_remove ← dpl_get_reference_at_index list index
    n ← load_node to_remove
    fix_neighbours n
    discard_node list index free_element to_remove n

  -- `dpl_remove_at_index`
  pub dpl_remove_at_index : Ptr → ℤ → Bool → Cmd (Mem S) Ptr
  dpl_remove_at_index list index free_element = if list == null then pure null else do
    size ← dpl_size list
    if eqb_ℤ size (pos 0) then pure list else remove_node list (clamp_index size index) free_element

  -- The `for` of `dpl_free`, from `index = rounds - 1` down to 0.
  free_loop : (rounds : ℕ) → Ptr → Bool → Cmd (Mem S) Ptr
  free_loop zero list free_element = pure list
  free_loop (suc rounds) list free_element = do
    list' ← dpl_remove_at_index list (pos rounds) free_element
    free_loop rounds list' free_element

  -- `dpl_free`; the result is the value that `*list` is left with
  pub dpl_free : Ptr → Bool → Cmd (Mem S) Ptr
  unfolding free_loop
  dpl_free list free_element = if list == null then pure null else do
    size ← dpl_size list
    if eqb_ℤ size (pos 0)
        then (do free_list list; pure null)
        else do list' ← free_loop (pos_part size) list free_element; free_list list'; pure null

  -- The `for` of `dpl_get_index_of_element`, from `index` on with `rounds` rounds left.
  index_loop : Callbacks S → (rounds : ℕ) → (index : ℕ) → Ptr → Cmd (Mem S) ℤ
  index_loop callbacks zero index current = pure (negsuc 0)
  index_loop callbacks (suc rounds) index current = do
    n ← load_node current
    c ← compare_elements callbacks n.element n.element
    if eqb_ℤ c (pos 0) then index_loop callbacks rounds (index + 1) n.next else pure (pos index)

  -- `dpl_get_index_of_element`: the loop compares each element with itself, not with `element`
  pub dpl_get_index_of_element : Ptr → (element : Ptr) → Cmd (Mem S) ℤ
  unfolding index_loop
  dpl_get_index_of_element list element = if list == null then pure (negsuc 0) else do
    l ← load_list list
    size ← dpl_size list
    index_loop l.callbacks (pos_part size) 0 l.head

  -- The `for` of `dpl_get_element_at_reference`, with `rounds` rounds left.
  reference_loop : (rounds : ℕ) → Ptr → (reference : Ptr) → Cmd (Mem S) Ptr
  reference_loop zero current reference = pure null
  reference_loop (suc rounds) current reference = do
    n ← load_node current
    if current == reference then pure n.element else reference_loop rounds n.next reference

  -- `dpl_get_element_at_reference`
  pub dpl_get_element_at_reference : Ptr → (reference : Ptr) → Cmd (Mem S) Ptr
  unfolding reference_loop
  dpl_get_element_at_reference list reference =
      if list == null then pure null else if reference == null then pure null else do
        size ← dpl_size list
        l ← load_list list
        if eqb_ℤ size (pos 0) then pure null else reference_loop (pos_part size) l.head reference

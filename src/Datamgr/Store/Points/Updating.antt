-- ===== src/Datamgr/Store/Points/Updating.antt =====
-- datamgr.c: what `update_readings` does to a sensor's list of readings and to the rest of memory.
use osc_final_lab.Common.{
  ◌≤◌, Option, Bool, ◌≡◌, ◌≢◌, ◌⊎◌, refl, sym, ap, ◌∙◌, true, false, ◌||◌, none, some, List, [],
  ◌∷◌, ◌++◌, length, ◌==◌, arith, Bool-cases, inl, inr, Returns, Returns-bind, Returns-mono, pos,
  ==_of_ne,
}
use mathlib.Core.Path.{subst}
use osc_final_lab.Config.{SensorData, run_avg_length}
use osc_final_lab.Dplist.Spec.{insert_at, insert_at-append}
use osc_final_lab.Dplist.Memory.{Ptr, null, Node, Mem, update}
use osc_final_lab.Dplist.Chain.{Cells, first, has, IsList, has-eq-false_of_none}
use osc_final_lab.Dplist.InsertAt.{Inserted, dpl_insert_at_index-insert_at}
use osc_final_lab.Dplist.Free.{true_ne_false}
use osc_final_lab.Datamgr.{insert_reading}
use osc_final_lab.Datamgr.Store.{DataStore, Machine, data_callbacks, sensor_data_copy}
use osc_final_lab.Datamgr.Store.Owned.{holds}
use osc_final_lab.Datamgr.Store.Freeing.{load-some}
use osc_final_lab.Datamgr.Store.Contents.{
  Kept, length-Contents, holds-append, has-append, Allocated-append, Contents-append,
}
use osc_final_lab.Datamgr.Store.Points.{update_readings}
use osc_final_lab.Datamgr.Store.Points.Evicting.{Fresh, Mallocs, Evicted, make_room-Evicted}

-- The list at `list` holds the readings `ys`, in blocks that were its own or free; what else was
-- allocated is as it was. If nothing else was allocated, then so it is still.
pub record Updated {V : Type 0} (machine : Machine V) (m : Mem (DataStore V)) (list : Ptr)
    (cs : Cells) (ys : List (SensorData V)) (g : Mem (DataStore V)) : Type 0 where
  pub cells : Cells
  pub kept : Kept machine g list cells ys
  pub lists : (a : Ptr) → a ≢ list → g.lists a ≡ m.lists a
  pub nodes : (a : Ptr) → has a cs ≡ false → m.nodes a ≢ none → g.nodes a ≡ m.nodes a
  pub data_blocks : (a : Ptr) → holds a cs ≡ false → m.elems a ≢ none → g.elems a ≡ m.elems a
  pub only_nodes : (a : Ptr) → has a cells ≡ true → (has a cs ≡ true) ⊎ (m.nodes a ≡ none)
  pub only_data : (a : Ptr) → holds a cells ≡ true → (holds a cs ≡ true) ⊎ (m.elems a ≡ none)
  pub tight_nodes :
      (a : Ptr) → (has a cs ≡ false → m.nodes a ≡ none) → has a cells ≡ false → g.nodes a ≡ none
  pub tight_data :
      (a : Ptr) → (holds a cs ≡ false → m.elems a ≡ none) → holds a cells ≡ false → g.elems a ≡ none

sensor_data_copy-some :
    {V : Type 0} (h : DataStore V) (fresh e : Ptr) {x : SensorData V}
    → e ≢ null
    → h e ≡ some x
    → fresh ≢ null
    → sensor_data_copy fresh e h ≡ some (fresh, update h fresh (some x))
unfolding sensor_data_copy
sensor_data_copy-some h fresh e ne at fresh_ne =
    rw (sensor_data_copy, load-some h e ne at, ==_of_ne fresh null fresh_ne)

off_new :
    (h : Ptr → Option Node) (a fresh q : Ptr) (cs : Cells)
    → h a ≢ none
    → h fresh ≡ none
    → has a cs ≡ false
    → has a ((fresh, q) ∷ cs) ≡ false
off_new h a fresh q cs at unused off = ground arith

pub both_false : (b c : Bool) → (b || c) ≡ false → (b ≡ false) × (c ≡ false)
both_false true c off = absurd (true_ne_false off)
both_false false c off = (refl, off)

pub off_either :
    (a fresh q : Ptr) (cs : Cells)
    → (has a cs || (a == fresh)) ≡ false
    → has a ((fresh, q) ∷ cs) ≡ false
off_either a fresh q cs off = ground arith

update-off :
    {A : Type 0} (h : Ptr → Option A) (a q : Ptr) (x : A) (b : Bool)
    → (b || (a == q)) ≡ false
    → h a ≡ none
    → update h q (some x) a ≡ none
update-off h a q x b off unused = ground arith

update-other :
    {A : Type 0} (h : Ptr → Option A) (a q : Ptr) (x : A)
    → h a ≢ none
    → h q ≡ none
    → update h q (some x) a ≡ h a
update-other h a q x at unused = ground arith

-- What is on a chain with one more cell and not on the chain is the new cell.
is_last : {b : Bool} {a p : Ptr} → (b || (a == p)) ≡ true → b ≡ false → a ≡ p
is_last {b} {a} {p} on off = ground arith

none_at :
    {A : Type 0} (h : Ptr → Option A) (a q : Ptr) {b c : Bool}
    → (b ≡ true → c ≡ true)
    → c ≡ false
    → (b || (a == q)) ≡ true
    → h q ≡ none
    → h a ≡ none
none_at h a q {b} on off now unused = ground arith

module _ {V : Type 0} (machine : Machine V) (m : Mem (DataStore V)) (list fresh : Ptr)
    (x : SensorData V) (cs : Cells) (xs : List (SensorData V)) where
  Inserted-Updated :
      (g k : Mem (DataStore V)) (e : Evicted machine m list cs xs x g)
      → fresh ≢ null
      → m.nodes fresh ≡ none
      → has fresh cs ≡ false
      → Inserted g list
          (record { head = e.kept.head; callbacks = data_callbacks machine })
          e.cells
          4
          fresh
          (machine.malloc_data g.elems)
          (update g.elems (machine.malloc_data g.elems) (some x))
          k
      → Updated machine m list cs (insert_reading x xs) k
  Inserted-Updated g k e ne unused off done =
      let q : Ptr = machine.malloc_data g.elems in
      let cells' : Cells = e.cells ++ (fresh, q) ∷ [] in
      let at_end : insert_at 4 (fresh, q) e.cells ≡ cells' =
        insert_at-append 4 (fresh, q) e.cells
          (omega (arith, length-Contents g.elems e.cells e.readings e.kept.contents, e.short)) in
      record {
        cells = cells';
        kept = record {
          head = first cells';
          is_list =
              subst
                (λ z.
                  IsList k list (record { head = first z; callbacks = data_callbacks machine }) z)
                at_end done.is_list;
          allocated =
              rw done.elems
                (Allocated-append g.elems fresh q x e.cells e.room.0 e.room.1 e.kept.allocated);
          contents =
              rw (done.elems, e.next)
                (Contents-append g.elems fresh q x e.cells e.readings e.room.1 e.kept.contents);
        };
        lists = λ a other. done.other_lists a other ∙ e.lists a other;
        nodes = λ a out at. elim (Bool-cases (has a e.cells)) [
          | inl on ↦ absurd (true_ne_false (sym (e.on_nodes a on) ∙ out))
          | inr off_cells ↦
              done.outside a (off_new m.nodes a fresh q e.cells at unused off_cells) ∙ e.nodes a out
        ];
        data_blocks = λ a out at.
            ap (λ h. h a) done.elems
            ∙ update-other g.elems a q x (λ free. at (sym (e.data_blocks a out) ∙ free)) e.room.1
            ∙ e.data_blocks a out;
        only_nodes = λ a on. elim (Bool-cases (has a e.cells)) [
          | inl on' ↦ inl (e.on_nodes a on')
          | inr off' ↦ inr (rw (is_last (sym (has-append a fresh q e.cells) ∙ on) off') unused)
        ];
        only_data = λ a on. elim (Bool-cases (holds a cs)) [
          | inl on' ↦ inl on'
          | inr off' ↦ inr (
              sym (e.data_blocks a off')
              ∙ none_at g.elems a q (e.on_data a) off' (sym (holds-append a fresh q e.cells) ∙ on)
                  e.room.1)
        ];
        tight_nodes = λ a tight out.
            let out' = sym (has-append a fresh q e.cells) ∙ out in
            done.outside a (off_either a fresh q e.cells out')
            ∙ e.tight_nodes a tight (both_false _ _ out').0;
        tight_data = λ a tight out.
            let out' = sym (holds-append a fresh q e.cells) ∙ out in
            ap (λ h. h a) done.elems
            ∙ update-off g.elems a q x _ out' (e.tight_data a tight (both_false _ _ out').0);
      }

  -- For at most five readings in blocks of their own, a data point in another block, and addresses
  -- of free blocks from `malloc`, the two calls return the list without a fault, and it then holds
  -- `insert_reading` of the readings.
  pub update_readings-insert_reading :
      (data_point : Ptr)
      → Kept machine m list cs xs
      → length xs ≤ run_avg_length
      → Mallocs machine m.elems
      → Fresh m.nodes fresh
      → data_point ≢ null
      → m.elems data_point ≡ some x
      → holds data_point cs ≡ false
      → Returns
          (λ r g. (r ≡ list) × Updated machine m list cs (insert_reading x xs) g)
          (update_readings fresh list data_point m)
  unfolding update_readings
  update_readings-insert_reading p kept fits mallocs (ne, unused) p_ne at apart =
      let off : has fresh cs ≡ false =
        has-eq-false_of_none m.nodes null fresh cs unused kept.is_list.chain in
      Returns-bind (make_room-Evicted machine m list x cs xs kept fits mallocs) λ r g (same, e).
        rw same (
          Returns-mono
            (dpl_insert_at_index-insert_at g fresh list p (machine.malloc_data g.elems) (pos 4)
              (update g.elems (machine.malloc_data g.elems) (some x))
              (record { head = e.kept.head; callbacks = data_callbacks machine }) e.cells true ne
              (e.nodes fresh off ∙ unused) e.kept.is_list
              (omega (arith, length-Contents g.elems e.cells e.readings e.kept.contents, e.short))
              (sensor_data_copy-some g.elems (machine.malloc_data g.elems) p {x = x} p_ne
                (e.data_blocks p apart ∙ at) e.room.0))
            λ l k (returned, done). (returned, Inserted-Updated g k e ne unused off done))

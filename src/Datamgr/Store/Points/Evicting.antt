-- ===== src/Datamgr/Store/Points/Evicting.antt =====
-- datamgr.c: the removal of a sensor's oldest reading, in memory.
use osc_final_lab.Common.{
  ◌≤◌, ◌≡◌, ◌≢◌, refl, sym, ap, ◌∙◌, true, false, Option, none, some, List, [], ◌∷◌, ◌++◌, length,
  ◌==◌, arith, Bool-cases, inl, inr, Returns, returns, Returns-mono, pos,
}
use osc_final_lab.Config.{SensorData, run_avg_length}
use osc_final_lab.Dplist.Spec.{elem_at, insert_at-append}
use osc_final_lab.Dplist.Memory.{Ptr, null, Mem, update}
use osc_final_lab.Dplist.Chain.{Cells, first, has}
use osc_final_lab.Dplist.Locate.{ref_at, ref_at-zero}
use osc_final_lab.Dplist.Read.{dpl_size-length}
use osc_final_lab.Dplist.Removal.{dpl_remove_at_index-remove_at}
use osc_final_lab.Dplist.RemoveAt.{Removed}
use osc_final_lab.Dplist.{dpl_remove_at_index}
use osc_final_lab.Datamgr.{insert_reading}
use osc_final_lab.Datamgr.Window.{remove_at-first}
use osc_final_lab.Datamgr.Store.{DataStore, Machine, data_callbacks}
use osc_final_lab.Datamgr.Store.Owned.{holds}
use osc_final_lab.Datamgr.Store.Freeing.{sensor_data_free-some}
use osc_final_lab.Datamgr.Store.Contents.{Kept, length-Contents, Allocated-frame, Contents-frame}
use osc_final_lab.Datamgr.Store.Points.{make_room}

-- A block that can be allocated.
abbrev pub Fresh : {A : Type 0} → (Ptr → Option A) → Ptr → Type 0
Fresh h a = (a ≢ null) × (h a ≡ none)

-- `malloc` has memory for one more reading, also after one has been freed.
pub record Mallocs {V : Type 0} (machine : Machine V) (h : DataStore V) : Type 0 where
  pub now : Fresh h (machine.malloc_data h)
  pub later : (e : Ptr) → Fresh (update h e none) (machine.malloc_data (update h e none))

-- After `make_room` there are at most four readings, and `x` goes behind them.
pub record Evicted {V : Type 0} (machine : Machine V) (m : Mem (DataStore V)) (list : Ptr)
    (cs : Cells) (xs : List (SensorData V)) (x : SensorData V) (g : Mem (DataStore V))
    : Type 0 where
  pub cells : Cells
  pub readings : List (SensorData V)
  pub kept : Kept machine g list cells readings
  pub short : length readings ≤ 4
  pub next : insert_reading x xs ≡ readings ++ x ∷ []
  pub lists : (a : Ptr) → a ≢ list → g.lists a ≡ m.lists a
  pub nodes : (a : Ptr) → has a cs ≡ false → g.nodes a ≡ m.nodes a
  pub data_blocks : (a : Ptr) → holds a cs ≡ false → g.elems a ≡ m.elems a
  pub on_nodes : (a : Ptr) → has a cells ≡ true → has a cs ≡ true
  pub on_data : (a : Ptr) → holds a cells ≡ true → holds a cs ≡ true
  pub tight_nodes :
      (a : Ptr) → (has a cs ≡ false → m.nodes a ≡ none) → has a cells ≡ false → g.nodes a ≡ none
  pub tight_data :
      (a : Ptr) → (holds a cs ≡ false → m.elems a ≡ none) → holds a cells ≡ false → g.elems a ≡ none
  pub room : Fresh g.elems (machine.malloc_data g.elems)

elem_at-first :
    (p e : Ptr) (cs : Cells) → elem_at 0 ((p, e) ∷ cs) ≡ some (ref_at 0 ((p, e) ∷ cs), e)
unfolding elem_at ref_at
elem_at-first p e [] = refl
elem_at-first p e (c ∷ cs) = refl

module _ {V : Type 0} (machine : Machine V) (m : Mem (DataStore V)) (list : Ptr)
    (x : SensorData V) where
  keeps-Evicted :
      (cs : Cells) (xs : List (SensorData V))
      → Kept machine m list cs xs
      → length xs ≤ run_avg_length
      → (length xs == run_avg_length) ≡ false
      → Mallocs machine m.elems
      → Evicted machine m list cs xs x m
  unfolding insert_reading
  keeps-Evicted cs xs kept fits few mallocs = record {
    cells = cs;
    readings = xs;
    kept = kept;
    short = ground arith;
    next = rw few (insert_at-append 4 x xs (ground arith));
    lists = λ a ne. refl;
    nodes = λ a off. refl;
    data_blocks = λ a off. refl;
    on_nodes = λ a on. on;
    on_data = λ a on. on;
    tight_nodes = λ a tight off. tight off;
    tight_data = λ a tight off. tight off;
    room = mallocs.now;
  }

  Removed-Evicted :
      (p e : Ptr) (cs : Cells) (y : SensorData V) (ys : List (SensorData V)) (g : Mem (DataStore V))
      (kept : Kept machine m list ((p, e) ∷ cs) (y ∷ ys))
      → (length (y ∷ ys) == run_avg_length) ≡ true
      → Mallocs machine m.elems
      → Removed m list
          (record { head = kept.head; callbacks = data_callbacks machine })
          ((p, e) ∷ cs)
          0
          (update m.elems e none)
          g
      → Evicted machine m list ((p, e) ∷ cs) (y ∷ ys) x g
  unfolding insert_reading
  Removed-Evicted p e cs y ys g kept five mallocs removed =
      let (ne, out, holds_y, rest) = kept.allocated in
      let others : (a : Ptr) → holds a cs ≡ true → g.elems a ≡ m.elems a =
        λ a on. ap (λ h. h a) removed.elems ∙ ground arith in
      record {
        cells = cs;
        readings = ys;
        kept = record {
          head = first cs;
          is_list = rw (sym (remove_at-first (p, e) cs)) removed.is_list;
          allocated = Allocated-frame m.elems g.elems cs others rest;
          contents = Contents-frame m.elems g.elems cs ys others kept.contents.1;
        };
        short = ground arith;
        next = rw (five, remove_at-first y ys) (insert_at-append 4 x ys (ground arith));
        lists = removed.other_lists;
        nodes = removed.outside;
        data_blocks = λ a off. ap (λ h. h a) removed.elems ∙ ground arith;
        on_nodes = λ a on. ground arith;
        on_data = λ a on. ground arith;
        tight_nodes = λ a tight off. elim (Bool-cases (a == p)) [
          | inl here ↦
              let same : a ≡ p = ground arith in
              rw same (ap g.nodes (sym (ref_at-zero ((p, e) ∷ cs))) ∙ removed.freed)
          | inr other ↦
              let off' : has a ((p, e) ∷ cs) ≡ false = ground arith in
              removed.outside a off' ∙ tight off'
        ];
        tight_data = λ a tight off. ap (λ h. h a) removed.elems ∙ ground (arith, tight);
        room = rw removed.elems (mallocs.later e);
      }

  evict :
      (cs : Cells) (xs : List (SensorData V))
      → Kept machine m list cs xs
      → length xs ≤ run_avg_length
      → (length xs == run_avg_length) ≡ true
      → Mallocs machine m.elems
      → Returns
          (λ r g. (r ≡ list) × Evicted machine m list cs xs x g)
          (dpl_remove_at_index list (pos 0) true m)
  evict [] [] kept fits five mallocs = cc
  evict [] (y ∷ ys) kept fits five mallocs = absurd kept.contents
  evict (c ∷ cs) [] kept fits five mallocs = absurd kept.contents
  evict ((p, e) ∷ cs) (y ∷ ys) kept fits five mallocs =
      let (ne, out, (z, at), rest) = kept.allocated in
      Returns-mono
        (dpl_remove_at_index-remove_at m list
          (record { head = kept.head; callbacks = data_callbacks machine }) true (p, e) cs (pos 0) e
          (update m.elems e none) kept.is_list
          (omega (arith, length-Contents m.elems cs ys kept.contents.1)) (elem_at-first p e cs)
          (null, sensor_data_free-some m.elems e {x = z} ne at))
        λ r g (same, removed). (same, Removed-Evicted p e cs y ys g kept five mallocs removed)

  pub make_room-Evicted :
      (cs : Cells) (xs : List (SensorData V))
      → Kept machine m list cs xs
      → length xs ≤ run_avg_length
      → Mallocs machine m.elems
      → Returns (λ r g. (r ≡ list) × Evicted machine m list cs xs x g) (make_room list m)
  unfolding make_room
  make_room-Evicted cs xs kept fits mallocs =
      let same = length-Contents m.elems cs xs kept.contents in
      rw (dpl_size-length m list kept.is_list (omega arith), same)
        (elim (Bool-cases (length xs == run_avg_length)) [
          | inl five ↦ rw five (evict cs xs kept fits five mallocs)
          | inr few ↦ rw few (returns (refl, keeps-Evicted cs xs kept fits few mallocs))
        ])

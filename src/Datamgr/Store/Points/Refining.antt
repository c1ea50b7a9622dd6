-- ===== src/Datamgr/Store/Points/Refining.antt =====
-- datamgr.c: the loop of `insert_data_point` in memory beside the one on the abstract lists.
use osc_final_lab.Common.{
  ℕ, ◌+◌, ◌≤◌, ◌≡◌, ◌≢◌, refl, sym, ap, ◌∙◌, true, false, some, List, [], ◌∷◌, ◌++◌, length, ◌==◌,
  arith, Bool-cases, inl, inr, Returns, returns, Returns-bind, Returns-mono, ℤ, length-append,
}
use mathlib.Core.List.{append_assoc}
use osc_final_lab.Config.{SensorData, run_avg_length}
use osc_final_lab.Dplist.Memory.{Ptr, null, Dplist, Mem, update}
use osc_final_lab.Dplist.Chain.{Cells, IsList}
use osc_final_lab.Dplist.{int_max}
use osc_final_lab.Datamgr.{SensorMap, Maps, insert_loop, insert_reading}
use osc_final_lab.Datamgr.Window.{insert_reading-window, length-window}
use osc_final_lab.Datamgr.Readings.{Bounded}
use osc_final_lab.Datamgr.Store.{MapBlock, DataStore, MapStore, Machine}
use osc_final_lab.Datamgr.Store.Owned.{Sensor, owns_data, Owned, Elements}
use osc_final_lab.Datamgr.Store.Contents.{Contents, length-Contents}
use osc_final_lab.Datamgr.Store.Agreeing.{
  Stored, block_of, Holds-Agrees, Owned-Agrees, Stored-Agrees,
}
use osc_final_lab.Datamgr.Store.Points.{update_readings, record_reading, point_loop}
use osc_final_lab.Datamgr.Store.Points.Access.{
  elem_at-middle, element_at, within-Returns, load_map-some, load_data-some,
}
use osc_final_lab.Datamgr.Store.Points.Evicting.{Fresh, Mallocs}
use osc_final_lab.Datamgr.Store.Points.Updating.{Updated, update_readings-insert_reading}
use osc_final_lab.Datamgr.Store.Points.Changing.{
  Changed, Agrees-Changed, Apart-Changed, Changed-cons, changed_store, changed_sensor, Changed-here,
  Agrees-here, Apart-here,
}

module _ {V : Type 0} where
  -- The sensors after the loop are those that `insert_loop` gives.
  pub record Refined (machine : Machine V) (m : Mem (MapStore V)) (cs : Cells) (xs : List Sensor)
      (ms : Maps V) (g : Mem (MapStore V)) : Type 0 where
    pub sensors : List Sensor
    pub elements : Elements cs sensors
    pub owned : Owned machine g.elems sensors
    pub stored : Stored g.elems sensors ms
    pub changed : Changed m.elems xs g.elems sensors
    pub nodes : g.nodes ≡ m.nodes
    pub lists : g.lists ≡ m.lists

module _ {V : Type 0} (machine : Machine V) (m : Mem (MapStore V)) (fresh : Ptr) (now : ℤ)
    (data_point : Ptr) (x : SensorData V) (point_ne : data_point ≢ null)
    (point_at : m.elems.inner.elems data_point ≡ some x)
    (mallocs : Mallocs machine m.elems.inner.elems) (room : Fresh m.elems.inner.nodes fresh) where
  found_here :
      (p e : Ptr) (cs : Cells) (y : Sensor) (ys : List Sensor) (n : SensorMap V) (ms : Maps V)
      (k : Mem (DataStore V)) (r : Ptr)
      → r ≡ y.list
      → Updated machine m.elems.inner y.list y.cells (insert_reading x n.readings) k
      → length n.readings ≤ run_avg_length
      → e ≡ y.element
      → Elements cs ys
      → Owned machine m.elems (y ∷ ys)
      → Stored m.elems (y ∷ ys) (n ∷ ms)
      → Refined machine m
          ((p, e) ∷ cs)
          (y ∷ ys)
          (record n { readings = insert_reading x n.readings; last_modified = now } ∷ ms)
          (record m {
            elems = record {
              maps =
                  update m.elems.maps e
                    (some (record (block_of n y.list) { readings = r; last_modified = now }));
              inner = k;
            };
          })
  found_here p e cs y ys n ms k r at_list u short same elements (held, apart, owned)
        (at, contents, stored) =
      let b : MapBlock = record (block_of n y.list) { last_modified = now } in
      let s' : MapStore V =
        changed_store machine m.elems y ys b (insert_reading x n.readings) k u in
      let y' : Sensor = changed_sensor machine m.elems y ys b (insert_reading x n.readings) k u in
      let agrees =
        Agrees-here machine m.elems y ys b (insert_reading x n.readings) k u apart owned in
      rw (same, at_list)
        (record {
          sensors = y' ∷ ys;
          elements = (refl, elements);
          owned = (
            record {
              not_null = held.not_null;
              block = b;
              block_at = ground arith;
              same_list = refl;
              head = u.kept.head;
              is_list = u.kept.is_list;
              fits = omega (
                arith,
                length-Contents k.elems u.cells (insert_reading x n.readings) u.kept.contents,
                ap length (insert_reading-window x n.readings short),
                length-window (n.readings ++ x ∷ []),
              );
              allocated = u.kept.allocated;
            },
            Apart-here machine m.elems y ys b (insert_reading x n.readings) k u apart owned,
            Owned-Agrees m.elems s' machine ys agrees owned,
          );
          stored = (ground arith, u.kept.contents, Stored-Agrees m.elems s' ys ms agrees stored);
          changed = Changed-here machine m.elems y ys b (insert_reading x n.readings) k u;
          nodes = refl;
          lists = refl;
        })

  record_reading-Returns :
      (e : Ptr) (b : MapBlock) {P : Ptr → Mem (DataStore V) → Type 0}
      → Returns P (update_readings fresh b.readings data_point m.elems.inner)
      → Returns
          (λ found g.
            (found ≡ true)
            × (r : Ptr) × (k : Mem (DataStore V)) × P r k
            × (g ≡ record m {
              elems = record {
                maps =
                    update m.elems.maps e (some (record b { readings = r; last_modified = now }));
                inner = k;
              };
            }))
          (record_reading fresh now data_point e b m)
  unfolding record_reading
  record_reading-Returns e b updated =
      Returns-bind (within-Returns m (update_readings fresh b.readings data_point) updated)
        λ r g (k, p, same). rw same (returns (refl, r, k, p, refl))

  Refined-cons :
      (g : Mem (MapStore V)) (p e : Ptr) (cs : Cells) (y : Sensor) (ys : List Sensor)
      (n : SensorMap V) (ms : Maps V)
      → e ≡ y.element
      → Owned machine m.elems (y ∷ ys)
      → m.elems.maps y.element ≡ some (block_of n y.list)
      → Contents m.elems.inner.elems y.cells n.readings
      → Refined machine m cs ys ms g
      → Refined machine m ((p, e) ∷ cs) (y ∷ ys) (n ∷ ms) g
  Refined-cons g p e cs y ys n ms same (held, apart, owned) at contents later =
      let agrees =
        Agrees-Changed machine m.elems g.elems y ys later.sensors held apart later.changed in
      let (at', contents', none_left) =
        Stored-Agrees m.elems g.elems (y ∷ []) (n ∷ []) agrees (at, contents, tt) in
      record {
        sensors = y ∷ later.sensors;
        elements = (same, later.elements);
        owned = (
          Holds-Agrees m.elems g.elems machine y [] agrees held,
          Apart-Changed machine m.elems g.elems y ys later.sensors held apart later.changed,
          later.owned,
        );
        stored = (at', contents', later.stored);
        changed = Changed-cons machine m.elems g.elems y ys later.sensors later.changed;
        nodes = later.nodes;
        lists = later.lists;
      }

  -- The loop from the node after `pre` on.
  pub point_loop-Refined :
      (list : Ptr) (d : Dplist (MapStore V)) (ws pre cs : Cells) (i : ℕ) (xs : List Sensor)
      (ms : Maps V)
      → IsList m list d ws
      → length ws ≤ int_max
      → ws ≡ pre ++ cs
      → i ≡ length pre
      → Elements cs xs
      → Owned machine m.elems xs
      → Stored m.elems xs ms
      → Bounded ms
      → owns_data data_point xs ≡ false
      → Returns
          (λ found g.
            (found ≡ (insert_loop now x ms).0) × Refined machine m cs xs (insert_loop now x ms).1 g)
          (point_loop fresh now list data_point (length cs) i m)
  unfolding point_loop insert_loop Bounded
  point_loop-Refined list d ws pre [] i [] [] is fits split at elements owned stored bounded off =
      returns (
        refl,
        record {
          sensors = [];
          elements = tt;
          owned = tt;
          stored = tt;
          changed = record {
            maps = λ a o. refl;
            lists = λ a o. refl;
            nodes = λ a o u. refl;
            data_blocks = λ a o u. refl;
            same_maps = λ a. refl;
            same_lists = λ a. refl;
            only_nodes = λ a o. inl o;
            only_data = λ a o. inl o;
            tight_nodes = λ a tight o. tight o;
            tight_data = λ a tight o. tight o;
          };
          nodes = refl;
          lists = refl;
        },
      )
  point_loop-Refined list d ws pre [] i [] (n ∷ ms) is fits split at elements owned stored b off =
      absurd stored
  point_loop-Refined list d ws pre [] i (y ∷ ys) ms is fits split at elements owned stored b off =
      absurd elements
  point_loop-Refined list d ws pre (c ∷ cs) i [] ms is fits split at elements owned stored b off =
      absurd elements
  point_loop-Refined list d ws pre (c ∷ cs) i (y ∷ ys) [] is fits split at el owned stored b off =
      absurd stored
  point_loop-Refined list d ws pre ((p, e) ∷ cs) i (y ∷ ys) (n ∷ ms) is fits split at (same, el)
        (held, apart, owned) (block_at, contents, stored) (short, bounded) off =
      rw
        (
          element_at m list d ws i p e is fits (rw (split, at) (elem_at-middle pre (p, e) cs)),
          same,
          load_map-some m y.element {b = block_of n y.list} held.not_null block_at,
          load_data-some m data_point point_ne point_at,
        )
        (elim (Bool-cases (n.sensor_id == x.id)) [
          | inl here ↦ rw here (
              Returns-mono
                (record_reading-Returns y.element (block_of n y.list) (
                  update_readings-insert_reading machine m.elems.inner y.list fresh x y.cells
                    n.readings data_point
                    (record {
                      head = held.head;
                      is_list = held.is_list;
                      allocated = held.allocated;
                      contents = contents;
                    })
                    short mallocs room point_ne point_at (ground arith)))
                λ found g (found_it, r, k, (at_list, u), result). (
                  found_it,
                  rw result (
                      found_here p y.element cs y ys n ms k r at_list u short refl el
                        (held, apart, owned) (block_at, contents, stored)),
                ))
          | inr other ↦ rw other (
              Returns-mono
                (point_loop-Refined list d ws (pre ++ (p, e) ∷ []) cs (i + 1) ys ms is fits
                  (split ∙ sym (append_assoc pre ((p, e) ∷ []) cs))
                  (omega (arith, at, length-append pre ((p, e) ∷ []))) el owned stored bounded
                  (ground arith))
                λ found g (same_found, later). (
                  same_found,
                  Refined-cons g p y.element cs y ys n (insert_loop now x ms).1 refl
                      (held, apart, owned) block_at contents later,
                ))
        ])

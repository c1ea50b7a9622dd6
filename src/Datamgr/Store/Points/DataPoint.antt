-- ===== src/Datamgr/Store/Points/DataPoint.antt =====
-- datamgr.c: `insert_data_point` in memory against the abstract one, as a whole.
use osc_final_lab.Common.{
  ◌≤◌, ◌≡◌, ◌≢◌, refl, sym, ap, ◌∙◌, false, none, some, List, [], length, Returns, returns,
  Returns-bind, ℤ,
}
use osc_final_lab.Config.{SensorData}
use osc_final_lab.Dplist.Memory.{Ptr, null, Mem}
use osc_final_lab.Dplist.Chain.{has, Cells, IsList}
use osc_final_lab.Dplist.Read.{dpl_size-length}
use osc_final_lab.Dplist.{int_max}
use osc_final_lab.Datamgr.{Maps, insert_loop, insert_data_point}
use osc_final_lab.Datamgr.Readings.{Bounded, insert_loop-Bounded}
use osc_final_lab.Datamgr.Store.{MapStore, Machine, map_callbacks}
use osc_final_lab.Datamgr.Store.Owned.{
  Sensor, owns_map, owns_list, owns_node, owns_data, Owned, Elements,
}
use osc_final_lab.Datamgr.Store.Agreeing.{Stored}
use osc_final_lab.Datamgr.Store.Points.{insert_point}
use osc_final_lab.Datamgr.Store.Points.Evicting.{Fresh, Mallocs}
use osc_final_lab.Datamgr.Store.Points.Changing.{false_of_either}
use osc_final_lab.Datamgr.Store.Points.Access.{load_data-some}
use osc_final_lab.Datamgr.Store.Points.Refining.{Refined, point_loop-Refined}

-- The list at `list` has the nodes `cs`, whose elements are the sensors `xs`, each with memory of its
-- own, and they hold `ms`.
pub record Represents {V : Type 0} (machine : Machine V) (m : Mem (MapStore V)) (list : Ptr)
    (cs : Cells) (xs : List Sensor) (ms : Maps V) : Type 0 where
  pub head : Ptr
  pub is_list : IsList m list (record { head = head; callbacks = map_callbacks machine }) cs
  pub fits : length cs ≤ int_max
  pub elements : Elements cs xs
  pub owned : Owned machine m.elems xs
  pub stored : Stored m.elems xs ms
  pub bounded : Bounded ms

-- The data point is in a block that no sensor owns.
pub record IsPoint {V : Type 0} (m : Mem (MapStore V)) (data_point : Ptr) (x : SensorData V)
    (xs : List Sensor) : Type 0 where
  pub not_null : data_point ≢ null
  pub holds_it : m.elems.inner.elems data_point ≡ some x
  pub apart : owns_data data_point xs ≡ false

-- All that is allocated is the list, its nodes, what the sensors own, and the data point.
pub record Tight {V : Type 0} (m : Mem (MapStore V)) (list data_point : Ptr) (cs : Cells)
    (xs : List Sensor) : Type 0 where
  pub nodes : (a : Ptr) → has a cs ≡ false → m.nodes a ≡ none
  pub lists : (a : Ptr) → a ≢ list → m.lists a ≡ none
  pub maps : (a : Ptr) → owns_map a xs ≡ false → m.elems.maps a ≡ none
  pub inner_lists : (a : Ptr) → owns_list a xs ≡ false → m.elems.inner.lists a ≡ none
  pub inner_nodes : (a : Ptr) → owns_node a xs ≡ false → m.elems.inner.nodes a ≡ none
  pub data_blocks :
      (a : Ptr) → owns_data a xs ≡ false → a ≢ data_point → m.elems.inner.elems a ≡ none

module _ {V : Type 0} (machine : Machine V) (m : Mem (MapStore V)) (fresh list data_point : Ptr)
    (now : ℤ) (x : SensorData V) (cs : Cells) (xs : List Sensor) (ms : Maps V) where
  IsPoint-Refined :
      (g : Mem (MapStore V))
      → IsPoint m data_point x xs
      → (r : Refined machine m cs xs (insert_loop now x ms).1 g) → IsPoint g data_point x r.sensors
  IsPoint-Refined g point r =
      let used : m.elems.inner.elems data_point ≢ none = λ free. cc in
      record {
        not_null = point.not_null;
        holds_it = r.changed.data_blocks data_point point.apart used ∙ point.holds_it;
        apart = false_of_either (r.changed.only_data data_point) point.apart used;
      }

  Tight-Refined :
      (g : Mem (MapStore V))
      → Tight m list data_point cs xs
      → (r : Refined machine m cs xs (insert_loop now x ms).1 g)
      → Tight g list data_point cs r.sensors
  Tight-Refined g tight r = record {
    nodes = λ a off. ap (λ h. h a) r.nodes ∙ tight.nodes a off;
    lists = λ a ne. ap (λ h. h a) r.lists ∙ tight.lists a ne;
    maps = λ a off.
        let off' = sym (r.changed.same_maps a) ∙ off in r.changed.maps a off' ∙ tight.maps a off';
    inner_lists = λ a off.
        let off' = sym (r.changed.same_lists a) ∙ off in
        r.changed.lists a off' ∙ tight.inner_lists a off';
    inner_nodes = λ a off. r.changed.tight_nodes a (tight.inner_nodes a) off;
    data_blocks = λ a off ne. r.changed.tight_data a (λ o. tight.data_blocks a o ne) off;
  }

  -- If the nodes and blocks represent the sensors `ms` with at most five readings each, the data
  -- point is in a block of its own and nothing else is allocated, and `malloc` returns addresses
  -- of free blocks, then `insert_data_point` returns without a fault. The same nodes then
  -- represent the sensors that the abstract `insert_data_point` gives, what is passed to
  -- `write_to_log_process` is the same, the data point is unchanged and still owned by no sensor,
  -- and no block has been leaked.
  pub insert_point-insert_data_point :
      Represents machine m list cs xs ms
      → IsPoint m data_point x xs
      → Tight m list data_point cs xs
      → Mallocs machine m.elems.inner.elems
      → Fresh m.elems.inner.nodes fresh
      → Returns
          (λ log g.
            (log ≡ (insert_data_point now x ms).1)
            × (ys : List Sensor) × Represents machine g list cs ys (insert_data_point now x ms).0
            × IsPoint g data_point x ys
            × Tight g list data_point cs ys)
          (insert_point fresh now list data_point m)
  unfolding insert_point insert_data_point
  insert_point-insert_data_point rep point tight mallocs room =
      rw (dpl_size-length m list rep.is_list rep.fits) (
        Returns-bind
          (point_loop-Refined machine m fresh now data_point x point.not_null point.holds_it mallocs
            room list (record { head = rep.head; callbacks = map_callbacks machine }) cs [] cs 0 xs
            ms rep.is_list rep.fits refl refl rep.elements rep.owned rep.stored rep.bounded
            point.apart)
          λ found g (same, r).
            let point' = IsPoint-Refined g point r in
            rw (same, load_data-some g data_point {x = x} point'.not_null point'.holds_it)
              (returns (
                refl,
                r.sensors,
                record {
                  head = rep.head;
                  is_list = record {
                    not_null = rep.is_list.not_null;
                    struct_at = ap (λ h. h list) r.lists ∙ rep.is_list.struct_at;
                    head_first = rep.is_list.head_first;
                    chain = rw r.nodes rep.is_list.chain;
                  };
                  fits = rep.fits;
                  elements = r.elements;
                  owned = r.owned;
                  stored = r.stored;
                  bounded = insert_loop-Bounded now x ms rep.bounded;
                },
                point',
                Tight-Refined g tight r,
              )))

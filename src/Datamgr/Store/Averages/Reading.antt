-- ===== src/Datamgr/Store/Averages/Reading.antt =====
-- datamgr.c: the averages in memory beside those of the abstract lists.
use osc_final_lab.Common.{
  ℕ, ◌+◌, ◌≤◌, ◌≡◌, ◌≢◌, refl, sym, ap, ◌∙◌, some, List, [], ◌∷◌, ◌++◌, length, ◌==◌, arith,
  Bool-cases, inl, inr, ok, length-append,
}
use mathlib.Core.List.{append_assoc}
use osc_final_lab.Config.{SensorData, run_avg_length}
use osc_final_lab.Dplist.Memory.{Ptr, null, Dplist, Mem}
use osc_final_lab.Dplist.Chain.{Cells, IsList}
use osc_final_lab.Dplist.Read.{dpl_size-length}
use osc_final_lab.Dplist.{int_max}
use osc_final_lab.Datamgr.{Values, Maps, sum_from, calculate_average_sensor}
use osc_final_lab.Datamgr.Store.{DataStore, MapStore, Machine, data_callbacks, map_callbacks}
use osc_final_lab.Datamgr.Store.Owned.{Sensor, Allocated, Owned, Elements}
use osc_final_lab.Datamgr.Store.Freeing.{load-some}
use osc_final_lab.Datamgr.Store.Contents.{Contents, length-Contents}
use osc_final_lab.Datamgr.Store.Agreeing.{Stored, block_of}
use osc_final_lab.Dplist.{dpl_size}
use osc_final_lab.Datamgr.Store.Points.Access.{elem_at-middle, element_at, load_map-some, within-ok}
use osc_final_lab.Datamgr.Store.Points.DataPoint.{Represents}
use osc_final_lab.Datamgr.Store.Averages.{load_reading, sum_loop, average_loop, average_sensor}

load_reading-some :
    {V : Type 0} (m : Mem (DataStore V)) (p : Ptr) {x : SensorData V}
    → p ≢ null
    → m.elems p ≡ some x
    → load_reading p m ≡ ok x m
unfolding load_reading
load_reading-some m p ne at = rw (load_reading, load-some m.elems p ne at)

module _ {V : Type 0} (values : Values V) where
  sum_loop-sum_from :
      (m : Mem (DataStore V)) (list : Ptr) (d : Dplist (DataStore V)) (ws pre cs : Cells) (j : ℕ)
      (xs : List (SensorData V)) (total : V)
      → IsList m list d ws
      → length ws ≤ int_max
      → ws ≡ pre ++ cs
      → j ≡ length pre
      → Allocated m.elems cs
      → Contents m.elems cs xs
      → sum_loop values list (length xs) j total m ≡ ok (sum_from values total xs) m
  unfolding sum_loop
  sum_loop-sum_from m list d ws pre [] j [] total is fits split at allocated contents = refl
  sum_loop-sum_from m list d ws pre [] j (x ∷ xs) total is fits split at allocated contents =
      absurd contents
  sum_loop-sum_from m list d ws pre (c ∷ cs) j [] total is fits split at allocated contents =
      absurd contents
  sum_loop-sum_from m list d ws pre ((p, e) ∷ cs) j (x ∷ xs) total is fits split at
        (ne, out, some_at, rest) (holds_x, contents) =
      rw
        (
          element_at m list d ws j p e is fits (rw (split, at) (elem_at-middle pre (p, e) cs)),
          load_reading-some m e {x = x} ne holds_x,
        )
        (sum_loop-sum_from m list d ws (pre ++ (p, e) ∷ []) cs (j + 1) xs (values.add total x.value)
          is fits (split ∙ sym (append_assoc pre ((p, e) ∷ []) cs))
          (omega (arith, at, length-append pre ((p, e) ∷ []))) rest contents)

  module _ (machine : Machine V) (m : Mem (MapStore V)) (id : ℕ) where
    average_loop-calculate_average_sensor :
        (list : Ptr) (d : Dplist (MapStore V)) (ws pre cs : Cells) (i : ℕ) (xs : List Sensor)
        (ms : Maps V)
        → IsList m list d ws
        → length ws ≤ int_max
        → ws ≡ pre ++ cs
        → i ≡ length pre
        → Elements cs xs
        → Owned machine m.elems xs
        → Stored m.elems xs ms
        → average_loop values list id (length cs) i m ≡ ok (calculate_average_sensor values ms id) m
    unfolding average_loop calculate_average_sensor
    average_loop-calculate_average_sensor list d ws pre [] i [] [] is fits split at el owned
          stored =
        refl
    average_loop-calculate_average_sensor list d ws pre [] i [] (n ∷ ms) is fits split at el owned
          stored =
        absurd stored
    average_loop-calculate_average_sensor list d ws pre [] i (y ∷ ys) ms is fits split at el owned
          stored =
        absurd el
    average_loop-calculate_average_sensor list d ws pre (c ∷ cs) i [] ms is fits split at el owned
          stored =
        absurd el
    average_loop-calculate_average_sensor list d ws pre (c ∷ cs) i (y ∷ ys) [] is fits split at el
          owned stored =
        absurd stored
    average_loop-calculate_average_sensor list d ws pre ((p, e) ∷ cs) i (y ∷ ys) (n ∷ ms) is fits
          split at (same, el) (held, apart, owned) (block_at, contents, stored) =
        let later =
          average_loop-calculate_average_sensor list d ws (pre ++ (p, e) ∷ []) cs (i + 1) ys ms is
            fits (split ∙ sym (append_assoc pre ((p, e) ∷ []) cs))
            (omega (arith, at, length-append pre ((p, e) ∷ []))) el owned stored in
        rw
          (
            element_at m list d ws i p e is fits (rw (split, at) (elem_at-middle pre (p, e) cs)),
            same,
            load_map-some m y.element {b = block_of n y.list} held.not_null block_at,
          )
          (elim (Bool-cases (n.sensor_id == id)) [
            | inr other ↦ rw other later
            | inl here ↦
                rw
                  (
                    here,
                    within-ok m (dpl_size y.list)
                        (dpl_size-length m.elems.inner y.list held.is_list held.fits),
                    length-Contents m.elems.inner.elems y.cells n.readings contents,
                  )
                  (elim (Bool-cases (length n.readings == run_avg_length)) [
                    | inr few ↦ rw few later
                    | inl five ↦
                        let count : length n.readings ≡ run_avg_length = ground arith in
                        rw
                          (
                            five,
                            within-ok m (sum_loop values y.list run_avg_length 0 values.zero_value)
                                (ap
                                    (λ k.
                                      sum_loop values y.list k 0 values.zero_value m.elems.inner)
                                    (sym count)
                                  ∙ sum_loop-sum_from m.elems.inner y.list
                                      (record {
                                        head = held.head;
                                        callbacks = data_callbacks machine;
                                      })
                                      y.cells [] y.cells 0 n.readings values.zero_value held.is_list
                                      held.fits refl refl held.allocated contents),
                          )
                          refl
                  ])
          ])

    -- If the nodes and blocks represent the sensors `ms`, `calculate_average_sensor` in memory
    -- changes nothing and writes the messages that the abstract one gives.
    pub average_sensor-calculate_average_sensor :
        (list : Ptr) (cs : Cells) (xs : List Sensor) (ms : Maps V)
        → Represents machine m list cs xs ms
        → average_sensor values list id m ≡ ok (calculate_average_sensor values ms id) m
    unfolding average_sensor
    average_sensor-calculate_average_sensor list cs xs ms rep =
        rw (dpl_size-length m list rep.is_list rep.fits) (
          average_loop-calculate_average_sensor list
            (record { head = rep.head; callbacks = map_callbacks machine }) cs [] cs 0 xs ms
            rep.is_list rep.fits refl refl rep.elements rep.owned rep.stored)

-- ===== src/Datamgr/Store/Averages.antt =====
-- datamgr.c: `calculate_average_sensor` on the nodes and blocks in memory.
pub mod Reading
use osc_final_lab.Common.{
  ℕ, zero, suc, ◌+◌, Bool, true, false, none, some, List, [], ◌∷◌, ◌==◌, if◌then◌else◌, ℤ, pos,
  pos_part, Cmd, Run, ok, fault, pure, ◌>>=◌, ◌>>◌, eqb_ℤ,
}
use osc_final_lab.Config.{SensorData, run_avg_length}
use osc_final_lab.Dplist.Memory.{Ptr, Mem}
use osc_final_lab.Dplist.{dpl_size, dpl_get_element_at_index}
use osc_final_lab.Datamgr.{Values, Message, warnings}
use osc_final_lab.Datamgr.Store.{DataStore, MapStore, load}
use osc_final_lab.Datamgr.Store.Points.{within, load_map}

-- A read through a `sensor_data_t *` in a list of readings.
unfoldable pub load_reading : {V : Type 0} → Ptr → Cmd (Mem (DataStore V)) (SensorData V)
load_reading p m = elim (load m.elems p) [ none ↦ fault | some x ↦ ok x m ]

module _ {V : Type 0} (values : Values V) where
  -- The inner `for`, from `j` on with `rounds` rounds left.
  pub sum_loop : (readings : Ptr) → (rounds : ℕ) → ℕ → (average : V) → Cmd (Mem (DataStore V)) V
  sum_loop readings zero j average = pure average
  sum_loop readings (suc rounds) j average = do
    e ← dpl_get_element_at_index readings (pos j)
    x ← load_reading e
    sum_loop readings rounds (j + 1) (values.add average x.value)

  -- The outer `for`, from `i` on with `rounds` rounds left: the messages.
  pub average_loop : Ptr → (id : ℕ) → (rounds : ℕ) → ℕ → Cmd (Mem (MapStore V)) (List (Message V))
  average_loop list id zero i = pure []
  average_loop list id (suc rounds) i = do
    dummy_map ← dpl_get_element_at_index list (pos i)
    b ← load_map dummy_map
    if b.sensor_id == id
        then (do
          size ← within (dpl_size b.readings)
          if eqb_ℤ size (pos run_avg_length)
              then (do
                total ← within (sum_loop b.readings run_avg_length 0 values.zero_value)
                pure (warnings values b.sensor_id (values.divide total)))
              else average_loop list id rounds (i + 1))
        else average_loop list id rounds (i + 1)

  -- `calculate_average_sensor`
  pub average_sensor : Ptr → (id : ℕ) → Cmd (Mem (MapStore V)) (List (Message V))
  average_sensor list id = do size ← dpl_size list; average_loop list id (pos_part size) 0

-- ===== src/Datamgr/Store/Points.antt =====
-- datamgr.c: `insert_data_point` on the nodes and blocks in memory.
pub mod Evicting
pub mod Updating
pub mod Changing
pub mod Access
pub mod Refining
pub mod DataPoint
use osc_final_lab.Common.{
  ℕ, zero, suc, ◌+◌, true, false, Bool, none, some, List, [], ◌∷◌, ◌==◌, if◌then◌else◌, ℤ, pos,
  pos_part, Cmd, Run, ok, fault, pure, ◌>>=◌, ◌>>◌, eqb_ℤ,
}
use osc_final_lab.Config.{SensorData, run_avg_length}
use osc_final_lab.Dplist.Memory.{Ptr, Mem, update}
use osc_final_lab.Dplist.{
  dpl_size, dpl_remove_at_index, dpl_insert_at_index, dpl_get_element_at_index,
}
use osc_final_lab.Datamgr.{Message, invalid_id}
use osc_final_lab.Datamgr.Store.{MapBlock, DataStore, MapStore, load}

module _ {V : Type 0} where
  -- The removal of the oldest of five readings.
  pub make_room : Ptr → Cmd (Mem (DataStore V)) Ptr
  make_room readings = do
    size ← dpl_size readings
    if eqb_ℤ size (pos run_avg_length)
        then dpl_remove_at_index readings (pos 0) true
        else pure readings

  -- The two calls on the list of readings; `fresh` is the address of the new node.
  pub update_readings : (fresh : Ptr) → Ptr → (data_point : Ptr) → Cmd (Mem (DataStore V)) Ptr
  update_readings fresh readings data_point = do
    readings' ← make_room readings
    dpl_insert_at_index fresh readings' data_point (pos 4) true

  -- Code on the lists of readings, as code on all of the memory.
  within_result :
      {A : Type 0} → Mem (MapStore V) → Run (Mem (DataStore V)) A → Run (Mem (MapStore V)) A
  within_result m fault = fault
  within_result m (ok a g) = ok a (record m { elems = record m.elems { inner = g } })

  unfoldable pub within : {A : Type 0} → Cmd (Mem (DataStore V)) A → Cmd (Mem (MapStore V)) A
  unfolding within_result
  within c m = within_result m (c m.elems.inner)

  -- Reads through a `sensor_map_t *` and a `sensor_data_t *`.
  unfoldable pub load_map : Ptr → Cmd (Mem (MapStore V)) MapBlock
  load_map p m = elim (load m.elems.maps p) [ none ↦ fault | some b ↦ ok b m ]

  unfoldable pub load_data : Ptr → Cmd (Mem (MapStore V)) (SensorData V)
  load_data p m = elim (load m.elems.inner.elems p) [ none ↦ fault | some x ↦ ok x m ]

  store_map : Ptr → MapBlock → Cmd (Mem (MapStore V)) (Unit {0})
  store_map p b m =
      ok tt (record m { elems = record m.elems { maps = update m.elems.maps p (some b) } })

  -- The end of the loop's body, for the sensor's element `dummy_map`.
  unfoldable pub record_reading :
      (fresh : Ptr) → ℤ → Ptr → (dummy_map : Ptr) → MapBlock → Cmd (Mem (MapStore V)) Bool
  unfolding store_map
  record_reading fresh now data_point dummy_map b = do
    readings' ← within (update_readings fresh b.readings data_point)
    store_map dummy_map (record b { readings = readings'; last_modified = now })
    pure true

  -- The `for` of `insert_data_point`, from `i` on with `rounds` rounds left: whether the sensor was
  -- found. The list's size does not change before the `break`.
  pub point_loop : (fresh : Ptr) → ℤ → Ptr → Ptr → (rounds : ℕ) → ℕ → Cmd (Mem (MapStore V)) Bool
  point_loop fresh now list data_point zero i = pure false
  point_loop fresh now list data_point (suc rounds) i = do
    dummy_map ← dpl_get_element_at_index list (pos i)
    b ← load_map dummy_map
    x ← load_data data_point
    if b.sensor_id == x.id
        then record_reading fresh now data_point dummy_map b
        else point_loop fresh now list data_point rounds (i + 1)

  -- `insert_data_point`, with the messages that it writes.
  pub insert_point : (fresh : Ptr) → ℤ → Ptr → Ptr → Cmd (Mem (MapStore V)) (List (Message V))
  insert_point fresh now list data_point = do
    size ← dpl_size list
    found ← point_loop fresh now list data_point (pos_part size) 0
    x ← load_data data_point
    pure (if found then [] else invalid_id x.id ∷ [])

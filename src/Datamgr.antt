-- ===== src/Datamgr.antt =====
-- datamgr.c: the data manager. The lists that it keeps through `dpl_*` are the abstract ones of
-- Dplist.Spec, which those functions implement; a sensor's element owns its list of readings. What is
-- passed to `write_to_log_process` is a list of messages, oldest first.
pub mod Window
pub mod Readings
pub mod MapFile
pub mod Store
pub mod Mappings
pub mod Warnings
mod Tests
use osc_final_lab.Common.{
  ℕ, Bool, true, false, Option, none, some, List, [], ◌∷◌, ◌++◌, ◌==◌, if◌then◌else◌, length, ℤ,
}
use osc_final_lab.Config.{SensorData, run_avg_length}
use osc_final_lab.Dplist.Spec.{insert_at, remove_at}
use osc_final_lab.Sbuffer.{Status, failure, success, no_data}

-- What the code does with values of the C type `double`.
pub record Values (V : Type 0) : Type 0 where
  pub zero_value : V
  pub add : V → V → V
  -- `/ RUN_AVG_LENGTH`
  pub divide : V → V
  -- `> SET_MAX_TEMP` and `< SET_MIN_TEMP`
  pub is_too_hot : V → Bool
  pub is_too_cold : V → Bool

-- `sensor_map_t`
pub record SensorMap (V : Type 0) : Type 0 where
  pub sensor_id : ℕ
  pub room_id : ℕ
  pub readings : List (SensorData V)
  pub last_modified : ℤ

abbrev pub Maps : Type 0 → Type 0
Maps V = List (SensorMap V)

pub data Message (V : Type 0) : Type 0 where
  too_hot : (id : ℕ) (average : V) → Message V
  too_cold : (id : ℕ) (average : V) → Message V
  invalid_id : (id : ℕ) → Message V
  invalid_file : Message V
  parsed : (id : ℕ) → Message V
  closing : Message V

module _ {V : Type 0} where
  -- The two calls that put a data point into the readings of its sensor.
  unfoldable pub insert_reading : SensorData V → List (SensorData V) → List (SensorData V)
  insert_reading x xs = insert_at 4 x (if length xs == run_avg_length then remove_at 0 xs else xs)

  -- The `for` of `insert_data_point`: whether the sensor was found, and the list.
  pub insert_loop : ℤ → SensorData V → Maps V → Bool × Maps V
  insert_loop now x [] = (false, [])
  insert_loop now x (m ∷ ms) =
      let rest = insert_loop now x ms in
      if m.sensor_id == x.id
      then (true, record m { readings = insert_reading x m.readings; last_modified = now } ∷ ms)
      else (rest.0, m ∷ rest.1)

  -- `insert_data_point`, at the time `now`
  pub insert_data_point : ℤ → SensorData V → Maps V → Maps V × List (Message V)
  unfolding insert_loop
  insert_data_point now x ms =
      let (found, ms') = insert_loop now x ms in (ms', if found then [] else invalid_id x.id ∷ [])

  -- `insert_mappings`: the pairs of room and sensor that `fscanf` reads from the file, and the times
  mapping_loop : List (ℕ × ℕ × ℤ) → Maps V → Maps V
  mapping_loop [] ms = ms
  mapping_loop ((room, sensor, now) ∷ lines) ms = mapping_loop lines (
      insert_at (length ms)
        (record { sensor_id = sensor; room_id = room; readings = []; last_modified = now }) ms)

  pub insert_mappings : Option (List (ℕ × ℕ × ℤ)) → Maps V → Maps V × List (Message V)
  unfolding mapping_loop
  insert_mappings none ms = (ms, invalid_file ∷ [])
  insert_mappings (some lines) ms = (mapping_loop lines ms, [])

module _ {V : Type 0} (values : Values V) where
  -- The inner `for` of `calculate_average_sensor`, on the values from some index on.
  abbrev pub sum_from : V → List (SensorData V) → V
  sum_from total [] = total
  sum_from total (x ∷ xs) = sum_from (values.add total x.value) xs

  abbrev pub average : List (SensorData V) → V
  average xs = values.divide (sum_from values.zero_value xs)

  abbrev pub warnings : ℕ → V → List (Message V)
  warnings id a =
      (if values.is_too_hot a then too_hot id a ∷ [] else [])
      ++ (if values.is_too_cold a then too_cold id a ∷ [] else [])

  -- `calculate_average_sensor`
  pub calculate_average_sensor : Maps V → ℕ → List (Message V)
  calculate_average_sensor [] id = []
  calculate_average_sensor (m ∷ ms) id =
      let rest = calculate_average_sensor ms id in
      if m.sensor_id == id
      then (if length m.readings == run_avg_length
          then warnings m.sensor_id (average m.readings)
          else rest)
      else rest

  -- The body of the `while` of `datamgr_init`.
  pub handle_reading : ℤ → SensorData V → Maps V → Maps V × List (Message V)
  unfolding insert_data_point calculate_average_sensor
  handle_reading now x ms =
      let (ms', log) = insert_data_point now x ms in
      (ms', log ++ calculate_average_sensor ms' x.id ++ parsed x.id ∷ [])

  -- The `while` of `datamgr_init`, on what the calls of `sbuffer_peek` return and the times.
  pub peek_loop : List (ℤ × Status V) → Maps V → Maps V × List (Message V)
  unfolding handle_reading
  peek_loop [] ms = (ms, [])
  peek_loop ((now, success x) ∷ results) ms =
      let (ms', log) = handle_reading now x ms in
      let (ms'', later) = peek_loop results ms' in (ms'', log ++ later)
  peek_loop ((now, failure) ∷ results) ms = (ms, closing ∷ [])
  peek_loop ((now, no_data) ∷ results) ms = (ms, closing ∷ [])

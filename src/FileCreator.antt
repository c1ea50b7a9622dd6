-- ===== src/FileCreator.antt =====
-- file_creator.c: the utility that makes room_sensor.map and a binary file of readings. The results of
-- `fopen`, `time` and `drand48` are parameters.
pub mod RoomSensorMap
pub mod Measurements
mod Tests
use osc_final_lab.Common.{
  ℕ, zero, suc, ◌+◌, Bool, true, false, Option, none, some, List, [], ◌∷◌, ◌++◌, ℤ, add_ℕ,
}
use osc_final_lab.Config.{SensorData}
use osc_final_lab.CString.{Chars, ExitStatus, exit_success, exit_failure, decimal}

-- `room_id` and `sensor_id`
abbrev pub rooms_and_sensors : List (ℕ × ℕ)
rooms_and_sensors =
    (1, 15) ∷ (2, 21) ∷ (3, 37) ∷ (4, 49) ∷ (11, 112) ∷ (12, 129) ∷ (13, 132) ∷ (14, 142) ∷ []

abbrev pub num_measurements : ℕ
num_measurements = 100

abbrev pub sleep_time : ℕ
sleep_time = 30

-- One `fprintf`, in front of the text `rest`.
abbrev pub print_line : ℕ → ℕ → (rest : Chars) → Chars
print_line room sensor rest = decimal (suc room) room (32 ∷ decimal (suc sensor) sensor (10 ∷ rest))

-- The first `for`: the text of room_sensor.map.
unfoldable pub print_lines : List (ℕ × ℕ) → Chars
print_lines [] = []
print_lines ((room, sensor) ∷ pairs) = print_line room sensor (print_lines pairs)

module _ {V D : Type 0} (drift : D → V → V) (draw : (i j : ℕ) → D) where
  -- The inner `for` of round `i`, from sensor `j` on: the records that it writes, and the temperatures.
  unfoldable pub measure_row :
      (i j : ℕ) → (starttime : ℤ) → List (ℕ × V) → List (SensorData V) × List (ℕ × V)
  measure_row i j starttime [] = ([], [])
  measure_row i j starttime ((sensor, temperature) ∷ sensors) =
      let (records, later) = measure_row i (suc j) starttime sensors in
      (
        record { id = sensor; value = temperature; ts = starttime } ∷ records,
        (sensor, drift (draw i j) temperature) ∷ later,
      )

  -- The outer `for`, with `n` rounds left.
  unfoldable pub measure_loop : (n i : ℕ) → (starttime : ℤ) → List (ℕ × V) → List (SensorData V)
  measure_loop zero i starttime sensors = []
  measure_loop (suc n) i starttime sensors =
      let (records, later) = measure_row i 0 starttime sensors in
      records ++ measure_loop n (suc i) (add_ℕ starttime sleep_time) later

-- The two files, as far as they are made.
pub record Created (V : Type 0) : Type 0 where
  pub room_sensor_map : Option Chars
  pub sensor_data : Option (List (SensorData V))
  pub exit : ExitStatus

-- the sensors with their first temperatures
abbrev pub sensors_at : {V : Type 0} → (degrees : ℕ → V) → List (ℕ × V)
sensors_at degrees =
    (15, degrees 15)
    ∷ (21, degrees 17)
    ∷ (37, degrees 18)
    ∷ (49, degrees 19)
    ∷ (112, degrees 20)
    ∷ (129, degrees 23)
    ∷ (132, degrees 24)
    ∷ (142, degrees 25)
    ∷ []

-- `main`
pub file_creator :
    {V D : Type 0}
    → (drift : D → V → V) → (draw : (i j : ℕ) → D) → (degrees : ℕ → V) → (starttime : ℤ)
    → (text_opens bin_opens : Bool) → Created V
file_creator drift draw degrees starttime false bin_opens = record {
  room_sensor_map = none;
  sensor_data = none;
  exit = exit_failure;
}
file_creator drift draw degrees starttime true false = record {
  room_sensor_map = some (print_lines rooms_and_sensors);
  sensor_data = none;
  exit = exit_failure;
}
file_creator drift draw degrees starttime true true = record {
  room_sensor_map = some (print_lines rooms_and_sensors);
  sensor_data = some (measure_loop drift draw num_measurements 0 starttime (sensors_at degrees));
  exit = exit_success;
}

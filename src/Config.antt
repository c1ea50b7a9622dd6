-- ===== src/Config.antt =====
-- config.h: the constants and the records that the parts share. `sensor_value_t` is a C `double`
-- and is a type parameter; `sensor_id_t` and `room_id_t` are numbers below 2 ^ 16.
use osc_final_lab.Common.{ℕ, ℤ, ◌^◌}

-- The largest value of a `uint16_t` is one below this.
abbrev pub u16_mod : ℕ
u16_mod = 2 ^ 16

abbrev pub run_avg_length : ℕ
run_avg_length = 5

-- `sensor_data_t`
pub record SensorData (V : Type 0) : Type 0 where
  pub id : ℕ
  pub value : V
  pub ts : ℤ

-- ===== src/SensorDb/Tests.antt =====
-- sensor_db.c: runs at concrete inputs.
use osc_final_lab.Common.{◌≡◌, refl, true, some, List, [], ◌∷◌, ◌++◌, ℤ, pos, negsuc}
use osc_final_lab.CString.{Chars, decimal}
use osc_final_lab.Config.{SensorData}
use osc_final_lab.Sbuffer.{Status, no_data}
use osc_final_lab.SensorDb.Rows.{read_rows, no_comma}
use osc_final_lab.SensorDb.Storing.{text_of, removals, number_of, rows_of, sensor_db_runner-removed}
use osc_final_lab.SensorDb.{File, OpenCalls, DbMessage, print_ld, print_row, sensor_db_runner}

data Celsius : Type 0 where
  cold : Celsius
  warm : Celsius

-- "-4.5" and "19.625"
abbrev format_value : Celsius → Chars
format_value cold = b'-' ∷ b'4' ∷ b'.' ∷ b'5' ∷ []
format_value warm = b'1' ∷ b'9' ∷ b'.' ∷ b'6' ∷ b'2' ∷ b'5' ∷ []

no_comma-format_value : (v : Celsius) → no_comma (format_value v) ≡ true
no_comma-format_value cold = refl
no_comma-format_value warm = refl

abbrev reading : Celsius → SensorData Celsius
reading v = record { id = 15; value = v; ts = pos 1000 }

abbrev all_open : OpenCalls
all_open = record { can_make = true; can_clear = true; can_append = true }

abbrev one_line : File
one_line = some (print_row format_value (reading warm) [])

abbrev two_more : List (SensorData Celsius × ℤ)
two_more = (reading cold, pos 15) ∷ (reading warm, pos 17) ∷ []

abbrev ended : List (Status Celsius × ℤ)
ended = (no_data, pos 0) ∷ []

sensor_db_runner-removed_example :
    (log : List DbMessage) × (added : Chars) × (sensor_db_runner format_value all_open
        (removals two_more ended)
        (pos 0)
        one_line
      ≡ some (record { file = some (text_of one_line ++ added); ended = true; log = log }))
    × (read_rows (number_of format_value two_more) added ≡ some (rows_of format_value two_more, []))
sensor_db_runner-removed_example =
    sensor_db_runner-removed format_value all_open two_more ended (pos 0) one_line
      no_comma-format_value (λ e. refl) refl (refl, (refl, tt)) tt

-- "15, -4.5, -7\n"
cold_row :
    print_row format_value (record { id = 15; value = cold; ts = negsuc 6 }) []
    ≡ b'1' ∷ b'5' ∷ b',' ∷ b' ' ∷ b'-' ∷ b'4' ∷ b'.' ∷ b'5' ∷ b',' ∷ b' ' ∷ b'-' ∷ b'7' ∷ 10 ∷ []
unfolding print_row print_ld decimal
cold_row = refl

-- ===== src/Datamgr/Tests.antt =====
-- datamgr.c: runs at concrete inputs.
use osc_final_lab.Common.{
  ℕ, ◌+◌, ◌/◌, ◌≡◌, refl, none, some, List, [], ◌∷◌, ◌++◌, if◌then◌else◌, ltb, ℤ, pos, arith,
}
use osc_final_lab.Config.{SensorData}
use osc_final_lab.Sbuffer.{Status, success, no_data}
use osc_final_lab.Datamgr.Window.{window}
use osc_final_lab.Datamgr.Readings.{readings_of, of_sensor, kept, Bounded, peeked}
use osc_final_lab.Datamgr.Mappings.{listed, peek_loop-insert_mappings}
use osc_final_lab.Datamgr.Warnings.{Distinct, expected, complaint, handle_reading-expected}
use osc_final_lab.Datamgr.{
  Values, Maps, parsed, too_hot, insert_reading, insert_mappings, calculate_average_sensor,
  handle_reading, peek_loop, insert_data_point, insert_loop,
}

-- Whole degrees, with the limits of config.h.
abbrev degrees : Values ℕ
degrees = record {
  zero_value = 0;
  add = λ a b. a + b;
  divide = λ a. a / 5;
  is_too_hot = λ a. ltb 20 a;
  is_too_cold = λ a. ltb a 10;
}

abbrev reading : ℕ → ℕ → SensorData ℕ
reading i v = record { id = i; value = v; ts = pos 1000 }

abbrev lines : List (ℕ × ℕ × ℤ)
lines = (1, 15, pos 10) ∷ (2, 21, pos 10) ∷ []

abbrev results : List (ℤ × Status ℕ)
results =
    (pos 11, success (reading 15 18)) ∷ (pos 12, success (reading 21 9)) ∷ (pos 13, no_data) ∷ []

-- Sensor 15 has four readings.
abbrev four : Maps ℕ
four =
    record {
      sensor_id = 15;
      room_id = 1;
      readings = reading 15 22 ∷ reading 15 23 ∷ reading 15 24 ∷ reading 15 25 ∷ [];
      last_modified = pos 20;
    }
    ∷ record { sensor_id = 21; room_id = 2; readings = []; last_modified = pos 10 }
    ∷ []

four-Bounded : Bounded four
unfolding Bounded
four-Bounded = (omega arith, (omega arith, tt))

four-Distinct : Distinct four
unfolding Distinct readings_of
four-Distinct = (refl, (refl, tt))

peek_loop-insert_mappings_example :
    readings_of 21 (peek_loop degrees results (insert_mappings (some lines) []).0).0
    ≡ (if listed 21 lines then some (window (of_sensor 21 (peeked results))) else none)
peek_loop-insert_mappings_example = peek_loop-insert_mappings degrees 21 lines results

handle_reading-expected_example :
    (handle_reading degrees (pos 30) (reading 15 26) four).1
    ≡ complaint 15 (readings_of 15 four)
      ++ expected degrees 15 (kept 15 (reading 15 26 ∷ []) (readings_of 15 four))
      ++ parsed 15 ∷ []
handle_reading-expected_example =
    handle_reading-expected degrees (pos 30) (reading 15 26) four four-Bounded four-Distinct

-- The fifth reading completes the window, and the average of 24 is too hot.
fifth_reading :
    (handle_reading degrees (pos 30) (reading 15 26) four).1 ≡ too_hot 15 24 ∷ parsed 15 ∷ []
unfolding handle_reading insert_data_point insert_loop calculate_average_sensor insert_reading
    osc_final_lab.Dplist.Spec.insert_at
fifth_reading = refl

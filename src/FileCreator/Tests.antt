-- ===== src/FileCreator/Tests.antt =====
-- file_creator.c: runs at concrete inputs.
use osc_final_lab.Common.{
  ℕ, ◌+◌, ◌*◌, ◌≡◌, refl, true, some, List, [], ◌∷◌, ℤ, pos, get_elem?, add_ℕ, arith,
}
use osc_final_lab.Config.{SensorData}
use osc_final_lab.CString.{Chars, decimal}
use osc_final_lab.Datamgr.MapFile.{scan_lines}
use osc_final_lab.Datamgr.MapFile.Ends.{scan_lines-total}
use osc_final_lab.FileCreator.RoomSensorMap.{scan_lines-print_lines}
use osc_final_lab.FileCreator.Measurements.{drifted, file_creator-measured}
use osc_final_lab.FileCreator.{sleep_time, print_lines, file_creator}

abbrev drift : ℕ → ℕ → ℕ
drift d v = v + d

abbrev draw : ℕ → ℕ → ℕ
draw i j = i + j

abbrev degrees : ℕ → ℕ
degrees n = n

-- "11 112" and a line end
abbrev line : Chars
line = b'1' ∷ b'1' ∷ 32 ∷ b'1' ∷ b'1' ∷ b'2' ∷ 10 ∷ []

printed : print_lines ((11, 112) ∷ []) ≡ line
unfolding print_lines decimal
printed = refl

scan_lines-total_example : (pairs : List (ℕ × ℕ)) × (scan_lines 8 line ≡ some pairs)
scan_lines-total_example = scan_lines-total 8 line (omega arith)

scan_lines-print_lines_example : scan_lines 2 (print_lines ((11, 112) ∷ [])) ≡ some ((11, 112) ∷ [])
scan_lines-print_lines_example =
    scan_lines-print_lines 2 ((11, 112) ∷ []) (omega arith) (omega arith)

abbrev lines : List (ℕ × ℕ × ℤ)
lines =
    (1, 15, pos 900)
    ∷ (2, 21, pos 900)
    ∷ (3, 37, pos 900)
    ∷ (4, 49, pos 900)
    ∷ (11, 112, pos 900)
    ∷ (12, 129, pos 900)
    ∷ (13, 132, pos 900)
    ∷ (14, 142, pos 900)
    ∷ []

-- The record of the fourth sensor in the third round.
third_round :
    (records : List (SensorData ℕ)) × ((file_creator drift draw degrees
        (pos 0)
        true
        true).sensor_data
      ≡ some records)
    × (get_elem? records (2 * 8 + 3)
        ≡ some (record {
          id = 49;
          value = drifted drift draw 3 2 0 19;
          ts = add_ℕ (pos 0) (2 * sleep_time);
        }))
third_round = file_creator-measured drift draw degrees 2 3 (pos 0) 49 19 (omega arith) refl

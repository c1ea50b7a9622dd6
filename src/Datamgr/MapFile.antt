-- ===== src/Datamgr/MapFile.antt =====
-- datamgr.c: how `insert_mappings` reads the text of the map file, with `fscanf(fp_file, "%hu %hu", ...)`.
pub mod Ends
use osc_final_lab.Common.{ℕ, zero, suc, Option, none, some, List, [], ◌∷◌}
use osc_final_lab.CString.{Chars, scan_hu}

scan_sensor : (room : ℕ) → Option (ℕ × Chars) → Option (ℕ × ℕ × Chars)
scan_sensor room none = none
scan_sensor room (some (sensor, rest)) = some (room, sensor, rest)

scan_room : Option (ℕ × Chars) → Option (ℕ × ℕ × Chars)
unfolding scan_sensor
scan_room none = none
scan_room (some (room, rest)) = scan_sensor room (scan_hu rest)

-- One call of `fscanf`: the room, the sensor, and the text that is left, if it returns 2.
unfoldable pub scan_pair : Chars → Option (ℕ × ℕ × Chars)
unfolding scan_room
scan_pair text = scan_room (scan_hu text)

-- one more line
abbrev pub with_line : ℕ → ℕ → Option (List (ℕ × ℕ)) → Option (List (ℕ × ℕ))
with_line room sensor none = none
with_line room sensor (some pairs) = some ((room, sensor) ∷ pairs)

-- The `while` over the calls of `fscanf`; `none` if the fuel runs out.
unfoldable pub scan_lines : (fuel : ℕ) → Chars → Option (List (ℕ × ℕ))
scan_lines zero text = none
scan_lines (suc fuel) text = elim (scan_pair text) [
  | none ↦ some []
  | some (room, sensor, rest) ↦ with_line room sensor (scan_lines fuel rest)
]

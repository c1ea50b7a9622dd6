-- ===== src/Datamgr/MapFile/Ends.antt =====
-- datamgr.c: the loop that reads the map file ends.
use osc_final_lab.Common.{
  ℕ, zero, suc, ◌<◌, ◌≡◌, refl, ap, Option, Option-cases, none, some, List, [], ◌∷◌, inl, inr,
  length, arith,
}
use osc_final_lab.CString.Progress.{length-scan_hu}
use osc_final_lab.CString.{Chars, scan_hu}
use osc_final_lab.Datamgr.MapFile.{scan_sensor, scan_room, scan_pair, scan_lines}

-- the text after a line that was read
abbrev left_text : Option (ℕ × ℕ × Chars) → Chars
left_text none = []
left_text (some (room, sensor, rest)) = rest

length-scan_pair :
    (text : Chars) (room sensor : ℕ) (rest : Chars)
    → scan_pair text ≡ some (room, sensor, rest)
    → length rest < length text
unfolding scan_pair scan_room scan_sensor
length-scan_pair text room sensor rest reads = elim (Option-cases (scan_hu text)) [
  | inl fails ↦ let nothing : none ≡ some (room, sensor, rest) = (rw fails at reads) in cc
  | inr ((n, later), first) ↦ elim (Option-cases (scan_hu later)) [
    | inl fails ↦
        let nothing : none ≡ some (room, sensor, rest) = (rw (first, fails) at reads) in cc
    | inr ((k, last), second) ↦
        let same : last ≡ rest = ap left_text (rw (first, second) at reads) in
        rw (← same)
          (omega (arith, length-scan_hu text n later first, length-scan_hu later k last second))
  ]
]

-- On any text and with fuel for more rounds than the text has characters, the loop of `fscanf` in
-- `insert_mappings` ends.
pub scan_lines-total :
    (fuel : ℕ) (text : Chars)
    → length text < fuel
    → (pairs : List (ℕ × ℕ)) × (scan_lines fuel text ≡ some pairs)
unfolding scan_lines
scan_lines-total zero text enough = absurd (omega arith)
scan_lines-total (suc fuel) text enough = elim (Option-cases (scan_pair text)) [
  | inl stops ↦ ([], rw (stops, scan_lines) refl)
  | inr ((room, sensor, rest), reads) ↦
      let shorter = length-scan_pair text room sensor rest reads in
      let (pairs, later) = scan_lines-total fuel rest (omega arith) in
      ((room, sensor) ∷ pairs, rw (reads, scan_lines) (rw later refl))
]

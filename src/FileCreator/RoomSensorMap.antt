-- ===== src/FileCreator/RoomSensorMap.antt =====
-- file_creator.c and datamgr.c: what the data manager reads from the map file that is made.
use osc_final_lab.Common.{
  ℕ, zero, suc, ◌<◌, ◌≡◌, refl, sym, ap, ◌∙◌, Bool, true, false, not, ◌&&◌, ◌||◌, none, some, List,
  [], ◌∷◌, ◌==◌, length, ℤ, arith, Bool-cases, inl, inr,
}
use osc_final_lab.Config.{u16_mod}
use osc_final_lab.CString.Decimal.{scan_hu-decimal, scan_hu-space, scan_hu-newline}
use osc_final_lab.CString.{Chars, scan_hu, decimal}
use osc_final_lab.Datamgr.MapFile.{scan_pair, scan_lines, with_line}
use osc_final_lab.Datamgr.Mappings.{entries, listed, readings_of-entries}
use osc_final_lab.Datamgr.Warnings.{Distinct}
use osc_final_lab.FileCreator.{rooms_and_sensors, print_line, print_lines, file_creator}

-- The numbers fit into a `uint16_t`.
abbrev pub Fit : List (ℕ × ℕ) → Type 0
Fit [] = Unit {0}
Fit ((room, sensor) ∷ pairs) = (room < u16_mod) × (sensor < u16_mod) × Fit pairs

scan_pair-print_line :
    (room sensor : ℕ) (rest : Chars)
    → room < u16_mod
    → sensor < u16_mod
    → scan_pair (print_line room sensor rest) ≡ some (room, sensor, 10 ∷ rest)
unfolding scan_pair
scan_pair-print_line room sensor rest fits fits' =
    rw
      (
        scan_hu-decimal (suc room) room 32 (decimal (suc sensor) sensor (10 ∷ rest)) (omega arith)
            fits refl,
        scan_hu-space (decimal (suc sensor) sensor (10 ∷ rest)),
        scan_hu-decimal (suc sensor) sensor 10 rest (omega arith) fits' refl,
      )
      refl

scan_pair-newline : (text : Chars) → scan_pair (10 ∷ text) ≡ scan_pair text
unfolding scan_pair
scan_pair-newline text = rw (scan_hu-newline text) refl

scan_lines-newline : (fuel : ℕ) (text : Chars) → scan_lines fuel (10 ∷ text) ≡ scan_lines fuel text
unfolding scan_lines
scan_lines-newline zero text = refl
scan_lines-newline (suc fuel) text = rw (scan_pair-newline text, scan_lines) refl

scan_pair-nil : scan_pair [] ≡ none
unfolding scan_pair scan_hu
scan_pair-nil = refl

-- For pairs of numbers below 2 ^ 16 and fuel for more rounds than there are pairs, the loop of
-- `fscanf` in `insert_mappings` reads exactly these pairs, in their order, from the lines that
-- file_creator.c prints for them.
pub scan_lines-print_lines :
    (fuel : ℕ) (pairs : List (ℕ × ℕ))
    → length pairs < fuel
    → Fit pairs
    → scan_lines fuel (print_lines pairs) ≡ some pairs
unfolding print_lines scan_lines
scan_lines-print_lines zero pairs enough fit = absurd (omega arith)
scan_lines-print_lines (suc fuel) [] enough fit = rw (scan_pair-nil, scan_lines) refl
scan_lines-print_lines (suc fuel) ((room, sensor) ∷ pairs) enough (fits, fits', fit) =
    rw (scan_pair-print_line room sensor (print_lines pairs) fits fits', scan_lines)
      (ap (with_line room sensor) (
        scan_lines-newline fuel (print_lines pairs)
        ∙ scan_lines-print_lines fuel pairs (omega arith) fit))

-- The sensor is in one of the pairs, and no sensor is in two.
abbrev pub appears : ℕ → List (ℕ × ℕ) → Bool
appears j [] = false
appears j ((room, sensor) ∷ pairs) = (sensor == j) || appears j pairs

abbrev pub once : List (ℕ × ℕ) → Bool
once [] = true
once ((room, sensor) ∷ pairs) = not (appears sensor pairs) && once pairs

-- the pairs that were read, without the times
abbrev pub pairs_of : List (ℕ × ℕ × ℤ) → List (ℕ × ℕ)
pairs_of [] = []
pairs_of ((room, sensor, now) ∷ lines) = (room, sensor) ∷ pairs_of lines

listed-appears : (j : ℕ) (lines : List (ℕ × ℕ × ℤ)) → listed j lines ≡ appears j (pairs_of lines)
unfolding listed
listed-appears j [] = refl
listed-appears j ((room, sensor, now) ∷ lines) =
    ap (λ b. (sensor == j) || b) (listed-appears j lines)

module _ (V : Type 0) where
  Distinct-entries :
      (lines : List (ℕ × ℕ × ℤ)) → once (pairs_of lines) ≡ true → Distinct (entries {V = V} lines)
  unfolding Distinct entries
  Distinct-entries [] alone = tt
  Distinct-entries ((room, sensor, now) ∷ lines) alone =
      elim (Bool-cases (appears sensor (pairs_of lines))) [
        | inl again ↦ let no_more : false ≡ true = (rw again at alone) in cc
        | inr new ↦ (
          readings_of-entries sensor lines ∙ rw (listed-appears sensor lines, new) refl,
          Distinct-entries lines (rw new at alone),
        )
      ]

room_sensor_map-file_creator :
    {V D : Type 0} (drift : D → V → V) (draw : (i j : ℕ) → D) (degrees : ℕ → V) (starttime : ℤ)
    (bin_opens : Bool)
    → (file_creator drift draw degrees starttime true bin_opens).room_sensor_map
      ≡ some (print_lines rooms_and_sensors)
unfolding file_creator
room_sensor_map-file_creator drift draw degrees starttime true = refl
room_sensor_map-file_creator drift draw degrees starttime false = refl

rooms_and_sensors-Fit : Fit rooms_and_sensors
rooms_and_sensors-Fit = omega arith

some_injective : {A : Type 0} {a b : A} → some a ≡ some b → a ≡ b
some_injective e = cc

-- If the data manager reads the map file that file_creator.c has made, with fuel for more than
-- eight rounds, then it reads the eight pairs of room and sensor, and no sensor has two elements
-- in its list.
pub file_creator-Distinct :
    {V D : Type 0} (drift : D → V → V) (draw : (i j : ℕ) → D) (degrees : ℕ → V) (starttime : ℤ)
    (bin_opens : Bool) (fuel : ℕ) (text : Chars) (lines : List (ℕ × ℕ × ℤ))
    → (file_creator drift draw degrees starttime true bin_opens).room_sensor_map ≡ some text
    → 8 < fuel
    → scan_lines fuel text ≡ some (pairs_of lines)
    → (pairs_of lines ≡ rooms_and_sensors) × Distinct (entries {V = V} lines)
file_creator-Distinct {V} drift draw degrees starttime bin_opens fuel text lines made enough reads =
    let same : print_lines rooms_and_sensors ≡ text =
      some_injective
        (sym (room_sensor_map-file_creator drift draw degrees starttime bin_opens) ∙ made) in
    let pairs : rooms_and_sensors ≡ pairs_of lines = some_injective (
      sym (scan_lines-print_lines fuel rooms_and_sensors enough rooms_and_sensors-Fit)
      ∙ ap (scan_lines fuel) same
      ∙ reads) in
    (sym pairs, Distinct-entries V lines (rw (← pairs) refl))

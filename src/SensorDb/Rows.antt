-- ===== src/SensorDb/Rows.antt =====
-- sensor_db.c: the rows of data.csv, as a program reads them that knows only the form of the file.
use osc_final_lab.Common.{
  ℕ, zero, suc, ◌<◌, ◌≡◌, refl, sym, ap, ◌∙◌, Bool, true, false, not, ◌&&◌, Option, none, some,
  List, [], ◌∷◌, ◌++◌, ◌==◌, if◌then◌else◌, ℤ, pos, negsuc, Bool-cases, inl, inr, arith,
}
use mathlib.Core.List.{append_assoc}
use osc_final_lab.CString.{Chars, is_digit, digits, decimal}
use osc_final_lab.CString.Decimal.{
  digits-decimal, decimal-cons, digits-stop, not_minus, append-decimal,
}
use osc_final_lab.Config.{SensorData}
use osc_final_lab.SensorDb.{print_ld, print_row, ◌>>=◌}

-- The sensor's id, the text of its value, and the time.
abbrev pub Row : Type 0
Row = ℕ × Chars × ℤ

expect : ℕ → Chars → Option Chars
expect c [] = none
expect c (d ∷ cs) = if d == c then some cs else none

read_number : Chars → Option (ℕ × Chars)
read_number [] = none
read_number (c ∷ cs) = if is_digit c then some (digits 0 (c ∷ cs)) else none

minus : ℕ × Chars → ℤ × Chars
minus (zero, rest) = (pos 0, rest)
minus (suc n, rest) = (negsuc n, rest)

read_signed : Chars → Option (ℤ × Chars)
read_signed [] = none
read_signed (c ∷ cs) =
    if c == b'-'
    then (read_number cs >>= λ r. some (minus r))
    else (read_number (c ∷ cs) >>= λ r. some (pos r.0, r.1))

-- The text before the first comma, and what follows it.
until_comma : Chars → Option (Chars × Chars)
until_comma [] = none
until_comma (c ∷ cs) =
    let rest = until_comma cs in
    if c == b',' then some ([], cs) else (rest >>= λ r. some (c ∷ r.0, r.1))

-- One row: a number, a comma and a blank, a text up to a comma, a blank, a number that may be
-- negative, and the end of the line.
pub read_row : Chars → Option (Row × Chars)
unfolding expect read_number read_signed until_comma
read_row cs = do
  (id, after_id) ← read_number cs
  after_comma ← expect b',' after_id
  value_text ← expect b' ' after_comma
  (value, after_value) ← until_comma value_text
  ts_text ← expect b' ' after_value
  (ts, after_ts) ← read_signed ts_text
  rest ← expect 10 after_ts
  some ((id, value, ts), rest)

-- So many rows, and what follows them.
unfoldable pub read_rows : (rows : ℕ) → Chars → Option (List Row × Chars)
read_rows zero cs = some ([], cs)
read_rows (suc rows) cs = do
  (row, rest) ← read_row cs
  (more, end) ← read_rows rows rest
  some (row ∷ more, end)

abbrev pub no_comma : Chars → Bool
no_comma [] = true
no_comma (c ∷ cs) = not (c == b',') && no_comma cs

read_number-decimal :
    (fuel n c : ℕ) (rest : Chars)
    → n < fuel
    → is_digit c ≡ false
    → read_number (decimal fuel n (c ∷ rest)) ≡ some (n, c ∷ rest)
unfolding read_number
read_number-decimal fuel n c rest enough stops =
    let (d, ds, first, is) = decimal-cons fuel n (c ∷ rest) enough in
    let reads : digits 0 (d ∷ ds) ≡ (n, c ∷ rest) =
      ap (digits 0) (sym first)
      ∙ digits-decimal fuel n (c ∷ rest) enough
      ∙ digits-stop n c rest stops in
    rw (first, is, reads) refl

read_signed-digit :
    (c : ℕ) (cs : Chars)
    → is_digit c ≡ true
    → read_signed (c ∷ cs) ≡ (read_number (c ∷ cs) >>= λ r. some (pos r.0, r.1))
unfolding read_signed
read_signed-digit c cs is = rw (not_minus c is) refl

read_signed-print_ld :
    (n : ℤ) (c : ℕ) (rest : Chars)
    → is_digit c ≡ false
    → read_signed (print_ld n (c ∷ rest)) ≡ some (n, c ∷ rest)
unfolding print_ld read_signed minus
read_signed-print_ld (pos n) c rest stops =
    let (d, ds, first, is) = decimal-cons (suc n) n (c ∷ rest) (omega arith) in
    rw
      (
        first,
        read_signed-digit d ds is,
        sym first,
        read_number-decimal (suc n) n c rest (omega arith) stops,
      )
      refl
read_signed-print_ld (negsuc n) c rest stops =
    rw (read_number-decimal (suc (suc n)) (suc n) c rest (omega arith) stops) refl

until_comma-append :
    (cs rest : Chars) → no_comma cs ≡ true → until_comma (cs ++ (b',' ∷ rest)) ≡ some (cs, rest)
unfolding until_comma
until_comma-append [] rest clean = refl
until_comma-append (c ∷ cs) rest clean = elim (Bool-cases (c == b',')) [
  | inl comma ↦ let no : false ≡ true = (rw comma at clean) in cc
  | inr other ↦
      let clean' : no_comma cs ≡ true = (rw other at clean) in
      rw (other, until_comma-append cs rest clean') refl
]

module _ {V : Type 0} (format_value : V → Chars) where
  -- What a row is to hold of a reading.
  abbrev pub row_of : SensorData V → Row
  row_of x = (x.id, format_value x.value, x.ts)

  append-print_ld :
      (n : ℤ) (rest more : Chars) → print_ld n rest ++ more ≡ print_ld n (rest ++ more)
  unfolding print_ld
  append-print_ld (pos n) rest more = append-decimal (suc n) n rest more
  append-print_ld (negsuc n) rest more =
      ap (λ cs. b'-' ∷ cs) (append-decimal (suc (suc n)) (suc n) rest more)

  pub append-print_row :
      (x : SensorData V) (rest : Chars)
      → print_row format_value x [] ++ rest ≡ print_row format_value x rest
  unfolding print_row
  append-print_row x rest =
      rw (append-decimal (suc x.id) x.id, append_assoc (format_value x.value), append-print_ld x.ts)
        refl

  pub read_row-print_row :
      (x : SensorData V) (rest : Chars)
      → no_comma (format_value x.value) ≡ true
      → read_row (print_row format_value x rest) ≡ some (row_of x, rest)
  unfolding read_row print_row expect
  read_row-print_row x rest clean =
      rw
        (
          read_number-decimal (suc x.id) x.id b','
              (b' ' ∷ (format_value x.value ++ (b',' ∷ b' ' ∷ print_ld x.ts (10 ∷ rest))))
              (omega arith) refl,
          until_comma-append (format_value x.value) (b' ' ∷ print_ld x.ts (10 ∷ rest)) clean,
          read_signed-print_ld x.ts 10 rest refl,
        )
        refl

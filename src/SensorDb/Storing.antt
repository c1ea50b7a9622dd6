-- ===== src/SensorDb/Storing.antt =====
-- sensor_db.c: what stands in the file.
use osc_final_lab.Common.{
  ◌≡◌, refl, sym, ap, ◌∙◌, Bool, true, false, none, some, ℕ, suc, List, [], ◌∷◌, ◌++◌,
  if◌then◌else◌, ℤ, pos, ltb_ℤ,
}
use mathlib.Core.List.{append_assoc, append-nil}
use osc_final_lab.Config.{SensorData}
use osc_final_lab.Sbuffer.{Status, failure, success, no_data}
use osc_final_lab.SensorDb.{
  File, OpenCalls, DbMessage, make_file, clear_file, open_db, insert_sensor, store_loop, end_runner,
  print_row, sensor_db_runner, close_db, missing, made, clearing, cleared, opened,
}
use osc_final_lab.CString.{Chars}
use osc_final_lab.SensorDb.Rows.{
  Row, row_of, no_comma, read_rows, read_row-print_row, append-print_row,
}

abbrev pub text_of : File → Chars
text_of none = []
text_of (some text) = text

-- If a missing file can be made, and cleared where that is asked for, `open_db` of a file name
-- does not fault: the file then exists, with its old text if `append` is true and with none
-- otherwise, and there is a stream exactly if it can be opened for appending.
pub open_db-text_of :
    (calls : OpenCalls) (append : Bool) (file : File)
    → ((file ≡ none) → calls.can_make ≡ true)
    → ((append ≡ false) → calls.can_clear ≡ true)
    → (log : List DbMessage) × (open_db calls true append file
        ≡ some (record {
          file = some (if append then text_of file else []);
          stream = calls.can_append;
          log = log;
        }))
unfolding open_db make_file clear_file
open_db-text_of calls true none makes clears = (
  (missing ∷ made ∷ []) ++ [] ++ (if calls.can_append then opened ∷ [] else []),
  rw (makes refl) refl,
)
open_db-text_of calls false none makes clears = (
  (missing ∷ made ∷ [])
      ++ (clearing ∷ cleared ∷ [])
      ++ (if calls.can_append then opened ∷ [] else []),
  rw (makes refl, clears refl) refl,
)
open_db-text_of calls true (some text) makes clears =
    ([] ++ [] ++ (if calls.can_append then opened ∷ [] else []), refl)
open_db-text_of calls false (some text) makes clears = (
  [] ++ (clearing ∷ cleared ∷ []) ++ (if calls.can_append then opened ∷ [] else []),
  rw (clears refl) refl,
)

module _ {V : Type 0} where
  -- The results of removals and of `fprintf`, then an end of the stream.
  abbrev pub removals : List (SensorData V × ℤ) → List (Status V × ℤ) → List (Status V × ℤ)
  removals [] last = last
  removals ((x, printed) ∷ xs) last = (success x, printed) ∷ removals xs last

  -- Each `fprintf` wrote something.
  abbrev pub Printed : List (SensorData V × ℤ) → Type 0
  Printed [] = Unit {0}
  Printed ((x, printed) ∷ xs) = (ltb_ℤ (pos 0) printed ≡ true) × Printed xs

  -- The stream has ended, or failed.
  abbrev pub Last : List (Status V × ℤ) → Type 0
  Last [] = ⊥
  Last ((success x, printed) ∷ results) = ⊥
  Last ((failure, printed) ∷ results) = Unit {0}
  Last ((no_data, printed) ∷ results) = Unit {0}

module _ {V : Type 0} (format_value : V → Chars) where
  -- The rows that are to be there, and their number.
  abbrev pub rows_of : List (SensorData V × ℤ) → List Row
  rows_of [] = []
  rows_of ((x, printed) ∷ xs) = row_of format_value x ∷ rows_of xs

  abbrev pub number_of : List (SensorData V × ℤ) → ℕ
  number_of [] = 0
  number_of ((x, printed) ∷ xs) = suc (number_of xs)

  written : List (SensorData V × ℤ) → Chars
  written [] = []
  written ((x, printed) ∷ xs) = print_row format_value x (written xs)

  store_loop-written :
      (xs : List (SensorData V × ℤ)) (last : List (Status V × ℤ)) (text : Chars)
      → Printed xs
      → Last last
      → ((store_loop format_value true (removals xs last) (some text)).file
          ≡ some (text ++ written xs))
        × ((store_loop format_value true (removals xs last) (some text)).ended ≡ true)
  unfolding store_loop insert_sensor written
  store_loop-written [] [] text printed ends = absurd ends
  store_loop-written [] ((success x, p) ∷ later) text printed ends = absurd ends
  store_loop-written [] ((failure, p) ∷ later) text printed ends =
      (ap some (sym (append-nil text)), refl)
  store_loop-written [] ((no_data, p) ∷ later) text printed ends =
      (ap some (sym (append-nil text)), refl)
  store_loop-written ((x, p) ∷ xs) last text (wrote, printed) ends =
      let row = print_row format_value x [] in
      let (stored, ended) = store_loop-written xs last (text ++ row) printed ends in
      rw (wrote, store_loop)
        (
          stored
              ∙ ap some (append_assoc text row (written xs))
              ∙ ap (λ cs. some (text ++ cs)) (append-print_row format_value x (written xs)),
          ended,
        )

  read_rows-written :
      (xs : List (SensorData V × ℤ))
      → ((v : V) → no_comma (format_value v) ≡ true)
      → read_rows (number_of xs) (written xs) ≡ some (rows_of xs, [])
  unfolding read_rows written
  read_rows-written [] clean = refl
  read_rows-written ((x, p) ∷ xs) clean =
      rw
        (read_row-print_row format_value x (written xs) (clean x.value), read_rows-written xs clean)
        refl

  -- If a missing file can be made, the file can be opened for appending, each `fprintf` writes
  -- something, and `%g` writes no comma, then `sensor_db_runner` ends without a fault when
  -- `sbuffer_remove` first returns something else than SBUFFER_SUCCESS. The file then has its old
  -- text, and after it one line for each reading that `sbuffer_remove` returned before, in their
  -- order: read as numbers and text between commas, these lines are the readings' ids, what `%g`
  -- writes for their values, and their times, and nothing follows them.
  pub sensor_db_runner-removed :
      (calls : OpenCalls) (xs : List (SensorData V × ℤ)) (last : List (Status V × ℤ))
      (closed_result : ℤ) (file : File)
      → ((v : V) → no_comma (format_value v) ≡ true)
      → ((file ≡ none) → calls.can_make ≡ true)
      → calls.can_append ≡ true
      → Printed xs
      → Last last
      → (log : List DbMessage) × (added : Chars) × (sensor_db_runner format_value calls
            (removals xs last)
            closed_result
            file
          ≡ some (record { file = some (text_of file ++ added); ended = true; log = log }))
        × (read_rows (number_of xs) added ≡ some (rows_of xs, []))
  unfolding sensor_db_runner end_runner close_db
  sensor_db_runner-removed calls xs last closed_result file clean makes appends printed ends =
      let (log, opens) = open_db-text_of calls true file makes (λ e. cc) in
      let (stored, ended) = store_loop-written xs last (text_of file) printed ends in
      let run = store_loop format_value true (removals xs last) (some (text_of file)) in
      (
        log ++ run.log ++ (close_db true closed_result).1,
        written xs,
        rw (opens, appends, stored, ended) refl,
        read_rows-written xs clean,
      )

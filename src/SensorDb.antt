-- ===== src/SensorDb.antt =====
-- sensor_db.c: the storage manager. A file is absent (`none`) or its text. What the C library's calls on
-- streams return is a parameter, and so is the text that `fprintf` writes for a `double` with `%g`; a
-- call of `fprintf` that returns no positive number leaves the file as it was. `none` as a result is a
-- fault.
pub mod Rows
pub mod Storing
mod Tests
use osc_final_lab.Common.{
  ℕ, Bool, true, false, not, Option, none, some, List, [], ◌∷◌, ◌++◌, if◌then◌else◌, ℤ, pos, negsuc,
  ltb_ℤ, eqb_ℤ, suc,
}
use osc_final_lab.CString.{Chars, decimal}
use osc_final_lab.Config.{SensorData}
use osc_final_lab.Sbuffer.{Status, failure, success, no_data}

pub data DbMessage : Type 0 where
  invalid_name : DbMessage
  missing : DbMessage
  made : DbMessage
  clearing : DbMessage
  cleared : DbMessage
  opened : DbMessage
  no_insertion : DbMessage
  insertion : (id : ℕ) → DbMessage
  failed_insertion : DbMessage
  no_closure : DbMessage
  failed_closure : DbMessage
  closed : DbMessage
  ending : DbMessage

abbrev pub File : Type 0
File = Option Chars

-- Whether the calls of `fopen` in `open_db` succeed: with "w" to make the file, with "w" to clear it,
-- and with "a".
pub record OpenCalls : Type 0 where
  pub can_make : Bool
  pub can_clear : Bool
  pub can_append : Bool

-- The file, whether there is a stream, and the messages.
pub record Db : Type 0 where
  pub file : File
  pub stream : Bool
  pub log : List DbMessage

-- `fprintf` returned `status` for this reading.
pub record Stored : Type 0 where
  pub file : File
  pub status : ℤ
  pub log : List DbMessage

-- The file and the messages of the loop, and whether it has ended.
pub record LoopRun : Type 0 where
  pub file : File
  pub ended : Bool
  pub log : List DbMessage

-- A chain of steps that may fault.
infixl 5 ◌>>=◌
abbrev ◌>>=◌ : {A B : Type 0} → Option A → (A → Option B) → Option B
none >>= f = none
some a >>= f = f a

-- `close_db`, given what `fclose` returns
pub close_db : (stream : Bool) → (closed_result : ℤ) → ℤ × List DbMessage
close_db false closed_result = (negsuc 0, no_closure ∷ [])
close_db true closed_result =
    (closed_result, if eqb_ℤ closed_result (pos 0) then closed ∷ [] else failed_closure ∷ [])

-- The step of `open_db` that makes a missing file; `fclose` of NULL is a fault.
pub make_file : OpenCalls → File → Option (Chars × List DbMessage)
make_file calls (some text) = some (text, [])
make_file calls none = if calls.can_make then some ([], missing ∷ made ∷ []) else none

-- The step that clears the file.
pub clear_file : OpenCalls → (append : Bool) → Chars → Option (Chars × List DbMessage)
clear_file calls true text = some (text, [])
clear_file calls false text = if calls.can_clear then some ([], clearing ∷ cleared ∷ []) else none

-- `open_db`; `named` says whether `filename` is not NULL
pub open_db : OpenCalls → (named append : Bool) → File → Option Db
open_db calls false append file =
    some (record { file = file; stream = false; log = invalid_name ∷ [] })
open_db calls true append file = do
  (text, log) ← make_file calls file
  (text', log') ← clear_file calls append text
  some (record {
    file = some text';
    stream = calls.can_append;
    log = log ++ log' ++ (if calls.can_append then opened ∷ [] else []);
  })

-- `%ld` of `fprintf`, in front of `rest`
unfoldable pub print_ld : ℤ → (rest : Chars) → Chars
print_ld (pos n) rest = decimal (suc n) n rest
print_ld (negsuc n) rest = b'-' ∷ decimal (suc (suc n)) (suc n) rest

-- What follows the `while` of `sensor_db_runner`, if it ends.
end_runner : Db → (closed_result : ℤ) → LoopRun → LoopRun
end_runner db closed_result run =
    if run.ended
    then record run { log = db.log ++ run.log ++ (close_db db.stream closed_result).1 }
    else record run { log = db.log ++ run.log }

-- `format_value` is what `%g` writes.
module _ {V : Type 0} (format_value : V → Chars) where
  -- "%hu, %g, %ld\n", in front of `rest`
  pub print_row : SensorData V → (rest : Chars) → Chars
  print_row x rest =
      decimal (suc x.id) x.id
        (b',' ∷ b' ' ∷ (format_value x.value ++ (b',' ∷ b' ' ∷ print_ld x.ts (10 ∷ rest))))

  abbrev pub add_row : SensorData V → File → File
  add_row x none = some (print_row x [])
  add_row x (some text) = some (text ++ print_row x [])

  -- `insert_sensor`, given what `fprintf` returns
  pub insert_sensor : (stream : Bool) → (printed : ℤ) → SensorData V → File → Stored
  insert_sensor false printed x file = record {
    file = file;
    status = negsuc 0;
    log = no_insertion ∷ [];
  }
  insert_sensor true printed x file =
      if ltb_ℤ (pos 0) printed
      then record { file = add_row x file; status = printed; log = insertion x.id ∷ [] }
      else record { file = file; status = printed; log = failed_insertion ∷ [] }

  -- The `while` of `sensor_db_runner`, on what the calls of `sbuffer_remove` return and what `fprintf`
  -- returns for them. With no result left it waits in `sbuffer_remove`.
  pub store_loop : (stream : Bool) → List (Status V × ℤ) → File → LoopRun
  store_loop stream [] file = record { file = file; ended = false; log = [] }
  store_loop stream ((success x, printed) ∷ results) file =
      let s = insert_sensor stream printed x file in
      let rest = store_loop stream results s.file in record rest { log = s.log ++ rest.log }
  store_loop stream ((failure, printed) ∷ results) file = record {
    file = file;
    ended = true;
    log = ending ∷ [];
  }
  store_loop stream ((no_data, printed) ∷ results) file = record {
    file = file;
    ended = true;
    log = ending ∷ [];
  }

  -- `sensor_db_runner`
  pub sensor_db_runner :
      OpenCalls → List (Status V × ℤ) → (closed_result : ℤ) → File → Option (LoopRun)
  sensor_db_runner calls results closed_result file = do
    db ← open_db calls true true file
    some (end_runner db closed_result (store_loop db.stream results db.file))

-- ===== src/Logger.antt =====
-- main.c: the log process and the messages to it. A character is a number, and a message is the list of
-- the characters of a C string before its NUL. A `write` of at most PIPE_BUF bytes to a pipe is atomic,
-- so each `read` of the child gets the SIZE bytes of one `write`.
pub mod Framing
pub mod RoundTrip
pub mod Child
mod Tests
use osc_final_lab.Common.{
  ℕ, zero, suc, ◌+◌, ◌-◌, ◌<◌, Bool, true, false, ◌&&◌, Option, none, some, List, [], ◌∷◌, ◌++◌,
  ◌==◌, ltb, if◌then◌else◌, length,
}

-- SIZE
abbrev pub size : ℕ
size = 4096

-- DELIMITER, a dollar sign
abbrev pub delimiter : ℕ
delimiter = 36

abbrev pub Chars : Type 0
Chars = List ℕ

-- "END_PROC"
abbrev pub end_proc : Chars
end_proc = 69 ∷ 78 ∷ 68 ∷ 95 ∷ 80 ∷ 82 ∷ 79 ∷ 67 ∷ []

-- What `memset` to 0 leaves.
unfoldable pub zeros : ℕ → Chars
zeros zero = []
zeros (suc n) = 0 ∷ zeros n

-- `write_to_log_process`: the SIZE bytes that are written. `strncpy` fills the buffer up, and `strcat`
-- needs two more bytes, for the delimiter and the NUL: without them it writes past the end, a fault.
pub write_to_log_process : Chars → Option Chars
write_to_log_process message =
    if ltb (length message + 1) size
    then some (message ++ delimiter ∷ zeros (size - length message - 1))
    else none

-- `strcmp(a, b) == 0`
pub same_chars : Chars → Chars → Bool
same_chars [] [] = true
same_chars [] (d ∷ ds) = false
same_chars (c ∷ cs) [] = false
same_chars (c ∷ cs) (d ∷ ds) = (c == d) && same_chars cs ds

-- The string in a buffer: what stands before the first NUL.
pub c_string : Chars → Chars
c_string [] = []
c_string (c ∷ cs) = let rest = c_string cs in if c == 0 then [] else c ∷ rest

token : Chars → List Chars
token [] = []
token (c ∷ cs) = (c ∷ cs) ∷ []

-- The tokens that the calls of `strtok` return, with the characters of a token so far.
pub tokens : (so_far : Chars) → Chars → List Chars
tokens so_far [] = token so_far
tokens so_far (c ∷ cs) =
    let next = tokens [] cs in
    let more = tokens (so_far ++ c ∷ []) cs in if c == delimiter then token so_far ++ next else more

-- A line of the log file, without the time.
pub record LogLine : Type 0 where
  pub seq_num : ℕ
  pub text : Chars

-- What the child does: the lines that it appends, and whether it has left with `exit(0)`.
pub record ChildRun : Type 0 where
  pub lines : List LogLine
  pub seq_num : ℕ
  pub exited : Bool

abbrev pub log_line : ℕ → Chars → ChildRun → ChildRun
log_line n text run = record run { lines = record { seq_num = n; text = text } ∷ run.lines }

-- The `while` over the tokens of one buffer.
pub token_loop : (seq_num : ℕ) → List Chars → ChildRun
token_loop n [] = record { lines = []; seq_num = n; exited = false }
token_loop n (t ∷ ts) =
    let rest = token_loop (n + 1) ts in
    if same_chars t end_proc
    then record { lines = []; seq_num = n; exited = true }
    else log_line n t rest

abbrev pub followed_by : ChildRun → ChildRun → ChildRun
followed_by run next = record {
  lines = run.lines ++ next.lines;
  seq_num = next.seq_num;
  exited = next.exited;
}

-- The `while` over the buffers that are read.
pub read_loop : (seq_num : ℕ) → List Chars → ChildRun
read_loop n [] = record { lines = []; seq_num = n; exited = false }
read_loop n (buffer ∷ buffers) =
    let run = token_loop n (tokens [] (c_string buffer)) in
    let next = read_loop run.seq_num buffers in if run.exited then run else followed_by run next

-- One buffer and those after it, if none is a fault.
abbrev pub with_buffer : Option Chars → Option (List Chars) → Option (List Chars)
with_buffer none rest = none
with_buffer (some b) none = none
with_buffer (some b) (some bs) = some (b ∷ bs)

-- `end_log_process` after calls of `write_to_log_process`: all that is written to the pipe.
pub write_all : List Chars → Option (List Chars)
write_all [] = with_buffer (write_to_log_process end_proc) (some [])
write_all (m ∷ ms) = let rest = write_all ms in with_buffer (write_to_log_process m) rest

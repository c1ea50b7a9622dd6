-- ===== src/Logger/Child.antt =====
-- main.c: the whole loop of the log process, with every result that `read` can have.
use osc_final_lab.Common.{
  ℕ, zero, suc, ◌+◌, ◌≡◌, refl, ap, ◌∙◌, true, false, List, [], ◌∷◌, ◌++◌, some, map, length,
  if◌then◌else◌,
}
use osc_final_lab.Logger.Framing.{buffer_of, write_to_log_process-buffer_of}
use osc_final_lab.Logger.RoundTrip.{
  AllLoggable, numbered, end_proc-Loggable, read_loop-message, write_all-nil, write_all-cons,
  add_nil, add_suc,
}
use osc_final_lab.Logger.{
  end_proc, write_all, log_line, Chars, ChildRun, tokens, c_string, token_loop, followed_by,
  read_loop,
}

-- What `read` returns: SIZE bytes, 0 at the end of the pipe, or a negative number.
pub data ReadResult : Type 0 where
  bytes : Chars → ReadResult
  end_of_file : ReadResult
  read_error : ReadResult

-- The child's `while(1)` with the loop over the buffers in it. With no result left it waits in `read`.
pub child_loop : (seq_num : ℕ) → List ReadResult → ChildRun
child_loop n [] = record { lines = []; seq_num = n; exited = false }
child_loop n (bytes buffer ∷ results) =
    let run = token_loop n (tokens [] (c_string buffer)) in
    let next = child_loop run.seq_num results in if run.exited then run else followed_by run next
-- the inner loop ends, and the outer one goes on since `rc` is not negative
child_loop n (end_of_file ∷ results) = child_loop n results
child_loop n (read_error ∷ results) = record { lines = []; seq_num = n; exited = true }

abbrev pub ends_of_file : ℕ → List ReadResult
ends_of_file zero = []
ends_of_file (suc k) = end_of_file ∷ ends_of_file k

child_loop-ends_of_file :
    (n k : ℕ) → child_loop n (ends_of_file k) ≡ record { lines = []; seq_num = n; exited = false }
unfolding child_loop
child_loop-ends_of_file n zero = refl
child_loop-ends_of_file n (suc k) = child_loop-ends_of_file n k

-- Reads at the end of the pipe change nothing.
pub child_loop-read_loop :
    (n k : ℕ) (buffers : List Chars)
    → child_loop n (map bytes buffers ++ ends_of_file k) ≡ read_loop n buffers
unfolding child_loop read_loop
child_loop-read_loop n k [] = child_loop-ends_of_file n k
child_loop-read_loop n k (buffer ∷ buffers) =
    let run = token_loop n (tokens [] (c_string buffer)) in
    ap (λ next. if run.exited then run else followed_by run next)
      (child_loop-read_loop run.seq_num k buffers)

read_loop-nil : (n : ℕ) → read_loop n [] ≡ record { lines = []; seq_num = n; exited = false }
unfolding read_loop
read_loop-nil n = refl

-- What is read of messages before the sign to end is written.
read_loop-unended :
    (n : ℕ) (messages : List Chars)
    → AllLoggable messages
    → (buffers : List Chars) × (last : Chars) × (write_all messages ≡ some (buffers ++ last ∷ []))
      × (read_loop n buffers
          ≡ record { lines = numbered n messages; seq_num = n + length messages; exited = false })
unfolding AllLoggable numbered
read_loop-unended n [] loggable = (
  [],
  buffer_of end_proc,
  write_all-nil (buffer_of end_proc) (write_to_log_process-buffer_of end_proc end_proc-Loggable.2),
  read_loop-nil n ∙ ap (λ k. record { lines = []; seq_num = k; exited = false }) (add_nil n),
)
read_loop-unended n (m ∷ ms) (fits, ne, loggable) =
    let (buffers, last, written, read) = read_loop-unended (n + 1) ms loggable in
    (
      buffer_of m ∷ buffers,
      last,
      write_all-cons m (buffer_of m) ms (buffers ++ last ∷ [])
          (write_to_log_process-buffer_of m fits.2) written,
      read_loop-message n m buffers fits ne
          ∙ ap (log_line n m) read
          ∙ ap
              (λ k. record {
                lines = record { seq_num = n; text = m } ∷ numbered (n + 1) ms;
                seq_num = k;
                exited = false;
              })
              (add_suc n (length ms)),
    )

-- If all messages of the gateway can be logged and it ends without the last write, END_PROC, then
-- the child has appended exactly the messages, numbered in their order, and has not exited,
-- however often it reads the end of the pipe.
pub child_loop-unended :
    (n k : ℕ) (messages : List Chars)
    → AllLoggable messages
    → (buffers : List Chars) × (last : Chars) × (write_all messages ≡ some (buffers ++ last ∷ []))
      × (child_loop n (map bytes buffers ++ ends_of_file k)
          ≡ record { lines = numbered n messages; seq_num = n + length messages; exited = false })
child_loop-unended n k messages loggable =
    let (buffers, last, written, read) = read_loop-unended n messages loggable in
    (buffers, last, written, child_loop-read_loop n k buffers ∙ read)

-- ===== src/Logger/RoundTrip.antt =====
-- main.c: the log file gets what was logged.
use osc_final_lab.Common.{
  ℕ, suc, ◌+◌, ◌≡◌, ◌≢◌, refl, ap, ◌∙◌, true, false, some, List, [], ◌∷◌, ◌++◌, ◌==◌, length,
  if◌then◌else◌, Bool-cases, inl, inr, arith,
}
use osc_final_lab.Logger.Framing.{
  Plain, Loggable, buffer_of, write_to_log_process-buffer_of, tokens-buffer_of,
}
use osc_final_lab.Logger.{
  Chars, write_to_log_process, end_proc, same_chars, tokens, c_string, token_loop, read_loop,
  write_all, with_buffer, LogLine, log_line,
}

same_chars-eq : (cs ds : Chars) → same_chars cs ds ≡ true → cs ≡ ds
unfolding same_chars
same_chars-eq [] [] h = refl
same_chars-eq [] (d ∷ ds) h = cc
same_chars-eq (c ∷ cs) [] h = cc
same_chars-eq (c ∷ cs) (d ∷ ds) h = elim (Bool-cases (c == d)) [
  | inl same ↦
      let tails : same_chars cs ds ≡ true = (rw same at h) in
      (λ i. head_eq c d same i ∷ same_chars-eq cs ds tails i)
  | inr other ↦ let no : false ≡ true = (rw other at h) in cc
]
  where
    head_eq : (c d : ℕ) → (c == d) ≡ true → c ≡ d
    head_eq c d h = ground arith

same_chars-ne : (cs ds : Chars) → cs ≢ ds → same_chars cs ds ≡ false
same_chars-ne cs ds ne = elim (Bool-cases (same_chars cs ds)) [
  | inl same ↦ absurd (ne (same_chars-eq cs ds same))
  | inr other ↦ other
]

-- Messages that can be logged, and none of which is the sign to end.
unfoldable pub AllLoggable : List Chars → Type 0
AllLoggable [] = Unit {0}
AllLoggable (m ∷ ms) = Loggable m × (m ≢ end_proc) × AllLoggable ms

-- the lines for messages, numbered from `n` on
unfoldable pub numbered : ℕ → List Chars → List LogLine
numbered n [] = []
numbered n (m ∷ ms) = record { seq_num = n; text = m } ∷ numbered (n + 1) ms

pub end_proc-Loggable : Loggable end_proc
unfolding Plain
end_proc-Loggable = (
  (λ e. cc),
  (
    omega arith,
    omega arith,
    (
      omega arith,
      omega arith,
      (
        omega arith,
        omega arith,
        (
          omega arith,
          omega arith,
          (
            omega arith,
            omega arith,
            (omega arith, omega arith, (omega arith, omega arith, (omega arith, omega arith, tt))),
          ),
        ),
      ),
    ),
  ),
  omega arith,
)

-- A buffer that holds one token.
read_loop-single :
    (n : ℕ) (buffer m : Chars) (buffers : List Chars)
    → tokens [] (c_string buffer) ≡ m ∷ []
    → read_loop n (buffer ∷ buffers) ≡ (
        if same_chars m end_proc
        then record { lines = []; seq_num = n; exited = true }
        else log_line n m (read_loop (n + 1) buffers))
unfolding read_loop token_loop
read_loop-single n buffer m buffers one = rw one (elim (Bool-cases (same_chars m end_proc)) [
  | inl sign ↦ rw sign refl
  | inr other ↦ rw other refl
])

read_loop-end_proc :
    (n : ℕ) (later : List Chars)
    → read_loop n (buffer_of end_proc ∷ later) ≡ record { lines = []; seq_num = n; exited = true }
unfolding same_chars
read_loop-end_proc n later =
    read_loop-single n (buffer_of end_proc) end_proc later
      (tokens-buffer_of end_proc end_proc-Loggable)

pub read_loop-message :
    (n : ℕ) (m : Chars) (buffers : List Chars)
    → Loggable m
    → m ≢ end_proc
    → read_loop n (buffer_of m ∷ buffers) ≡ log_line n m (read_loop (n + 1) buffers)
read_loop-message n m buffers loggable ne =
    read_loop-single n (buffer_of m) m buffers (tokens-buffer_of m loggable)
    ∙ rw (same_chars-ne m end_proc ne) refl

pub write_all-nil :
    (b : Chars) → write_to_log_process end_proc ≡ some b → write_all [] ≡ some (b ∷ [])
unfolding write_all
write_all-nil b e = ap (λ o. with_buffer o (some [])) e

pub write_all-cons :
    (m b : Chars) (ms bs : List Chars)
    → write_to_log_process m ≡ some b
    → write_all ms ≡ some bs
    → write_all (m ∷ ms) ≡ some (b ∷ bs)
unfolding write_all
write_all-cons m b ms bs e f =
    ap (λ o. with_buffer o (write_all ms)) e ∙ ap (with_buffer (some b)) f

pub add_nil : (n : ℕ) → n ≡ n + 0
add_nil n = omega arith

pub add_suc : (n k : ℕ) → n + 1 + k ≡ n + suc k
add_suc n k = omega arith

-- If every message is not empty, has no NUL and no delimiter, is at most SIZE - 2 characters long
-- and is not END_PROC, then writing the messages and then END_PROC does not overflow the buffer,
-- and the child appends exactly these messages as lines, numbered in their order, and exits,
-- whatever else is in the pipe.
pub read_loop-write_all :
    (n : ℕ) (messages later : List Chars)
    → AllLoggable messages
    → (buffers : List Chars) × (write_all messages ≡ some buffers)
      × (read_loop n (buffers ++ later)
          ≡ record { lines = numbered n messages; seq_num = n + length messages; exited = true })
unfolding AllLoggable numbered
read_loop-write_all n [] later loggable = (
  buffer_of end_proc ∷ [],
  write_all-nil (buffer_of end_proc) (write_to_log_process-buffer_of end_proc end_proc-Loggable.2),
  read_loop-end_proc n later
      ∙ ap (λ k. record { lines = []; seq_num = k; exited = true }) (add_nil n),
)
read_loop-write_all n (m ∷ ms) later (fits, ne, loggable) =
    let (buffers, written, read) = read_loop-write_all (n + 1) ms later loggable in
    (
      buffer_of m ∷ buffers,
      write_all-cons m (buffer_of m) ms buffers (write_to_log_process-buffer_of m fits.2) written,
      read_loop-message n m (buffers ++ later) fits ne
          ∙ ap (log_line n m) read
          ∙ ap
              (λ k. record {
                lines = record { seq_num = n; text = m } ∷ numbered (n + 1) ms;
                seq_num = k;
                exited = true;
              })
              (add_suc n (length ms)),
    )

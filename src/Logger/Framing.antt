-- ===== src/Logger/Framing.antt =====
-- main.c: what the child finds in a buffer is the message that was written to it.
use osc_final_lab.Common.{
  ℕ, zero, suc, ◌+◌, ◌-◌, ◌<◌, ◌≡◌, ◌≢◌, refl, sym, ap, ◌∙◌, some, [], ◌∷◌, ◌++◌, ==_of_ne,
  ltb_of_lt, length,
}
use mathlib.Core.List.{append_assoc, append-nil}
use osc_final_lab.Logger.{
  Chars, size, delimiter, zeros, write_to_log_process, c_string, token, tokens,
}

-- No character is NUL or the delimiter.
unfoldable pub Plain : Chars → Type 0
Plain [] = Unit {0}
Plain (c ∷ cs) = (c ≢ 0) × (c ≢ delimiter) × Plain cs

-- A message that can be logged: it is not empty, it is plain, and it fits with the delimiter and a NUL.
abbrev pub Loggable : Chars → Type 0
Loggable message = (message ≢ []) × Plain message × (length message + 1 < size)

abbrev pub buffer_of : Chars → Chars
buffer_of message = message ++ delimiter ∷ zeros (size - length message - 1)

pub write_to_log_process-buffer_of :
    (message : Chars)
    → length message + 1 < size
    → write_to_log_process message ≡ some (buffer_of message)
unfolding write_to_log_process
write_to_log_process-buffer_of message fits = rw (ltb_of_lt (length message + 1) size fits) refl

c_string-zeros : (n : ℕ) → c_string (zeros n) ≡ []
unfolding c_string zeros
c_string-zeros zero = refl
c_string-zeros (suc n) = refl

c_string-append : (cs ds : Chars) → Plain cs → c_string (cs ++ ds) ≡ cs ++ c_string ds
unfolding c_string Plain
c_string-append [] ds plain = refl
c_string-append (c ∷ cs) ds (some_char, _, plain) =
    rw (==_of_ne c 0 some_char) (ap (c ∷◌) (c_string-append cs ds plain))

c_string-delimiter : (cs : Chars) → c_string (delimiter ∷ cs) ≡ delimiter ∷ c_string cs
unfolding c_string
c_string-delimiter cs = refl

tokens-Plain :
    (so_far cs : Chars) → Plain cs → tokens so_far (cs ++ delimiter ∷ []) ≡ token (so_far ++ cs)
unfolding tokens Plain token
tokens-Plain so_far [] plain = append-nil (token so_far) ∙ ap token (sym (append-nil so_far))
tokens-Plain so_far (c ∷ cs) (_, inner, plain) =
    rw (==_of_ne c delimiter inner)
      (tokens-Plain (so_far ++ c ∷ []) cs plain ∙ ap token (append_assoc so_far (c ∷ []) cs))

token-single : (cs : Chars) → cs ≢ [] → token cs ≡ cs ∷ []
unfolding token
token-single [] ne = absurd (ne refl)
token-single (c ∷ cs) ne = refl

-- If a message is not empty, has no NUL and no delimiter and is at most SIZE - 2 characters long,
-- the calls of `strtok` on the buffer that is written for it return the message and nothing else.
pub tokens-buffer_of :
    (message : Chars) → Loggable message → tokens [] (c_string (buffer_of message)) ≡ message ∷ []
tokens-buffer_of message (filled, plain, fits) =
    ap (tokens []) (
      c_string-append message (delimiter ∷ zeros (size - length message - 1)) plain
      ∙ ap (λ l. message ++ l)
          (c_string-delimiter (zeros (size - length message - 1))
            ∙ ap (delimiter ∷◌) (c_string-zeros (size - length message - 1))))
    ∙ tokens-Plain [] message plain
    ∙ token-single message filled

-- ===== src/Logger/Tests.antt =====
-- main.c: the log process at concrete inputs.
use osc_final_lab.Common.{false, ◌≡◌, ◌+◌, true, some, List, [], ◌∷◌, ◌++◌, map, arith}
use osc_final_lab.Logger.Child.{bytes, child_loop, ends_of_file, child_loop-unended}
use osc_final_lab.Logger.Framing.{Plain, Loggable}
use osc_final_lab.Logger.RoundTrip.{AllLoggable, numbered, read_loop-write_all}
use osc_final_lab.Logger.{Chars, read_loop, write_all}

-- "Hi"
abbrev hi : Chars
hi = 72 ∷ 105 ∷ []

hi-Loggable : Loggable hi
unfolding Plain
hi-Loggable = (λ e. cc, (omega arith, omega arith, (omega arith, omega arith, tt)), omega arith)

two-AllLoggable : AllLoggable (hi ∷ hi ∷ [])
unfolding AllLoggable
two-AllLoggable = (hi-Loggable, λ e. cc, (hi-Loggable, λ e. cc, tt))

read_loop-write_all_example :
    (buffers : List Chars) × (write_all (hi ∷ hi ∷ []) ≡ some buffers)
    × (read_loop 0 (buffers ++ hi ∷ [])
        ≡ record { lines = numbered 0 (hi ∷ hi ∷ []); seq_num = 0 + 2; exited = true })
read_loop-write_all_example = read_loop-write_all 0 (hi ∷ hi ∷ []) (hi ∷ []) two-AllLoggable

child_loop-unended_example :
    (buffers : List Chars) × (last : Chars) × (write_all (hi ∷ hi ∷ [])
      ≡ some (buffers ++ last ∷ []))
    × (child_loop 0 (map bytes buffers ++ ends_of_file 3)
        ≡ record { lines = numbered 0 (hi ∷ hi ∷ []); seq_num = 0 + 2; exited = false })
child_loop-unended_example = child_loop-unended 0 3 (hi ∷ hi ∷ []) two-AllLoggable

-- ===== src/CString.antt =====
-- What the programs use of <stdio.h>, <string.h> and <stdlib.h>. A string is the list of its
-- characters before the NUL, and a character is a number.
pub mod Decimal
pub mod Progress
mod Tests
use Prim.Native.Nat.{ℕ}
use osc_final_lab.Common.{
  zero, suc, ◌+◌, ◌-◌, ◌*◌, ◌/◌, ◌%◌, Bool, true, false, ◌&&◌, ◌||◌, Option, none, some, List, [],
  ◌∷◌, ◌==◌, leb, ltb, if◌then◌else◌, ℤ, pos, negsuc, pred_ℤ,
}
use osc_final_lab.Config.{u16_mod}
use osc_final_lab.Dplist.{int_max}

abbrev pub Chars : Type 0
Chars = List ℕ

pub data ExitStatus : Type 0 where
  exit_success : ExitStatus
  exit_failure : ExitStatus

-- `isspace` and `isdigit`
abbrev pub is_space : ℕ → Bool
is_space c = (c == 32) || (leb 9 c && leb c 13)

abbrev pub is_digit : ℕ → Bool
is_digit c = leb b'0' c && leb c b'9'

-- The number that the digits in front stand for, after those that stand for `n`, and what follows them.
unfoldable pub digits : ℕ → Chars → ℕ × Chars
digits n [] = (n, [])
digits n (c ∷ cs) =
    let more = digits (10 * n + (c - b'0')) cs in if is_digit c then more else (n, c ∷ cs)

-- a number that an `int` cannot hold is undefined
abbrev pub positive : ℕ → Option ℤ
positive n = if leb n int_max then some (pos n) else none

abbrev pub negative : ℕ → Option ℤ
negative zero = some (pos 0)
negative (suc n) = if leb n int_max then some (negsuc n) else none

signed : Chars → Option ℤ
signed [] = some (pos 0)
signed (c ∷ cs) =
    if c == b'-'
    then negative (digits 0 cs).0
    else if c == b'+'
    then positive (digits 0 cs).0
    else positive (digits 0 (c ∷ cs)).0

unfoldable pub skip_spaces : Chars → Chars
skip_spaces [] = []
skip_spaces (c ∷ cs) = let rest = skip_spaces cs in if is_space c then rest else c ∷ cs

-- `atoi`; `none` if the number does not fit, which is undefined
unfoldable pub atoi : Chars → Option ℤ
unfolding signed skip_spaces digits
atoi cs = signed (skip_spaces cs)

-- `strncpy` of a string into a buffer that holds `old` before its NUL, `n` of it
abbrev pub first_chars : ℕ → Chars → Chars
first_chars zero cs = []
first_chars (suc n) [] = []
first_chars (suc n) (c ∷ cs) = c ∷ first_chars n cs

-- `%hu` of `fscanf`: the number, modulo 2 ^ 16, and what follows it
scan_digits : (sign : Bool) → Chars → Option (ℕ × Chars)
scan_digits negated [] = none
scan_digits negated (c ∷ cs) =
    let (n, rest) = digits 0 (c ∷ cs) in
    if is_digit c
    then some (if negated then (u16_mod - n % u16_mod) % u16_mod else n % u16_mod, rest)
    else none

scan_signed : Chars → Option (ℕ × Chars)
unfolding scan_digits
scan_signed [] = none
scan_signed (c ∷ cs) =
    if c == b'-'
    then scan_digits true cs
    else if c == b'+'
    then scan_digits false cs
    else scan_digits false (c ∷ cs)

unfoldable pub scan_hu : Chars → Option (ℕ × Chars)
unfolding scan_signed skip_spaces digits
scan_hu cs = scan_signed (skip_spaces cs)

-- `%hu` of `fprintf`: the digits of a number, in front of `rest`
unfoldable pub decimal : (fuel : ℕ) → ℕ → (rest : Chars) → Chars
decimal zero n rest = rest
decimal (suc fuel) n rest =
    let more = decimal fuel (n / 10) ((b'0' + n % 10) ∷ rest) in
    if ltb n 10 then (b'0' + n) ∷ rest else more

-- an `int` that is stored in a `uint16_t`
abbrev pub to_u16 : ℤ → ℕ
to_u16 (pos n) = n % u16_mod
to_u16 (negsuc n) = u16_mod - 1 - n % u16_mod

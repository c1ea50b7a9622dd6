-- ===== src/CString/Decimal.antt =====
-- Printing a number and reading it again.
use osc_final_lab.Common.{
  ℕ, zero, suc, ◌+◌, ◌-◌, ◌*◌, ◌/◌, ◌%◌, ◌<◌, ◌≡◌, refl, sym, ap, ◌∙◌, true, false, some, ◌∷◌, ◌++◌,
  ◌==◌, ltb, Bool-cases, inl, inr, arith,
}
use native.Mathlib.Nat.{mod-eq_of_lt}
use osc_final_lab.Config.{u16_mod}
use osc_final_lab.CString.{
  Chars, is_digit, is_space, digits, scan_digits, scan_signed, skip_spaces, scan_hu, decimal,
}

digits-digit : (n d : ℕ) (cs : Chars) → d < 10 → digits n ((b'0' + d) ∷ cs) ≡ digits (10 * n + d) cs
unfolding digits
digits-digit n d cs lt =
    let is : is_digit (b'0' + d) ≡ true = ground arith in
    let shifts : b'0' + d - b'0' ≡ d = omega arith in rw (is, shifts) refl

pub digits-decimal :
    (fuel n : ℕ) (rest : Chars) → n < fuel → digits 0 (decimal fuel n rest) ≡ digits n rest
unfolding decimal
digits-decimal zero n rest lt = absurd (omega arith)
digits-decimal (suc fuel) n rest lt = elim (Bool-cases (ltb n 10)) [
  | inl small ↦
      let same : 10 * 0 + n ≡ n = omega arith in
      rw small (digits-digit 0 n rest (ground arith) ∙ ap (λ k. digits k rest) same)
  | inr large ↦
      let whole : 10 * (n / 10) + n % 10 ≡ n = omega arith in
      rw large (
        digits-decimal fuel (n / 10) ((b'0' + n % 10) ∷ rest) (ground arith)
        ∙ digits-digit (n / 10) (n % 10) rest (omega arith)
        ∙ ap (λ k. digits k rest) whole)
]

-- The first digit.
pub decimal-cons :
    (fuel n : ℕ) (rest : Chars)
    → n < fuel
    → (c : ℕ) × (cs : Chars) × (decimal fuel n rest ≡ c ∷ cs) × (is_digit c ≡ true)
unfolding decimal
decimal-cons zero n rest lt = absurd (omega arith)
decimal-cons (suc fuel) n rest lt = elim (Bool-cases (ltb n 10)) [
  | inl small ↦ (b'0' + n, rest, rw small refl, ground arith)
  | inr large ↦ rw large (decimal-cons fuel (n / 10) ((b'0' + n % 10) ∷ rest) (ground arith))
]

pub digits-stop :
    (n c : ℕ) (rest : Chars) → is_digit c ≡ false → digits n (c ∷ rest) ≡ (n, c ∷ rest)
unfolding digits
digits-stop n c rest stops = rw stops refl

not_space : (c : ℕ) → is_digit c ≡ true → is_space c ≡ false
not_space c is = ground arith

skip_spaces-digit : (c : ℕ) (cs : Chars) → is_digit c ≡ true → skip_spaces (c ∷ cs) ≡ c ∷ cs
unfolding skip_spaces
skip_spaces-digit c cs is = rw (not_space c is) refl

pub not_minus : (c : ℕ) → is_digit c ≡ true → (c == b'-') ≡ false
not_minus c is = ground arith

not_plus : (c : ℕ) → is_digit c ≡ true → (c == b'+') ≡ false
not_plus c is = ground arith

scan_signed-digit :
    (c : ℕ) (cs : Chars) → is_digit c ≡ true → scan_signed (c ∷ cs) ≡ scan_digits false (c ∷ cs)
unfolding scan_signed
scan_signed-digit c cs is = rw (not_minus c is, not_plus c is) refl

scan_digits-digit :
    (c : ℕ) (cs rest : Chars) (n : ℕ)
    → is_digit c ≡ true
    → digits 0 (c ∷ cs) ≡ (n, rest)
    → n < u16_mod
    → scan_digits false (c ∷ cs) ≡ some (n, rest)
unfolding scan_digits
scan_digits-digit c cs rest n is reads fits =
    rw (is, reads) (ap (λ k. some (k, rest)) (mod-eq_of_lt fits))

-- A number below 2 ^ 16 is read back, up to what follows it.
pub scan_hu-decimal :
    (fuel n c : ℕ) (rest : Chars)
    → n < fuel
    → n < u16_mod
    → is_digit c ≡ false
    → scan_hu (decimal fuel n (c ∷ rest)) ≡ some (n, c ∷ rest)
unfolding scan_hu
scan_hu-decimal fuel n c rest enough fits stops =
    let (d, ds, first, is) = decimal-cons fuel n (c ∷ rest) enough in
    let reads : digits 0 (d ∷ ds) ≡ (n, c ∷ rest) =
      ap (digits 0) (sym first)
      ∙ digits-decimal fuel n (c ∷ rest) enough
      ∙ digits-stop n c rest stops in
    rw (first, skip_spaces-digit d ds is)
      (scan_signed-digit d ds is ∙ scan_digits-digit d ds (c ∷ rest) n is reads fits)

pub append-decimal :
    (fuel n : ℕ) (rest more : Chars) → decimal fuel n rest ++ more ≡ decimal fuel n (rest ++ more)
unfolding decimal
append-decimal zero n rest more = refl
append-decimal (suc fuel) n rest more = elim (Bool-cases (ltb n 10)) [
  | inl small ↦ rw small refl
  | inr large ↦ rw large (append-decimal fuel (n / 10) ((b'0' + n % 10) ∷ rest) more)
]

-- Blanks and line ends are skipped.
pub scan_hu-space : (cs : Chars) → scan_hu (32 ∷ cs) ≡ scan_hu cs
unfolding scan_hu skip_spaces
scan_hu-space cs = refl

pub scan_hu-newline : (cs : Chars) → scan_hu (10 ∷ cs) ≡ scan_hu cs
unfolding scan_hu skip_spaces
scan_hu-newline cs = refl

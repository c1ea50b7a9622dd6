-- ===== src/CString/Progress.antt =====
-- Reading a number takes at least one character.
use osc_final_lab.Common.{
  ℕ, ◌+◌, ◌-◌, ◌*◌, ◌≤◌, ◌<◌, ◌≡◌, refl, true, false, Bool, Option, none, some, [], ◌∷◌, ◌==◌,
  Bool-cases, inl, inr, length, arith, ap,
}
use osc_final_lab.CString.{
  Chars, is_digit, is_space, digits, scan_digits, scan_signed, skip_spaces, scan_hu,
}

length-digits : (n : ℕ) (cs : Chars) → length (digits n cs).1 ≤ length cs
unfolding digits
length-digits n [] = omega arith
length-digits n (c ∷ cs) = elim (Bool-cases (is_digit c)) [
  | inl is ↦ rw is (omega (arith, length-digits (10 * n + (c - b'0')) cs))
  | inr stops ↦ rw stops (omega arith)
]

length-skip_spaces : (cs : Chars) → length (skip_spaces cs) ≤ length cs
unfolding skip_spaces
length-skip_spaces [] = omega arith
length-skip_spaces (c ∷ cs) = elim (Bool-cases (is_space c)) [
  | inl is ↦ rw is (omega (arith, length-skip_spaces cs))
  | inr stops ↦ rw stops (omega arith)
]

digits-cons :
    (n c : ℕ) (cs : Chars) → is_digit c ≡ true → digits n (c ∷ cs) ≡ digits (10 * n + (c - b'0')) cs
unfolding digits
digits-cons n c cs is = rw is refl

-- what a number that was read leaves
abbrev remaining : Option (ℕ × Chars) → Chars
remaining none = []
remaining (some (n, rest)) = rest

length-scan_digits :
    (sign : Bool) (cs : Chars) (n : ℕ) (rest : Chars)
    → scan_digits sign cs ≡ some (n, rest)
    → length rest < length cs
unfolding scan_digits
length-scan_digits sign [] n rest reads = absurd (cc)
length-scan_digits sign (c ∷ cs) n rest reads = elim (Bool-cases (is_digit c)) [
  | inl is ↦
      let same : (digits 0 (c ∷ cs)).1 ≡ rest = ap (λ o. remaining o) (rw is at reads) in
      let fewer = length-digits (10 * 0 + (c - b'0')) cs in
      rw (← same) (rw (digits-cons 0 c cs is) (omega arith))
  | inr stops ↦ let no_number : none ≡ some (n, rest) = (rw stops at reads) in cc
]

length-scan_signed :
    (cs : Chars) (n : ℕ) (rest : Chars) → scan_signed cs ≡ some (n, rest) → length rest < length cs
unfolding scan_signed
length-scan_signed [] n rest reads = absurd (cc)
length-scan_signed (c ∷ cs) n rest reads = elim (Bool-cases (c == b'-')) [
  | inl minus ↦ omega (arith, length-scan_digits true cs n rest (rw minus at reads))
  | inr other ↦ elim (Bool-cases (c == b'+')) [
    | inl plus ↦ omega (arith, length-scan_digits false cs n rest (rw (other, plus) at reads))
    | inr digit ↦ length-scan_digits false (c ∷ cs) n rest (rw (other, digit) at reads)
  ]
]

pub length-scan_hu :
    (cs : Chars) (n : ℕ) (rest : Chars) → scan_hu cs ≡ some (n, rest) → length rest < length cs
unfolding scan_hu
length-scan_hu cs n rest reads =
    omega (arith, length-scan_signed (skip_spaces cs) n rest reads, length-skip_spaces cs)

-- ===== src/Dplist/Spec.antt =====
-- lib/dplist.h: what the operations promise, on plain lists. An index below 0 counts as 0, and one
-- past the end as the last element, or as the end for an insertion.
use osc_final_lab.Common.{
  sym, ◌∙◌, ℕ, zero, suc, ◌+◌, ◌-◌, ◌≤◌, ◌<◌, ◌≡◌, refl, ap, Option, none, some, List, [], ◌∷◌,
  ◌++◌, arith, length,
}

module _ {ℓ} {A : Type ℓ} where
  unfoldable pub insert_at : ℕ → A → List A → List A
  insert_at zero a xs = a ∷ xs
  insert_at (suc i) a [] = a ∷ []
  insert_at (suc i) a (x ∷ xs) = x ∷ insert_at i a xs

  unfoldable pub remove_at : ℕ → List A → List A
  remove_at i [] = []
  remove_at i (x ∷ []) = []
  remove_at zero (x ∷ y ∷ xs) = y ∷ xs
  remove_at (suc i) (x ∷ y ∷ xs) = x ∷ remove_at i (y ∷ xs)

  unfoldable pub elem_at : ℕ → List A → Option A
  elem_at i [] = none
  elem_at i (x ∷ []) = some x
  elem_at zero (x ∷ y ∷ xs) = some x
  elem_at (suc i) (x ∷ y ∷ xs) = elem_at i (y ∷ xs)

  pub length-insert_at : (i : ℕ) (a : A) (xs : List A) → length (insert_at i a xs) ≡ length xs + 1
  unfolding insert_at
  length-insert_at zero a xs = omega arith
  length-insert_at (suc i) a [] = refl
  length-insert_at (suc i) a (x ∷ xs) = omega (arith, length-insert_at i a xs)

  pub length-remove_at : (i : ℕ) (xs : List A) → length (remove_at i xs) ≡ length xs - 1
  unfolding remove_at
  length-remove_at i [] = refl
  length-remove_at i (x ∷ []) = refl
  length-remove_at zero (x ∷ y ∷ xs) = omega arith
  length-remove_at (suc i) (x ∷ y ∷ xs) = omega (arith, length-remove_at i (y ∷ xs))

  pub insert_at_nil : (i : ℕ) (a : A) → insert_at i a [] ≡ a ∷ []
  unfolding insert_at
  insert_at_nil zero a = refl
  insert_at_nil (suc i) a = refl

  -- An insertion at or past the end appends.
  pub insert_at-append :
      (i : ℕ) (a : A) (xs : List A) → length xs ≤ i → insert_at i a xs ≡ xs ++ a ∷ []
  unfolding insert_at
  insert_at-append zero a [] h = refl
  insert_at-append zero a (x ∷ xs) h = absurd (omega arith)
  insert_at-append (suc i) a [] h = refl
  insert_at-append (suc i) a (x ∷ xs) h = ap (x ∷◌) (insert_at-append i a xs (omega arith))

  elem_at-zero : (a : A) (xs : List A) → elem_at zero (a ∷ xs) ≡ some a
  unfolding elem_at
  elem_at-zero a [] = refl
  elem_at-zero a (x ∷ xs) = refl

  elem_at_single : (i : ℕ) (a : A) → elem_at i (a ∷ []) ≡ some a
  unfolding elem_at
  elem_at_single zero a = refl
  elem_at_single (suc i) a = refl

  pub elem_at-cons :
      (i : ℕ) (x : A) (ys : List A) → 0 < length ys → elem_at (suc i) (x ∷ ys) ≡ elem_at i ys
  unfolding elem_at
  elem_at-cons i x [] h = absurd (omega arith)
  elem_at-cons i x (y ∷ ys) h = refl

  -- What was inserted is found at its index.
  pub elem_at-insert_at : (i : ℕ) (a : A) (xs : List A) → elem_at i (insert_at i a xs) ≡ some a
  unfolding insert_at
  elem_at-insert_at zero a xs = elem_at-zero a xs
  elem_at-insert_at (suc i) a [] = elem_at_single (suc i) a
  elem_at-insert_at (suc i) a (x ∷ xs) =
      elem_at-cons i x (insert_at i a xs) (omega (arith, length-insert_at i a xs))
      ∙ elem_at-insert_at i a xs

  -- Past the end the last element is meant.
  pub remove_at_last :
      (i : ℕ) (x : A) (xs : List A)
      → length xs ≤ i
      → remove_at (length xs) (x ∷ xs) ≡ remove_at i (x ∷ xs)
  unfolding remove_at
  remove_at_last i x [] h = refl
  remove_at_last zero x (y ∷ xs) h = absurd (omega arith)
  remove_at_last (suc i) x (y ∷ xs) h = ap (x ∷◌) (remove_at_last i y xs (omega arith))

  pub elem_at_last :
      (i : ℕ) (x : A) (xs : List A)
      → length xs ≤ i
      → elem_at (length xs) (x ∷ xs) ≡ elem_at i (x ∷ xs)
  elem_at_last i x [] h = elem_at_single zero x ∙ sym (elem_at_single i x)
  elem_at_last zero x (y ∷ xs) h = absurd (omega arith)
  elem_at_last (suc i) x (y ∷ xs) h =
      elem_at-cons (length xs) x (y ∷ xs) (omega arith)
      ∙ elem_at_last i y xs (omega arith)
      ∙ sym (elem_at-cons i x (y ∷ xs) (omega arith))

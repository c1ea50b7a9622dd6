-- ===== src/Datamgr/Window.antt =====
-- datamgr.c: the readings that are kept of one sensor are the last five.
use osc_final_lab.Common.{
  ℕ, zero, suc, ◌+◌, ◌-◌, ◌≤◌, ◌≡◌, refl, sym, ap, ◌∙◌, List, [], ◌∷◌, ◌++◌, length, drop,
  length-append, length-drop, arith, ◌==◌, ==_of_ne, ==_of_eq, Bool-cases, ◌⊎◌, inl, inr,
}
use osc_final_lab.Config.{SensorData, run_avg_length}
use osc_final_lab.Dplist.Spec.{insert_at, remove_at, insert_at-append}
use osc_final_lab.Datamgr.{insert_reading}

suc-add : (n m : ℕ) → suc n + m ≡ suc (n + m)
suc-add n m = omega arith

module _ {A : Type 0} where
  -- the last five, or all if there are fewer
  unfoldable pub window : List A → List A
  window xs = drop (length xs - run_avg_length) xs

  drop-nil : (n : ℕ) → drop {A = A} n [] ≡ []
  drop-nil zero = refl
  drop-nil (suc n) = refl

  drop-append : (n : ℕ) (xs ys : List A) → n ≤ length xs → drop n xs ++ ys ≡ drop n (xs ++ ys)
  drop-append zero xs ys h = refl
  drop-append (suc n) [] ys h = absurd (omega arith)
  drop-append (suc n) (x ∷ xs) ys h = drop-append n xs ys (omega arith)

  drop-drop : (m n : ℕ) (xs : List A) → drop m (drop n xs) ≡ drop (n + m) xs
  drop-drop m zero xs = ap (λ k. drop k xs) (omega arith)
  drop-drop m (suc n) [] = drop-nil m ∙ sym (drop-nil (suc n + m))
  drop-drop m (suc n) (x ∷ xs) = drop-drop m n xs ∙ sym (ap (λ k. drop k (x ∷ xs)) (suc-add n m))

  pub window_of_le : (xs : List A) → length xs ≤ run_avg_length → window xs ≡ xs
  unfolding window
  window_of_le xs h =
      let none_over : length xs - run_avg_length ≡ 0 = omega arith in ap (λ k. drop k xs) none_over

  pub length-window : (xs : List A) → length (window xs) ≤ run_avg_length
  unfolding window
  length-window xs = omega (arith, length-drop (length xs - run_avg_length) xs)

  -- What was dropped before does not matter later.
  pub window-append : (xs ys : List A) → window (window xs ++ ys) ≡ window (xs ++ ys)
  unfolding window
  window-append xs ys =
      let k = length xs - run_avg_length in
      rw
        (
          drop-append k xs ys (omega arith),
          drop-drop (length (drop k (xs ++ ys)) - run_avg_length) k (xs ++ ys),
        )
        (ap (λ n. drop n (xs ++ ys)) (omega (arith, length-drop k (xs ++ ys), length-append xs ys)))

  pub remove_at-first : (x : A) (xs : List A) → remove_at 0 (x ∷ xs) ≡ xs
  unfolding remove_at
  remove_at-first x [] = refl
  remove_at-first x (y ∷ ys) = refl

module _ {V : Type 0} where
  length-cases :
      (xs : List (SensorData V))
      → length xs ≤ run_avg_length
      → ((y : SensorData V) × (ys : List (SensorData V)) × (xs ≡ y ∷ ys) × (length ys ≡ 4))
        ⊎ (length xs ≤ 4)
  length-cases [] h = inr (omega arith)
  length-cases (y ∷ ys) h = elim (Bool-cases (length ys == 4)) [
    | inl full ↦ inl (y, ys, refl, ground arith)
    | inr room ↦ inr (ground arith)
  ]

  evict :
      (x y : SensorData V) (ys : List (SensorData V))
      → length ys ≡ 4
      → insert_reading x (y ∷ ys) ≡ window (y ∷ ys ++ x ∷ [])
  unfolding insert_reading window
  evict x y ys full =
      let one_over : length (y ∷ ys ++ x ∷ []) - run_avg_length ≡ 1 =
        omega (arith, length-append ys (x ∷ [])) in
      rw (==_of_eq (suc (length ys)) run_avg_length (omega arith)) (
        ap (insert_at 4 x) (remove_at-first y ys)
        ∙ insert_at-append 4 x ys (omega arith)
        ∙ sym (ap (λ n. drop n (y ∷ ys ++ x ∷ [])) one_over))

  append :
      (x : SensorData V) (xs : List (SensorData V))
      → length xs ≤ 4
      → insert_reading x xs ≡ window (xs ++ x ∷ [])
  unfolding insert_reading
  append x xs room = rw (==_of_ne (length xs) run_avg_length (omega arith)) (
      insert_at-append 4 x xs room
      ∙ sym (window_of_le (xs ++ x ∷ []) (omega (arith, length-append xs (x ∷ [])))))

  -- For at most five readings, removing the first one when there are five and inserting the new
  -- one at index 4 leaves the last five of the readings with the new one at the end.
  pub insert_reading-window :
      (x : SensorData V) (xs : List (SensorData V))
      → length xs ≤ run_avg_length
      → insert_reading x xs ≡ window (xs ++ x ∷ [])
  insert_reading-window x xs h = elim (length-cases xs h) [
    | inl (y, ys, same, full) ↦ rw same (evict x y ys full)
    | inr room ↦ append x xs room
  ]

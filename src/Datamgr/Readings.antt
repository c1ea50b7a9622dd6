-- ===== src/Datamgr/Readings.antt =====
-- datamgr.c: what is kept of each sensor, over any number of readings.
use osc_final_lab.Common.{
  ℕ, ◌≤◌, ◌≡◌, refl, sym, ap, ◌∙◌, true, false, Option, none, some, List, [], ◌∷◌, ◌++◌, ◌==◌,
  Bool-cases, inl, inr, if◌then◌else◌, length, arith, ℤ,
}
use mathlib.Core.List.{append_assoc, append-nil}
use osc_final_lab.Config.{SensorData, run_avg_length}
use osc_final_lab.Sbuffer.{Status, failure, success, no_data}
use osc_final_lab.Datamgr.Window.{
  window, window_of_le, length-window, window-append, insert_reading-window,
}
use osc_final_lab.Datamgr.{Values, Maps, insert_loop, insert_data_point, handle_reading, peek_loop}

module _ {V : Type 0} where
  -- the readings of the first element for a sensor
  unfoldable pub readings_of : ℕ → Maps V → Option (List (SensorData V))
  readings_of j [] = none
  readings_of j (m ∷ ms) =
      let rest = readings_of j ms in if m.sensor_id == j then some m.readings else rest

  -- the readings of one sensor among all readings
  unfoldable pub of_sensor : ℕ → List (SensorData V) → List (SensorData V)
  of_sensor j [] = []
  of_sensor j (x ∷ xs) = let rest = of_sensor j xs in if x.id == j then x ∷ rest else rest

  -- the last five readings of a sensor, after more readings have come
  abbrev pub kept :
      ℕ → List (SensorData V) → Option (List (SensorData V)) → Option (List (SensorData V))
  kept j xs none = none
  kept j xs (some rs) = some (window (rs ++ of_sensor j xs))

  -- No sensor has more than five readings.
  unfoldable pub Bounded : Maps V → Type 0
  Bounded [] = Unit {0}
  Bounded (m ∷ ms) = (length m.readings ≤ run_avg_length) × Bounded ms

  pub insert_loop-Bounded :
      (now : ℤ) (x : SensorData V) (ms : Maps V) → Bounded ms → Bounded (insert_loop now x ms).1
  unfolding insert_loop Bounded
  insert_loop-Bounded now x [] bounded = tt
  insert_loop-Bounded now x (m ∷ ms) (fits, bounded) = elim (Bool-cases (m.sensor_id == x.id)) [
    | inl here ↦
        rw (here, insert_reading-window x m.readings fits)
          (length-window (m.readings ++ x ∷ []), bounded)
    | inr there ↦ rw there (fits, insert_loop-Bounded now x ms bounded)
  ]

  kept-nil : (j : ℕ) (ms : Maps V) → Bounded ms → kept j [] (readings_of j ms) ≡ readings_of j ms
  unfolding readings_of Bounded of_sensor
  kept-nil j [] bounded = refl
  kept-nil j (m ∷ ms) (fits, bounded) = elim (Bool-cases (m.sensor_id == j)) [
    | inl here ↦
        rw here (ap some (ap window (append-nil m.readings) ∙ window_of_le m.readings fits))
    | inr there ↦ rw there (kept-nil j ms bounded)
  ]

  kept-other :
      (x : SensorData V) (j : ℕ) (ms : Maps V)
      → (x.id == j) ≡ false
      → Bounded ms
      → readings_of j ms ≡ kept j (x ∷ []) (readings_of j ms)
  unfolding of_sensor
  kept-other x j ms other bounded =
      sym (kept-nil j ms bounded) ∙ kept-same (rw other) (readings_of j ms)
    where
      kept-same :
          of_sensor j [] ≡ of_sensor j (x ∷ [])
          → (o : Option (List (SensorData V))) → kept j [] o ≡ kept j (x ∷ []) o
      kept-same e none = refl
      kept-same e (some rs) = ap (λ l. some (window (rs ++ l))) e

  pub insert_loop-kept :
      (now : ℤ) (x : SensorData V) (j : ℕ) (ms : Maps V)
      → Bounded ms
      → readings_of j (insert_loop now x ms).1 ≡ kept j (x ∷ []) (readings_of j ms)
  unfolding insert_loop readings_of Bounded of_sensor
  insert_loop-kept now x j [] bounded = refl
  insert_loop-kept now x j (m ∷ ms) (fits, bounded) = elim (Bool-cases (m.sensor_id == x.id)) [
    | inl here ↦ elim (Bool-cases (m.sensor_id == j)) [
      | inl mine ↦
          let same : (x.id == j) ≡ true = ground arith in
          rw (here, mine, same) (ap some (insert_reading-window x m.readings fits))
      | inr other ↦
          let apart : (x.id == j) ≡ false = ground arith in
          rw (here, other) (kept-other x j ms apart bounded)
    ]
    | inr there ↦ elim (Bool-cases (m.sensor_id == j)) [
      | inl mine ↦
          let apart : (x.id == j) ≡ false = ground arith in
          rw (there, mine, apart)
            (ap some (sym (ap window (append-nil m.readings) ∙ window_of_le m.readings fits)))
      | inr other ↦ rw (there, other) (insert_loop-kept now x j ms bounded)
    ]
  ]

  -- One data point goes to the readings of its sensor, of which the last five stay.
  pub insert_data_point-kept :
      (now : ℤ) (x : SensorData V) (j : ℕ) (ms : Maps V)
      → Bounded ms
      → Bounded (insert_data_point now x ms).0
        × (readings_of j (insert_data_point now x ms).0 ≡ kept j (x ∷ []) (readings_of j ms))
  unfolding insert_data_point
  insert_data_point-kept now x j ms bounded =
      (insert_loop-Bounded now x ms bounded, insert_loop-kept now x j ms bounded)

  kept-append :
      (j : ℕ) (x : SensorData V) (xs : List (SensorData V)) (o : Option (List (SensorData V)))
      → kept j xs (kept j (x ∷ []) o) ≡ kept j (x ∷ xs) o
  unfolding of_sensor
  kept-append j x xs none = refl
  kept-append j x xs (some rs) = elim (Bool-cases (x.id == j)) [
    | inl mine ↦ rw mine (
        ap some (
          window-append (rs ++ x ∷ []) (of_sensor j xs)
          ∙ ap window (append_assoc rs (x ∷ []) (of_sensor j xs))))
    | inr other ↦ rw other (
        ap some (
          window-append (rs ++ []) (of_sensor j xs)
          ∙ ap (λ l. window (l ++ of_sensor j xs)) (append-nil rs)))
  ]

  -- what `sbuffer_peek` returned until it first returned something else than SBUFFER_SUCCESS
  unfoldable pub peeked : List (ℤ × Status V) → List (SensorData V)
  peeked [] = []
  peeked ((now, success x) ∷ results) = x ∷ peeked results
  peeked ((now, failure) ∷ results) = []
  peeked ((now, no_data) ∷ results) = []

  -- If no sensor has more than five readings, then none has after the loop of `datamgr_init`
  -- either, and of each sensor the last five of its old readings followed by those that
  -- `sbuffer_peek` returned for it are kept.
  pub peek_loop-kept :
      (values : Values V) (j : ℕ) (results : List (ℤ × Status V)) (ms : Maps V)
      → Bounded ms
      → Bounded (peek_loop values results ms).0
        × (readings_of j (peek_loop values results ms).0
            ≡ kept j (peeked results) (readings_of j ms))
  unfolding peek_loop handle_reading peeked
  peek_loop-kept values j [] ms bounded = (bounded, sym (kept-nil j ms bounded))
  peek_loop-kept values j ((now, success x) ∷ results) ms bounded =
      let (bounded', one) = insert_data_point-kept now x j ms bounded in
      let (bounded'', later) =
        peek_loop-kept values j results (insert_data_point now x ms).0 bounded' in
      (
        bounded'',
        later
            ∙ ap (kept j (peeked results)) one
            ∙ kept-append j x (peeked results) (readings_of j ms),
      )
  peek_loop-kept values j ((now, failure) ∷ results) ms bounded =
      (bounded, sym (kept-nil j ms bounded))
  peek_loop-kept values j ((now, no_data) ∷ results) ms bounded =
      (bounded, sym (kept-nil j ms bounded))

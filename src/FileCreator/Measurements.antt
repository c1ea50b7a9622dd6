-- ===== src/FileCreator/Measurements.antt =====
-- file_creator.c: the records of the binary file.
use osc_final_lab.Common.{
  ℕ, zero, suc, ◌+◌, ◌*◌, ◌<◌, ◌≡◌, true, refl, sym, ap, ◌∙◌, some, List, [], ◌∷◌, ◌++◌, length,
  get_elem?, ℤ, pos, negsuc, add_ℕ, arith,
}
use osc_final_lab.Config.{SensorData}
use osc_final_lab.FileCreator.{
  num_measurements, sleep_time, measure_row, measure_loop, sensors_at, file_creator,
}

module _ {A : Type 0} where
  get_elem?-append_left :
      (xs ys : List A) (i : ℕ) → i < length xs → get_elem? (xs ++ ys) i ≡ get_elem? xs i
  get_elem?-append_left [] ys i lt = absurd (omega arith)
  get_elem?-append_left (x ∷ xs) ys zero lt = refl
  get_elem?-append_left (x ∷ xs) ys (suc i) lt = get_elem?-append_left xs ys i (omega arith)

  get_elem?-append_right :
      (xs ys : List A) (i k : ℕ) → k ≡ length xs + i → get_elem? (xs ++ ys) k ≡ get_elem? ys i
  get_elem?-append_right [] ys i k e = ap (get_elem? ys) (e ∙ omega arith)
  get_elem?-append_right (x ∷ xs) ys i zero e = absurd (omega arith)
  get_elem?-append_right (x ∷ xs) ys i (suc k) e = get_elem?-append_right xs ys i k (omega arith)

  below_length : (xs : List A) (i : ℕ) (x : A) → get_elem? xs i ≡ some x → i < length xs
  below_length [] i x at = absurd (cc)
  below_length (y ∷ xs) zero x at = omega arith
  below_length (y ∷ xs) (suc i) x at = omega (arith, below_length xs i x at)

add_ℕ-add_ℕ : (a : ℤ) (b c : ℕ) → add_ℕ (add_ℕ a b) c ≡ add_ℕ a (b + c)
add_ℕ-add_ℕ (pos n) b c = ap pos (omega arith)
add_ℕ-add_ℕ (negsuc n) b c = ground arith

add_ℕ-zero : (a : ℤ) → add_ℕ a 0 ≡ a
add_ℕ-zero (pos n) = ap pos (omega arith)
add_ℕ-zero (negsuc n) = ground arith

module _ {V D : Type 0} (drift : D → V → V) (draw : (i j : ℕ) → D) where
  length-measure_row :
      (i j : ℕ) (starttime : ℤ) (sensors : List (ℕ × V))
      → (length (measure_row drift draw i j starttime sensors).0 ≡ length sensors)
        × (length (measure_row drift draw i j starttime sensors).1 ≡ length sensors)
  unfolding measure_row
  length-measure_row i j starttime [] = (refl, refl)
  length-measure_row i j starttime (s ∷ sensors) =
      let (records, later) = length-measure_row i (suc j) starttime sensors in
      (ap suc records, ap suc later)

  -- The record of one sensor, and its next temperature.
  measure_row-at :
      (i j k : ℕ) (starttime : ℤ) (sensors : List (ℕ × V)) (sensor : ℕ) (temperature : V)
      → get_elem? sensors k ≡ some (sensor, temperature)
      → (get_elem? (measure_row drift draw i j starttime sensors).0 k
          ≡ some (record { id = sensor; value = temperature; ts = starttime }))
        × (get_elem? (measure_row drift draw i j starttime sensors).1 k
            ≡ some (sensor, drift (draw i (j + k)) temperature))
  unfolding measure_row
  measure_row-at i j k starttime [] sensor temperature at = absurd (cc)
  measure_row-at i j zero starttime ((s, t) ∷ sensors) sensor temperature at =
      let here : j ≡ j + 0 = omega arith in (cc, cc here)
  measure_row-at i j (suc k) starttime ((s, t) ∷ sensors) sensor temperature at =
      let (record_at, later_at) =
        measure_row-at i (suc j) k starttime sensors sensor temperature at in
      let shifted : suc j + k ≡ j + suc k = omega arith in
      (record_at, later_at ∙ ap (λ m. some (sensor, drift (draw i m) temperature)) shifted)

  -- the temperature of sensor `j` after `n` more rounds from round `i` on
  abbrev pub drifted : (j n i : ℕ) → V → V
  drifted j zero i temperature = temperature
  drifted j (suc n) i temperature = drifted j n (suc i) (drift (draw i j) temperature)

  -- The record of a sensor in round `k`.
  pub measure_loop-at :
      (n i k j : ℕ) (starttime : ℤ) (sensors : List (ℕ × V)) (sensor : ℕ) (temperature : V)
      → k < n
      → get_elem? sensors j ≡ some (sensor, temperature)
      → get_elem? (measure_loop drift draw n i starttime sensors) (k * length sensors + j)
        ≡ some (record {
          id = sensor;
          value = drifted j k i temperature;
          ts = add_ℕ starttime (k * sleep_time);
        })
  unfolding measure_loop
  measure_loop-at zero i k j starttime sensors sensor temperature lt at = absurd (omega arith)
  measure_loop-at (suc n) i zero j starttime sensors sensor temperature lt at =
      let row = measure_row drift draw i 0 starttime sensors in
      let below = below_length sensors j (sensor, temperature) at in
      let (len, _) = length-measure_row i 0 starttime sensors in
      let index : 0 * length sensors + j ≡ j = omega arith in
      let rest = measure_loop drift draw n (suc i) (add_ℕ starttime sleep_time) row.1 in
      ap (get_elem? (row.0 ++ rest)) index
      ∙ get_elem?-append_left row.0 rest j (omega arith)
      ∙ (measure_row-at i 0 j starttime sensors sensor temperature at).0
      ∙ ap (λ t. some (record { id = sensor; value = temperature; ts = t }))
          (sym (add_ℕ-zero starttime))
  measure_loop-at (suc n) i (suc k) j starttime sensors sensor temperature lt at =
      let row = measure_row drift draw i 0 starttime sensors in
      let (len, len') = length-measure_row i 0 starttime sensors in
      let (_, next) = measure_row-at i 0 j starttime sensors sensor temperature at in
      let rest = measure_loop drift draw n (suc i) (add_ℕ starttime sleep_time) row.1 in
      let later =
        measure_loop-at n (suc i) k j (add_ℕ starttime sleep_time) row.1 sensor
          (drift (draw i (0 + j)) temperature) (omega arith) next in
      let index : suc k * length sensors + j ≡ length row.0 + (k * length row.1 + j) =
        rw (len, len') (grind arith) in
      let time : sleep_time + k * sleep_time ≡ suc k * sleep_time = omega arith in
      let clock : add_ℕ (add_ℕ starttime sleep_time) (k * sleep_time)
          ≡ add_ℕ starttime (suc k * sleep_time) =
        add_ℕ-add_ℕ starttime sleep_time (k * sleep_time) ∙ ap (add_ℕ starttime) time in
      let same : 0 + j ≡ j = omega arith in
      get_elem?-append_right row.0 rest (k * length row.1 + j) (suc k * length sensors + j) index
      ∙ later
      ∙ rw (same, clock) refl

  -- If both files can be made, the binary file has for each round and each sensor its record, in
  -- this order.
  pub file_creator-measured :
      (degrees : ℕ → V) (k j : ℕ) (starttime : ℤ) (sensor : ℕ) (temperature : V)
      → k < num_measurements
      → get_elem? (sensors_at degrees) j ≡ some (sensor, temperature)
      → (records : List (SensorData V)) × ((file_creator drift draw degrees starttime true
            true).sensor_data
          ≡ some records)
        × (get_elem? records (k * 8 + j)
            ≡ some (record {
              id = sensor;
              value = drifted j k 0 temperature;
              ts = add_ℕ starttime (k * sleep_time);
            }))
  unfolding file_creator
  file_creator-measured degrees k j starttime sensor temperature lt at = (
    _,
    refl,
    measure_loop-at num_measurements 0 k j starttime (sensors_at degrees) sensor temperature lt at,
  )

-- ===== src/Datamgr/Warnings.antt =====
-- datamgr.c: when the data manager warns.
use osc_final_lab.Common.{
  ℕ, ◌≡◌, refl, sym, ap, ◌∙◌, Option, none, some, List, [], ◌∷◌, ◌++◌, ◌==◌, Bool-cases, inl, inr,
  if◌then◌else◌, length, arith, ℤ, ==_of_ne,
}
use osc_final_lab.Config.{SensorData, run_avg_length}
use osc_final_lab.Datamgr.Readings.{readings_of, kept, Bounded, insert_loop-kept}
use osc_final_lab.Datamgr.{
  Values, Maps, Message, too_hot, too_cold, parsed, invalid_id, average, warnings, insert_loop,
  insert_data_point, calculate_average_sensor, handle_reading,
}

module _ {V : Type 0} where
  -- No sensor has two elements.
  unfoldable pub Distinct : Maps V → Type 0
  Distinct [] = Unit {0}
  Distinct (m ∷ ms) = (readings_of m.sensor_id ms ≡ none) × Distinct ms

  -- The messages for what is kept of a sensor, if its readings are five: that the room is too hot if
  -- a fifth of their sum is above SET_MAX_TEMP, and that it is too cold if it is below SET_MIN_TEMP.
  -- There are none for an unknown sensor or another number of readings.
  abbrev pub expected : Values V → ℕ → Option (List (SensorData V)) → List (Message V)
  expected values id (some (a ∷ b ∷ c ∷ d ∷ e ∷ [])) =
      let sum =
        values.add
          (values.add
            (values.add (values.add (values.add values.zero_value a.value) b.value) c.value)
            d.value)
          e.value in
      (if values.is_too_hot (values.divide sum) then too_hot id (values.divide sum) ∷ [] else [])
      ++ (if values.is_too_cold (values.divide sum)
          then too_cold id (values.divide sum) ∷ []
          else [])
  expected values id kept_readings = []

  -- The code's warnings are these.
  expected-average :
      (values : Values V) (id : ℕ) (rs : List (SensorData V))
      → (if length rs == run_avg_length then warnings values id (average values rs) else [])
        ≡ expected values id (some rs)
  expected-average values id [] = refl
  expected-average values id (a ∷ []) = refl
  expected-average values id (a ∷ b ∷ []) = refl
  expected-average values id (a ∷ b ∷ c ∷ []) = refl
  expected-average values id (a ∷ b ∷ c ∷ d ∷ []) = refl
  expected-average values id (a ∷ b ∷ c ∷ d ∷ e ∷ []) = refl
  expected-average values id (a ∷ b ∷ c ∷ d ∷ e ∷ f ∷ more) =
      rw (==_of_ne (length (a ∷ b ∷ c ∷ d ∷ e ∷ f ∷ more)) run_avg_length (omega arith)) refl

  silent :
      (values : Values V) (id : ℕ) (ms : Maps V)
      → readings_of id ms ≡ none
      → calculate_average_sensor values ms id ≡ []
  unfolding calculate_average_sensor readings_of
  silent values id [] unknown = refl
  silent values id (m ∷ ms) unknown = elim (Bool-cases (m.sensor_id == id)) [
    | inl here ↦ let no : some m.readings ≡ none = (rw here at unknown) in cc
    | inr there ↦ rw there (silent values id ms (rw there at unknown))
  ]

  -- If no sensor has two elements, `calculate_average_sensor` logs a warning for each limit that
  -- the average of the sensor's readings is past if there are exactly five, and nothing if there
  -- are not or the sensor is unknown.
  pub calculate_average_sensor-expected :
      (values : Values V) (id : ℕ) (ms : Maps V)
      → Distinct ms
      → calculate_average_sensor values ms id ≡ expected values id (readings_of id ms)
  unfolding calculate_average_sensor readings_of Distinct
  calculate_average_sensor-expected values id [] distinct = refl
  calculate_average_sensor-expected values id (m ∷ ms) (alone, distinct) =
      elim (Bool-cases (m.sensor_id == id)) [
        | inl here ↦
            let same : m.sensor_id ≡ id = ground arith in
            rw (here, sym (expected-average values id m.readings))
              (elim (Bool-cases (length m.readings == run_avg_length)) [
                | inl full ↦ rw full (ap (λ i. warnings values i (average values m.readings)) same)
                | inr fewer ↦
                    rw fewer (silent values id ms (ap (λ i. readings_of i ms) (sym same) ∙ alone))
              ])
        | inr there ↦ rw there (calculate_average_sensor-expected values id ms distinct)
      ]

  Distinct-insert_loop :
      (now : ℤ) (x : SensorData V) (ms : Maps V)
      → Bounded ms
      → Distinct ms
      → Distinct (insert_loop now x ms).1
  unfolding insert_loop Distinct Bounded
  Distinct-insert_loop now x [] bounded distinct = tt
  Distinct-insert_loop now x (m ∷ ms) (fits, bounded) (alone, distinct) =
      elim (Bool-cases (m.sensor_id == x.id)) [
        | inl here ↦ rw here (alone, distinct)
        | inr there ↦ rw there (
          insert_loop-kept now x m.sensor_id ms bounded ∙ ap (kept m.sensor_id (x ∷ [])) alone,
          Distinct-insert_loop now x ms bounded distinct,
        )
      ]

  -- The complaint about a sensor without an element.
  abbrev pub complaint : ℕ → Option (List (SensorData V)) → List (Message V)
  complaint id none = invalid_id id ∷ []
  complaint id (some rs) = []

  insert_data_point-complaint :
      (now : ℤ) (x : SensorData V) (ms : Maps V)
      → (insert_data_point now x ms).1 ≡ complaint x.id (readings_of x.id ms)
  unfolding insert_data_point insert_loop readings_of
  insert_data_point-complaint now x [] = refl
  insert_data_point-complaint now x (m ∷ ms) = elim (Bool-cases (m.sensor_id == x.id)) [
    | inl here ↦ rw here refl
    | inr there ↦ rw there (insert_data_point-complaint now x ms)
  ]

  -- If no sensor has two elements or more than five readings, handling a reading logs in this
  -- order: a complaint if its sensor is unknown; if there are five readings with this one, that
  -- it is too hot if a fifth of the sum of the last five is above SET_MAX_TEMP, and that it is
  -- too cold if it is below SET_MIN_TEMP; and that the reading was parsed.
  pub handle_reading-expected :
      (values : Values V) (now : ℤ) (x : SensorData V) (ms : Maps V)
      → Bounded ms
      → Distinct ms
      → (handle_reading values now x ms).1
        ≡ complaint x.id (readings_of x.id ms)
          ++ expected values x.id (kept x.id (x ∷ []) (readings_of x.id ms))
          ++ parsed x.id ∷ []
  unfolding handle_reading insert_data_point
  handle_reading-expected values now x ms bounded distinct =
      ap (λ l. (insert_data_point now x ms).1 ++ l ++ parsed x.id ∷ [])
        (calculate_average_sensor-expected values x.id (insert_data_point now x ms).0
            (Distinct-insert_loop now x ms bounded distinct)
          ∙ ap (expected values x.id) (insert_loop-kept now x x.id ms bounded))
      ∙ ap
          (λ l.
            l
            ++ expected values x.id (kept x.id (x ∷ []) (readings_of x.id ms))
            ++ parsed x.id ∷ [])
          (insert_data_point-complaint now x ms)

-- ===== src/Pipeline/Sensors.antt =====
-- The whole gateway: the readings of one sensor among those of all.
use osc_final_lab.Common.{
  ℕ, ◌≡◌, ◌⊎◌, inl, inr, refl, sym, ap, ◌∙◌, List, [], ◌∷◌, ◌++◌, ◌==◌, Bool-cases,
}
use mathlib.Core.List.{append-nil}
use osc_final_lab.Config.{SensorData}
use osc_final_lab.Datamgr.Readings.{of_sensor}
use osc_final_lab.Connmgr.Interleaving.{Interleaving, no_lists, more_lists, item, Appends}

module _ {V : Type 0} (j : ℕ) where
  -- No list, and at most one list, has readings of the sensor.
  abbrev pub Foreign : List (List (SensorData V)) → Type 0
  Foreign [] = Unit {0}
  Foreign (xs ∷ ls) = (of_sensor j xs ≡ []) × Foreign ls

  abbrev pub Single : List (List (SensorData V)) → Type 0
  Single [] = Unit {0}
  Single (xs ∷ ls) = ((of_sensor j xs ≡ []) × Single ls) ⊎ Foreign ls

  -- the readings of the sensor in all lists
  unfoldable pub sent_by : List (List (SensorData V)) → List (SensorData V)
  sent_by [] = []
  sent_by (xs ∷ ls) = of_sensor j xs ++ sent_by ls

  of_sensor-snoc :
      (xs : List (SensorData V)) (x : SensorData V)
      → of_sensor j (xs ++ x ∷ []) ≡ of_sensor j xs ++ of_sensor j (x ∷ [])
  unfolding of_sensor
  of_sensor-snoc [] x = refl
  of_sensor-snoc (y ∷ xs) x = elim (Bool-cases (y.id == j)) [
    | inl mine ↦ rw mine (ap (y ∷◌) (of_sensor-snoc xs x))
    | inr other ↦ rw other (of_sensor-snoc xs x)
  ]

  both_nil : (xs ys : List (SensorData V)) → xs ++ ys ≡ [] → (xs ≡ []) × (ys ≡ [])
  both_nil [] ys e = (refl, e)
  both_nil (x ∷ xs) ys e = absurd (cc)

  of_sensor-snoc-nil :
      (xs : List (SensorData V)) (x : SensorData V)
      → of_sensor j (xs ++ x ∷ []) ≡ []
      → (of_sensor j xs ≡ []) × (of_sensor j (x ∷ []) ≡ [])
  of_sensor-snoc-nil xs x e =
      both_nil (of_sensor j xs) (of_sensor j (x ∷ [])) (sym (of_sensor-snoc xs x) ∙ e)

  sent_by-Foreign : (ls : List (List (SensorData V))) → Foreign ls → sent_by ls ≡ []
  unfolding sent_by
  sent_by-Foreign [] foreign = refl
  sent_by-Foreign (xs ∷ ls) (other, foreign) = rw (other, sent_by-Foreign ls foreign) refl

  Foreign-Appends :
      {x : SensorData V} {ls ms : List (List (SensorData V))}
      → Appends x ls ms
      → Foreign ms
      → Foreign ls × (of_sensor j (x ∷ []) ≡ [])
  Foreign-Appends {x} (Appends.here {xs}) (other, foreign) =
      let (old, new) = of_sensor-snoc-nil xs x other in ((old, foreign), new)
  Foreign-Appends (Appends.there a) (other, foreign) =
      let (rest, new) = Foreign-Appends a foreign in ((other, rest), new)

  Single-Appends :
      {x : SensorData V} {ls ms : List (List (SensorData V))}
      → Appends x ls ms
      → Single ms
      → Single ls × (sent_by ms ≡ sent_by ls ++ of_sensor j (x ∷ []))
  unfolding sent_by
  Single-Appends {x} (Appends.here {xs} {ls}) (inl (other, single)) =
      let (old, new) = of_sensor-snoc-nil xs x other in
      (inl (old, single), rw (other, old, new) (sym (append-nil (sent_by ls))))
  Single-Appends {x} (Appends.here {xs} {ls}) (inr foreign) =
      (inr foreign, rw (of_sensor-snoc xs x, sent_by-Foreign ls foreign) (simp append-nil))
  Single-Appends {x} (Appends.there {xs} {ls} {ms} a) (inl (other, single)) =
      let (rest, same) = Single-Appends a single in (inl (other, rest), rw (other, same) refl)
  Single-Appends {x} (Appends.there {xs} {ls} {ms} a) (inr foreign) =
      let (rest, new) = Foreign-Appends a foreign in
      (inr rest, rw (sent_by-Foreign ms foreign, sent_by-Foreign ls rest, new) (simp append-nil))

  Foreign-init : (ls : List (List (SensorData V))) → Foreign (ls ++ [] ∷ []) → Foreign ls
  Foreign-init [] foreign = tt
  Foreign-init (xs ∷ ls) (other, foreign) = (other, Foreign-init ls foreign)

  Single-init : (ls : List (List (SensorData V))) → Single (ls ++ [] ∷ []) → Single ls
  Single-init [] single = tt
  Single-init (xs ∷ ls) (inl (other, single)) = inl (other, Single-init ls single)
  Single-init (xs ∷ ls) (inr foreign) = inr (Foreign-init ls foreign)

  sent_by-init : (ls : List (List (SensorData V))) → sent_by (ls ++ [] ∷ []) ≡ sent_by ls
  unfolding sent_by of_sensor
  sent_by-init [] = refl
  sent_by-init (xs ∷ ls) = ap (λ l. of_sensor j xs ++ l) (sent_by-init ls)

  pub of_sensor-Interleaving :
      {ls : List (List (SensorData V))} {xs : List (SensorData V)}
      → Interleaving ls xs
      → Single ls
      → of_sensor j xs ≡ sent_by ls
  unfolding sent_by of_sensor
  of_sensor-Interleaving no_lists single = refl
  of_sensor-Interleaving (more_lists {ls} i) single =
      of_sensor-Interleaving i (Single-init ls single) ∙ sym (sent_by-init ls)
  of_sensor-Interleaving (item {xs} x i a) single =
      let (before, same) = Single-Appends a single in
      of_sensor-snoc xs x
      ∙ ap (λ l. l ++ of_sensor j (x ∷ [])) (of_sensor-Interleaving i before)
      ∙ sym same

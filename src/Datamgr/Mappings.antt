-- ===== src/Datamgr/Mappings.antt =====
-- datamgr.c: the sensors of the map file, and the whole run of the data manager.
use osc_final_lab.Common.{
  ℕ, ◌≡◌, refl, sym, ap, ◌∙◌, Bool, true, false, ◌||◌, none, some, List, [], ◌∷◌, ◌++◌, ◌==◌,
  Bool-cases, inl, inr, if◌then◌else◌, length, arith, ℤ,
}
use mathlib.Core.List.{append_assoc, append-nil}
use osc_final_lab.Dplist.Spec.{insert_at, insert_at-append}
use osc_final_lab.Sbuffer.{Status}
use osc_final_lab.Datamgr.Window.{window}
use osc_final_lab.Datamgr.Readings.{readings_of, of_sensor, kept, Bounded, peeked, peek_loop-kept}
use osc_final_lab.Datamgr.{Values, SensorMap, Maps, mapping_loop, insert_mappings, peek_loop}

-- whether the map file names a sensor
unfoldable pub listed : ℕ → List (ℕ × ℕ × ℤ) → Bool
listed j [] = false
listed j ((room, sensor, now) ∷ lines) = (sensor == j) || listed j lines

module _ {V : Type 0} where
  -- the elements for the lines of the file, in their order
  unfoldable pub entries : List (ℕ × ℕ × ℤ) → Maps V
  entries [] = []
  entries ((room, sensor, now) ∷ lines) =
      record { sensor_id = sensor; room_id = room; readings = []; last_modified = now }
      ∷ entries lines

  mapping_loop-entries :
      (lines : List (ℕ × ℕ × ℤ)) (ms : Maps V) → mapping_loop lines ms ≡ ms ++ entries lines
  unfolding mapping_loop entries
  mapping_loop-entries [] ms = sym (append-nil ms)
  mapping_loop-entries ((room, sensor, now) ∷ lines) ms =
      let m : SensorMap V = record {
        sensor_id = sensor;
        room_id = room;
        readings = [];
        last_modified = now;
      } in
      mapping_loop-entries lines (insert_at (length ms) m ms)
      ∙ ap (λ l. l ++ entries lines) (insert_at-append (length ms) m ms (omega arith))
      ∙ append_assoc ms (m ∷ []) (entries lines)

  -- For an open map file, `insert_mappings` logs nothing and appends to the list one element per
  -- line, in the order of the lines and without readings.
  pub insert_mappings-entries :
      (lines : List (ℕ × ℕ × ℤ)) (ms : Maps V)
      → insert_mappings (some lines) ms ≡ (ms ++ entries lines, [])
  unfolding insert_mappings
  insert_mappings-entries lines ms = ap (λ l. (l, [])) (mapping_loop-entries lines ms)

Bounded-entries : (V : Type 0) (lines : List (ℕ × ℕ × ℤ)) → Bounded (entries {V = V} lines)
unfolding entries Bounded
Bounded-entries V [] = tt
Bounded-entries V ((room, sensor, now) ∷ lines) = (omega arith, Bounded-entries V lines)

module _ {V : Type 0} where
  pub readings_of-entries :
      (j : ℕ) (lines : List (ℕ × ℕ × ℤ))
      → readings_of j (entries {V = V} lines) ≡ (if listed j lines then some [] else none)
  unfolding entries readings_of listed
  readings_of-entries j [] = refl
  readings_of-entries j ((room, sensor, now) ∷ lines) = elim (Bool-cases (sensor == j)) [
    | inl mine ↦ rw mine refl
    | inr other ↦ rw other (readings_of-entries j lines)
  ]

  -- For any map file and any results of `sbuffer_peek`, after the loop of `datamgr_init` the
  -- readings that are kept of a sensor that the file names are the last five of those that
  -- `sbuffer_peek` returned for it before it first returned something else than SBUFFER_SUCCESS,
  -- and nothing is kept of another sensor.
  pub peek_loop-insert_mappings :
      (values : Values V) (j : ℕ) (lines : List (ℕ × ℕ × ℤ)) (results : List (ℤ × Status V))
      → readings_of j (peek_loop values results (insert_mappings (some lines) []).0).0
        ≡ (if listed j lines then some (window (of_sensor j (peeked results))) else none)
  peek_loop-insert_mappings values j lines results = rw (insert_mappings-entries lines []) (
      (peek_loop-kept values j results (entries lines) (Bounded-entries V lines)).1
      ∙ ap (kept j (peeked results)) (readings_of-entries j lines)
      ∙ decide (listed j lines))
    where
      decide :
          (b : Bool)
          → kept j (peeked results) (if b then some [] else none)
            ≡ (if b then some (window (of_sensor j (peeked results))) else none)
      decide true = refl
      decide false = refl

-- ===== src/Sbuffer/System/Invariant.antt =====
-- sbuffer.c: what holds between any two steps of the threads, of the queue that the memory stands for.
use osc_final_lab.Common.{ℕ, ◌≡◌, ◌≢◌, ◌⊎◌, true, false, none, some, List, [], ◌∷◌, ◌++◌}
use osc_final_lab.Config.{SensorData}
use osc_final_lab.Sbuffer.Queue.{Items, Outcome}
use osc_final_lab.Sbuffer.{
  Status, Stand, start, wait_filled, wait_turn, ending, returned, failure, success, no_data,
}

module _ {V : Type 0} where
  -- None of the readings was processed.
  abbrev pub Fresh : Items V → Type 0
  Fresh [] = Unit {0}
  Fresh ((x, b) ∷ xs) = (b ≡ false) × Fresh xs

  -- Only the front may be processed, and never if it is the end of the stream.
  abbrev pub WellMarked : Items V → Type 0
  WellMarked [] = Unit {0}
  WellMarked ((x, b) ∷ xs) = ((b ≡ true) → x.id ≢ 0) × Fresh xs

  -- None of the readings is the end of the stream.
  abbrev pub SomeId : List (SensorData V) → Type 0
  SomeId [] = Unit {0}
  SomeId (x ∷ xs) = (x.id ≢ 0) × SomeId xs

  -- The end of the stream is in front.
  abbrev pub AtEnd : Items V → Type 0
  AtEnd [] = ⊥
  AtEnd ((x, b) ∷ xs) = x.id ≡ 0

  -- A call that is about to write `d` to `condition` and to return SBUFFER_NO_DATA.
  abbrev pub EndingOk : ℕ → Items V → Type 0
  EndingOk d [] = ⊥
  EndingOk d ((x, b) ∷ xs) = (x.id ≡ 0) × (d ≢ 0)

  -- `condition` is 0 only when there is no reading.
  abbrev pub Filled : Items V → ℕ → Type 0
  Filled [] c = Unit {0}
  Filled (x ∷ xs) c = c ≢ 0

  abbrev pub ReturnOk : Status V → Items V → Type 0
  ReturnOk failure xs = ⊥
  ReturnOk (success x) xs = x.id ≢ 0
  ReturnOk no_data xs = AtEnd xs

  -- A removal that waits for a first reading finds one when `condition` is no longer 0.
  abbrev pub FilledOk : Items V → ℕ → Type 0
  FilledOk [] c = c ≡ 0
  FilledOk (x ∷ xs) c = Unit {0}

  -- A removal that waits for its turn finds a reading, and when `condition` is no longer 1 this one
  -- was processed or is the end of the stream.
  abbrev pub TurnOk : Items V → ℕ → Type 0
  TurnOk [] c = ⊥
  TurnOk ((x, b) ∷ xs) c = (c ≡ 1) ⊎ ((b ≡ true) ⊎ (x.id ≡ 0))

  abbrev pub RemoverOk : Stand V → Items V → ℕ → Type 0
  RemoverOk start xs c = Unit {0}
  RemoverOk wait_filled xs c = FilledOk xs c
  RemoverOk wait_turn xs c = TurnOk xs c
  RemoverOk (ending d) xs c = EndingOk d xs
  RemoverOk (returned r) xs c = ReturnOk r xs

  -- A peek that waits for a first reading finds it unprocessed.
  abbrev pub UnseenOk : Items V → ℕ → Type 0
  UnseenOk [] c = c ≡ 0
  UnseenOk ((x, b) ∷ xs) c = b ≡ false

  -- So does one that waits for its turn when `condition` is no longer 2, if there is a reading.
  abbrev pub NextOk : Items V → ℕ → Type 0
  NextOk [] c = Unit {0}
  NextOk ((x, b) ∷ xs) c = (c ≡ 2) ⊎ (b ≡ false)

  abbrev pub PeekerOk : Stand V → Items V → ℕ → Type 0
  PeekerOk start xs c = Unit {0}
  PeekerOk wait_filled xs c = UnseenOk xs c
  PeekerOk wait_turn xs c = NextOk xs c
  PeekerOk (ending d) xs c = EndingOk d xs
  PeekerOk (returned r) xs c = ReturnOk r xs

  -- what a call has taken and its caller has not
  abbrev pub pending : Stand V → List (SensorData V)
  pending (returned (success x)) = x ∷ []
  pending s = []

  abbrev pub readings : Items V → List (SensorData V)
  readings [] = []
  readings ((x, b) ∷ xs) = x ∷ readings xs

  -- the front, if it was processed
  abbrev pub processed : Items V → List (SensorData V)
  processed ((x, true) ∷ xs) = x ∷ []
  processed xs = []

  pub record Invariant (inserted saved seen : List (SensorData V)) (r p : Stand V) (items : Items V)
      (c : ℕ) : Type 0 where
    pub well_marked : WellMarked items
    pub remover_ok : RemoverOk r items c
    pub peeker_ok : PeekerOk p items c
    pub filled : Filled items c
    pub saved_ids : SomeId saved
    pub in_order : inserted ≡ saved ++ (pending r ++ readings items)
    pub seen_first : seen ++ pending p ≡ saved ++ (pending r ++ processed items)

  -- `P` holds after the step, and a step that faults needs `N`.
  abbrev pub After : Type 0 → (Stand V → Items V → ℕ → Type 0) → Outcome V → Type 0
  After N P none = N
  After N P (some (t, q)) = P t q.items q.condition

-- ===== src/Sbuffer/System/Removing.antt =====
-- sbuffer.c: a step of a removal keeps the invariant, and does not fault.
use osc_final_lab.Common.{
  ==_of_eq, ℕ, ◌≡◌, ◌≢◌, refl, sym, ap, ◌∙◌, ◌⊎◌, inl, inr, Bool, true, false, List, [], ◌∷◌, ◌++◌,
  arith, ◌==◌, ==_of_eq, Bool-cases,
}
use osc_final_lab.Config.{SensorData}
use osc_final_lab.Sbuffer.Queue.{Items, queue, take_front, check_front, remove_start, remove}
use osc_final_lab.Sbuffer.System.Invariant.{
  Filled, Fresh, WellMarked, PeekerOk, pending, processed, Invariant, After,
}
use osc_final_lab.Sbuffer.{
  Stand, start, wait_filled, wait_turn, ending, returned, failure, success, no_data,
}

-- A removal that waits no longer for its turn.
turn :
    {i c : ℕ} {b : Bool}
    → (c ≡ 1) ⊎ ((b ≡ true) ⊎ (i ≡ 0))
    → (c == 1) ≡ false
    → (b ≡ true) ⊎ (i ≡ 0)
turn (inl e) woken = absurd (ground arith)
turn (inr done) woken = done

module _ {V : Type 0} where
  pub WellMarked-of_Fresh : (xs : Items V) → Fresh xs → WellMarked xs
  WellMarked-of_Fresh [] f = tt
  WellMarked-of_Fresh ((x, b) ∷ xs) (e, f) = (λ t. cc, f)

  processed-Fresh : (xs : Items V) → Fresh xs → processed xs ≡ []
  processed-Fresh [] f = refl
  processed-Fresh ((x, true) ∷ xs) (e, f) = cc
  processed-Fresh ((x, false) ∷ xs) f = refl

  -- What a peek may rely on is left when a processed reading is removed.
  PeekerOk-tail :
      (x : SensorData V) (xs : Items V) (c : ℕ) (p : Stand V)
      → x.id ≢ 0
      → PeekerOk p ((x, true) ∷ xs) c
      → PeekerOk p xs c
  PeekerOk-tail x xs c start ne k = tt
  PeekerOk-tail x [] c wait_filled ne k = cc
  PeekerOk-tail x (y ∷ ys) c wait_filled ne k = cc
  PeekerOk-tail x [] c wait_turn ne k = tt
  PeekerOk-tail x (y ∷ ys) c wait_turn ne (inl two) = inl two
  PeekerOk-tail x (y ∷ ys) c wait_turn ne (inr e) = cc
  PeekerOk-tail x xs c (ending d) ne k = absurd (ne k.0)
  PeekerOk-tail x xs c (returned failure) ne k = k
  PeekerOk-tail x xs c (returned (success y)) ne k = k
  PeekerOk-tail x xs c (returned no_data) ne k = absurd (ne k)

  Filled-tail : (y : SensorData V × Bool) (xs : Items V) (c : ℕ) → Filled (y ∷ xs) c → Filled xs c
  Filled-tail y [] c k = tt
  Filled-tail y (x ∷ xs) c k = k

  -- `condition` matters only to those that wait.
  PeekerOk-unprocessed :
      (x : SensorData V) (xs : Items V) (c d : ℕ) (p : Stand V)
      → PeekerOk p ((x, false) ∷ xs) c
      → PeekerOk p ((x, false) ∷ xs) d
  PeekerOk-unprocessed x xs c d start k = tt
  PeekerOk-unprocessed x xs c d wait_filled k = refl
  PeekerOk-unprocessed x xs c d wait_turn k = inr refl
  PeekerOk-unprocessed x xs c d (ending e) k = k
  PeekerOk-unprocessed x xs c d (returned failure) k = k
  PeekerOk-unprocessed x xs c d (returned (success y)) k = k
  PeekerOk-unprocessed x xs c d (returned no_data) k = k

  -- On an empty buffer the wait for a first reading sets `condition`.
  pub PeekerOk-nil : (c : ℕ) (p : Stand V) → PeekerOk p [] c → PeekerOk p [] 0
  PeekerOk-nil c start k = tt
  PeekerOk-nil c wait_filled k = refl
  PeekerOk-nil c wait_turn k = tt
  PeekerOk-nil c (ending e) k = k
  PeekerOk-nil c (returned failure) k = k
  PeekerOk-nil c (returned (success y)) k = k
  PeekerOk-nil c (returned no_data) k = k

  -- At the end of the stream `condition` no longer matters to a peek.
  PeekerOk-AtEnd :
      (x : SensorData V) (b : Bool) (xs : Items V) (c d : ℕ) (p : Stand V)
      → x.id ≡ 0
      → WellMarked ((x, b) ∷ xs)
      → PeekerOk p ((x, b) ∷ xs) c
      → PeekerOk p ((x, b) ∷ xs) d
  PeekerOk-AtEnd x true xs c d p end (ne, f) k = absurd (ne refl end)
  PeekerOk-AtEnd x false xs c d p end (ne, f) k = PeekerOk-unprocessed x xs c d p k

module _ {V : Type 0} (inserted saved seen : List (SensorData V)) (p : Stand V) where
  -- The invariant with the removal at another place.
  abbrev At : Stand V → Items V → ℕ → Type 0
  At r items c = Invariant inserted saved seen r p items c

  take_front-keeps :
      (x : SensorData V) (b : Bool) (xs : Items V) (c : ℕ)
      → (b ≡ true) ⊎ (x.id ≡ 0)
      → At start ((x, b) ∷ xs) c
      → After ⊥ At (take_front ((x, b) ∷ xs) c)
  unfolding take_front
  take_front-keeps x true xs c done inv = elim (Bool-cases (x.id == 0)) [
    | inl end ↦ rw end (record {
      well_marked = inv.well_marked;
      remover_ok = (ground arith, omega arith);
      peeker_ok = inv.peeker_ok;
      filled = inv.filled;
      saved_ids = inv.saved_ids;
      in_order = inv.in_order;
      seen_first = inv.seen_first;
    })
    | inr some_id ↦
        let ne : x.id ≢ 0 = ground arith in
        let (_, fresh) = inv.well_marked in
        rw some_id (record {
          well_marked = WellMarked-of_Fresh xs fresh;
          remover_ok = ne;
          peeker_ok = PeekerOk-tail x xs c p ne inv.peeker_ok;
          filled = Filled-tail (x, true) xs c inv.filled;
          saved_ids = inv.saved_ids;
          in_order = inv.in_order;
          seen_first = inv.seen_first ∙ ap (λ l. saved ++ x ∷ l) (sym (processed-Fresh xs fresh));
        })
  ]
  take_front-keeps x false xs c (inl t) inv = cc
  take_front-keeps x false xs c (inr end) inv = rw (==_of_eq x.id 0 end) (record {
    well_marked = inv.well_marked;
    remover_ok = (ground arith, omega arith);
    peeker_ok = inv.peeker_ok;
    filled = inv.filled;
    saved_ids = inv.saved_ids;
    in_order = inv.in_order;
    seen_first = inv.seen_first;
  })

  check_front-keeps :
      (x : SensorData V) (b : Bool) (xs : Items V) (c : ℕ)
      → At start ((x, b) ∷ xs) c
      → After ⊥ At (check_front ((x, b) ∷ xs) c)
  unfolding check_front
  check_front-keeps x true xs c inv = take_front-keeps x true xs c (inl refl) inv
  check_front-keeps x false xs c inv = elim (Bool-cases (x.id == 0)) [
    | inl end ↦ rw end (record {
      well_marked = inv.well_marked;
      remover_ok = (ground arith, omega arith);
      peeker_ok = inv.peeker_ok;
      filled = inv.filled;
      saved_ids = inv.saved_ids;
      in_order = inv.in_order;
      seen_first = inv.seen_first;
    })
    | inr some_id ↦ rw some_id (record {
      well_marked = inv.well_marked;
      remover_ok = inl refl;
      peeker_ok = PeekerOk-unprocessed x xs c 1 p inv.peeker_ok;
      filled = omega arith;
      saved_ids = inv.saved_ids;
      in_order = inv.in_order;
      seen_first = inv.seen_first;
    })
  ]

  -- A call that has taken nothing yet stands for the invariant as at its start.
  restart :
      (r : Stand V) (items : Items V) (c : ℕ) → pending r ≡ [] → At r items c → At start items c
  restart r items c none_taken inv = record {
    well_marked = inv.well_marked;
    remover_ok = tt;
    peeker_ok = inv.peeker_ok;
    filled = inv.filled;
    saved_ids = inv.saved_ids;
    in_order = rw none_taken at inv.in_order;
    seen_first = rw none_taken at inv.seen_first;
  }

  pub remove-keeps :
      (r : Stand V) (items : Items V) (c : ℕ) → At r items c → After ⊥ At (remove r (queue items c))
  unfolding remove remove_start
  remove-keeps start [] c inv = record {
    well_marked = tt;
    remover_ok = refl;
    peeker_ok = PeekerOk-nil c p inv.peeker_ok;
    filled = tt;
    saved_ids = inv.saved_ids;
    in_order = inv.in_order;
    seen_first = inv.seen_first;
  }
  remove-keeps start ((x, b) ∷ xs) c inv = check_front-keeps x b xs c inv
  remove-keeps wait_filled [] c inv = rw (==_of_eq c 0 inv.remover_ok) inv
  remove-keeps wait_filled ((x, b) ∷ xs) c inv = elim (Bool-cases (c == 0)) [
    | inl still ↦ rw still inv
    | inr woken ↦ rw woken (check_front-keeps x b xs c (restart wait_filled _ c refl inv))
  ]
  remove-keeps wait_turn [] c inv = absurd inv.remover_ok
  remove-keeps wait_turn ((x, b) ∷ xs) c inv = elim (Bool-cases (c == 1)) [
    | inl still ↦ rw still inv
    | inr woken ↦
        rw woken
          (take_front-keeps x b xs c (turn inv.remover_ok woken) (restart wait_turn _ c refl inv))
  ]
  remove-keeps (ending d) [] c inv = absurd inv.remover_ok
  remove-keeps (ending d) ((x, b) ∷ xs) c inv = record {
    well_marked = inv.well_marked;
    remover_ok = inv.remover_ok.0;
    peeker_ok = PeekerOk-AtEnd x b xs c d p inv.remover_ok.0 inv.well_marked inv.peeker_ok;
    filled = inv.remover_ok.1;
    saved_ids = inv.saved_ids;
    in_order = inv.in_order;
    seen_first = inv.seen_first;
  }
  remove-keeps (returned s) items c inv = inv

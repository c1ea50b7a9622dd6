-- ===== src/Sbuffer/System/Peeking.antt =====
-- sbuffer.c: a step of a peek keeps the invariant. It faults only when it wakes in the wait for its
-- turn and the buffer is empty.
use osc_final_lab.Common.{
  ℕ, ◌≡◌, ◌≢◌, refl, sym, ap, ◌∙◌, inl, inr, Bool, true, false, none, some, List, [], ◌∷◌, ◌++◌,
  arith, ◌==◌, ==_of_eq, Bool-cases,
}
use mathlib.Core.List.{append_assoc, append-nil}
use osc_final_lab.Config.{SensorData}
use osc_final_lab.Sbuffer.Queue.{Items, queue, Outcome, mark_front, look_front, peek_start, peek}
use osc_final_lab.Sbuffer.System.Invariant.{RemoverOk, pending, Invariant, After}
use osc_final_lab.Sbuffer.{
  Stand, start, wait_filled, wait_turn, ending, returned, failure, success, no_data,
}

module _ {V : Type 0} where
  -- What a removal may rely on is left when the front is marked.
  RemoverOk-marked :
      (x : SensorData V) (b : Bool) (xs : Items V) (c d : ℕ) (r : Stand V)
      → RemoverOk r ((x, b) ∷ xs) c
      → RemoverOk r ((x, true) ∷ xs) d
  RemoverOk-marked x b xs c d start k = tt
  RemoverOk-marked x b xs c d wait_filled k = tt
  RemoverOk-marked x b xs c d wait_turn k = inr (inl refl)
  RemoverOk-marked x b xs c d (ending e) k = k
  RemoverOk-marked x b xs c d (returned failure) k = k
  RemoverOk-marked x b xs c d (returned (success y)) k = k
  RemoverOk-marked x b xs c d (returned no_data) k = k

  -- On an empty buffer the wait for a first reading sets `condition`.
  RemoverOk-nil : (c : ℕ) (r : Stand V) → RemoverOk r [] c → RemoverOk r [] 0
  RemoverOk-nil c start k = tt
  RemoverOk-nil c wait_filled k = refl
  RemoverOk-nil c wait_turn k = k
  RemoverOk-nil c (ending e) k = k
  RemoverOk-nil c (returned failure) k = k
  RemoverOk-nil c (returned (success y)) k = k
  RemoverOk-nil c (returned no_data) k = k

  -- At the end of the stream `condition` no longer matters to a removal.
  RemoverOk-AtEnd :
      (x : SensorData V) (b : Bool) (xs : Items V) (c d : ℕ) (r : Stand V)
      → x.id ≡ 0
      → RemoverOk r ((x, b) ∷ xs) c
      → RemoverOk r ((x, b) ∷ xs) d
  RemoverOk-AtEnd x b xs c d start end k = tt
  RemoverOk-AtEnd x b xs c d wait_filled end k = tt
  RemoverOk-AtEnd x b xs c d wait_turn end k = inr (inr end)
  RemoverOk-AtEnd x b xs c d (ending e) end k = k
  RemoverOk-AtEnd x b xs c d (returned failure) end k = k
  RemoverOk-AtEnd x b xs c d (returned (success y)) end k = k
  RemoverOk-AtEnd x b xs c d (returned no_data) end k = k

  seen_next :
      (seen saved taken : List (SensorData V)) (x : SensorData V)
      → seen ++ [] ≡ saved ++ (taken ++ [])
      → seen ++ x ∷ [] ≡ saved ++ (taken ++ x ∷ [])
  seen_next seen saved taken x e =
      ap (λ l. l ++ x ∷ []) (sym (append-nil seen) ∙ e ∙ ap (λ l. saved ++ l) (append-nil taken))
      ∙ append_assoc saved taken (x ∷ [])

module _ {V : Type 0} (inserted saved seen : List (SensorData V)) (r : Stand V) where
  -- The invariant with the peek at another place.
  abbrev At : Stand V → Items V → ℕ → Type 0
  At p items c = Invariant inserted saved seen r p items c

  mark_front-keeps :
      (x : SensorData V) (xs : Items V) (c : ℕ)
      → At start ((x, false) ∷ xs) c
      → After ⊥ At (mark_front ((x, false) ∷ xs) c)
  unfolding mark_front
  mark_front-keeps x xs c inv = elim (Bool-cases (x.id == 0)) [
    | inl end ↦ rw end (record {
      well_marked = inv.well_marked;
      remover_ok = inv.remover_ok;
      peeker_ok = (ground arith, omega arith);
      filled = inv.filled;
      saved_ids = inv.saved_ids;
      in_order = inv.in_order;
      seen_first = inv.seen_first;
    })
    | inr some_id ↦
        let ne : x.id ≢ 0 = ground arith in
        let (_, fresh) = inv.well_marked in
        rw some_id (record {
          well_marked = (λ t. ne, fresh);
          remover_ok = RemoverOk-marked x false xs c 2 r inv.remover_ok;
          peeker_ok = ne;
          filled = omega arith;
          saved_ids = inv.saved_ids;
          in_order = inv.in_order;
          seen_first = seen_next seen saved (pending r) x inv.seen_first;
        })
  ]

  look_front-keeps :
      (x : SensorData V) (b : Bool) (xs : Items V) (c : ℕ)
      → At start ((x, b) ∷ xs) c
      → After ⊥ At (look_front ((x, b) ∷ xs) c)
  unfolding look_front
  look_front-keeps x false xs c inv = mark_front-keeps x xs c inv
  look_front-keeps x true xs c inv = elim (Bool-cases (x.id == 0)) [
    | inl end ↦ absurd (inv.well_marked.0 refl (ground arith))
    | inr some_id ↦ rw some_id (record {
      well_marked = inv.well_marked;
      remover_ok = RemoverOk-marked x true xs c 2 r inv.remover_ok;
      peeker_ok = inl refl;
      filled = omega arith;
      saved_ids = inv.saved_ids;
      in_order = inv.in_order;
      seen_first = inv.seen_first;
    })
  ]

  -- A call that has taken nothing yet stands for the invariant as at its start.
  restart :
      (p : Stand V) (items : Items V) (c : ℕ) → pending p ≡ [] → At p items c → At start items c
  restart p items c none_taken inv = record {
    well_marked = inv.well_marked;
    remover_ok = inv.remover_ok;
    peeker_ok = tt;
    filled = inv.filled;
    saved_ids = inv.saved_ids;
    in_order = inv.in_order;
    seen_first = rw none_taken at inv.seen_first;
  }

  -- The step faults when a peek that waits for its turn wakes on an empty buffer.
  abbrev pub WokenOnNothing : Stand V → Items V → ℕ → Type 0
  WokenOnNothing p items c = (p ≡ wait_turn) × (items ≡ []) × (c ≢ 2)

  weaken : (N : Type 0) (o : Outcome V) → After ⊥ At o → After N At o
  weaken N none k = absurd k
  weaken N (some (t, q)) k = k

  pub peek-keeps :
      (p : Stand V) (items : Items V) (c : ℕ)
      → At p items c
      → After (WokenOnNothing p items c) At (peek p (queue items c))
  unfolding peek peek_start mark_front
  peek-keeps start [] c inv = record {
    well_marked = tt;
    remover_ok = RemoverOk-nil c r inv.remover_ok;
    peeker_ok = refl;
    filled = tt;
    saved_ids = inv.saved_ids;
    in_order = inv.in_order;
    seen_first = inv.seen_first;
  }
  peek-keeps start ((x, b) ∷ xs) c inv = weaken _ _ (look_front-keeps x b xs c inv)
  peek-keeps wait_filled [] c inv = rw (==_of_eq c 0 inv.peeker_ok) inv
  peek-keeps wait_filled ((x, b) ∷ xs) c inv = elim (Bool-cases (c == 0)) [
    | inl still ↦ rw still inv
    | inr woken ↦
        rw woken (weaken _ _ (look_front-keeps x b xs c (restart wait_filled _ c refl inv)))
  ]
  peek-keeps wait_turn [] c inv = elim (Bool-cases (c == 2)) [
    | inl still ↦ rw still inv
    | inr woken ↦ rw woken (refl, refl, ground arith)
  ]
  peek-keeps wait_turn ((x, true) ∷ xs) c inv =
      rw (==_of_eq c 2 (ground (arith, inv.peeker_ok))) inv
  peek-keeps wait_turn ((x, false) ∷ xs) c inv = elim (Bool-cases (c == 2)) [
    | inl still ↦ rw still inv
    | inr woken ↦ rw woken (
        weaken (WokenOnNothing wait_turn ((x, false) ∷ xs) c) (mark_front ((x, false) ∷ xs) c)
          (mark_front-keeps x xs c (restart wait_turn _ c refl inv)))
  ]
  peek-keeps (ending d) [] c inv = absurd inv.peeker_ok
  peek-keeps (ending d) ((x, b) ∷ xs) c inv = record {
    well_marked = inv.well_marked;
    remover_ok = RemoverOk-AtEnd x b xs c d r inv.peeker_ok.0 inv.remover_ok;
    peeker_ok = inv.peeker_ok.0;
    filled = inv.peeker_ok.1;
    saved_ids = inv.saved_ids;
    in_order = inv.in_order;
    seen_first = inv.seen_first;
  }
  peek-keeps (returned s) items c inv = inv

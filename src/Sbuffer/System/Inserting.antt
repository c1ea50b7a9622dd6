-- ===== src/Sbuffer/System/Inserting.antt =====
-- sbuffer.c: an insertion keeps the invariant, and so does a thread that takes what a call returned.
use osc_final_lab.Common.{
  arith, ◌≢◌, ℕ, ◌≡◌, refl, sym, ap, ◌∙◌, inl, inr, Bool, true, false, List, [], ◌∷◌, ◌++◌,
}
use mathlib.Core.List.{append_assoc, append-nil}
use osc_final_lab.Config.{SensorData}
use osc_final_lab.Sbuffer.Queue.{Items, insert}
use osc_final_lab.Sbuffer.System.Invariant.{
  SomeId, Fresh, RemoverOk, PeekerOk, pending, readings, processed, Invariant,
}
use osc_final_lab.Sbuffer.{
  Stand, start, wait_filled, wait_turn, ending, returned, failure, success, no_data,
}

module _ {V : Type 0} where
  SomeId-append :
      (xs : List (SensorData V)) (x : SensorData V) → SomeId xs → x.id ≢ 0 → SomeId (xs ++ x ∷ [])
  SomeId-append [] x ids ne = (ne, tt)
  SomeId-append (y ∷ xs) x (some_id, ids) ne = (some_id, SomeId-append xs x ids ne)

  Fresh-append : (xs : Items V) (x : SensorData V) → Fresh xs → Fresh (xs ++ (x, false) ∷ [])
  Fresh-append [] x f = (refl, tt)
  Fresh-append ((y, b) ∷ xs) x (e, f) = (e, Fresh-append xs x f)

  readings-append :
      (xs : Items V) (x : SensorData V) → readings (xs ++ (x, false) ∷ []) ≡ readings xs ++ x ∷ []
  readings-append [] x = refl
  readings-append ((y, b) ∷ xs) x = ap (y ∷◌) (readings-append xs x)

  RemoverOk-first :
      (x : SensorData V) (c : ℕ) (r : Stand V) → RemoverOk r [] c → RemoverOk r ((x, false) ∷ []) 1
  RemoverOk-first x c start k = tt
  RemoverOk-first x c wait_filled k = tt
  RemoverOk-first x c wait_turn k = inl refl
  RemoverOk-first x c (ending e) k = absurd k
  RemoverOk-first x c (returned failure) k = k
  RemoverOk-first x c (returned (success y)) k = k
  RemoverOk-first x c (returned no_data) k = absurd k

  PeekerOk-first :
      (x : SensorData V) (c : ℕ) (p : Stand V) → PeekerOk p [] c → PeekerOk p ((x, false) ∷ []) 1
  PeekerOk-first x c start k = tt
  PeekerOk-first x c wait_filled k = refl
  PeekerOk-first x c wait_turn k = inr refl
  PeekerOk-first x c (ending e) k = absurd k
  PeekerOk-first x c (returned failure) k = k
  PeekerOk-first x c (returned (success y)) k = k
  PeekerOk-first x c (returned no_data) k = absurd k

  -- Both depend on the front only.
  RemoverOk-more :
      (y : SensorData V) (b : Bool) (xs ys : Items V) (c : ℕ) (r : Stand V)
      → RemoverOk r ((y, b) ∷ xs) c
      → RemoverOk r ((y, b) ∷ ys) c
  RemoverOk-more y b xs ys c start k = k
  RemoverOk-more y b xs ys c wait_filled k = k
  RemoverOk-more y b xs ys c wait_turn k = k
  RemoverOk-more y b xs ys c (ending e) k = k
  RemoverOk-more y b xs ys c (returned failure) k = k
  RemoverOk-more y b xs ys c (returned (success z)) k = k
  RemoverOk-more y b xs ys c (returned no_data) k = k

  PeekerOk-more :
      (y : SensorData V) (b : Bool) (xs ys : Items V) (c : ℕ) (p : Stand V)
      → PeekerOk p ((y, b) ∷ xs) c
      → PeekerOk p ((y, b) ∷ ys) c
  PeekerOk-more y b xs ys c start k = k
  PeekerOk-more y b xs ys c wait_filled k = k
  PeekerOk-more y b xs ys c wait_turn k = k
  PeekerOk-more y b xs ys c (ending e) k = k
  PeekerOk-more y b xs ys c (returned failure) k = k
  PeekerOk-more y b xs ys c (returned (success z)) k = k
  PeekerOk-more y b xs ys c (returned no_data) k = k

  processed-more :
      (y : SensorData V) (b : Bool) (xs ys : Items V)
      → processed ((y, b) ∷ xs) ≡ processed ((y, b) ∷ ys)
  processed-more y true xs ys = refl
  processed-more y false xs ys = refl

module _ {V : Type 0} (inserted saved seen : List (SensorData V)) (r p : Stand V) where
  in_order_after :
      (items : Items V) (x : SensorData V)
      → inserted ≡ saved ++ (pending r ++ readings items)
      → inserted ++ x ∷ [] ≡ saved ++ (pending r ++ readings (items ++ (x, false) ∷ []))
  in_order_after items x e =
      ap (λ l. l ++ x ∷ []) e
      ∙ append_assoc saved (pending r ++ readings items) (x ∷ [])
      ∙ ap (λ l. saved ++ l)
          (append_assoc (pending r) (readings items) (x ∷ [])
            ∙ ap (λ l. pending r ++ l) (sym (readings-append items x)))

  pub insert-keeps :
      (x : SensorData V) (items : Items V) (c : ℕ)
      → Invariant inserted saved seen r p items c
      → Invariant
          (inserted ++ x ∷ [])
          saved
          seen
          r
          p
          (insert x items c).items
          (insert x items c).condition
  unfolding insert
  insert-keeps x [] c inv = record {
    well_marked = (λ t. cc, tt);
    remover_ok = RemoverOk-first x c r inv.remover_ok;
    peeker_ok = PeekerOk-first x c p inv.peeker_ok;
    filled = omega arith;
    saved_ids = inv.saved_ids;
    in_order = in_order_after [] x inv.in_order;
    seen_first = inv.seen_first;
  }
  insert-keeps x ((y, b) ∷ ys) c inv =
      let (unended, fresh) = inv.well_marked in
      record {
        well_marked = (unended, Fresh-append ys x fresh);
        remover_ok = RemoverOk-more y b ys _ c r inv.remover_ok;
        peeker_ok = PeekerOk-more y b ys _ c p inv.peeker_ok;
        filled = inv.filled;
        saved_ids = inv.saved_ids;
        in_order = in_order_after ((y, b) ∷ ys) x inv.in_order;
        seen_first = inv.seen_first ∙ ap (λ l. saved ++ (pending r ++ l)) (processed-more y b ys _);
      }

module _ {V : Type 0} (inserted saved seen : List (SensorData V)) (x : SensorData V)
    (items : Items V) (c : ℕ) where
  pub saved-keeps :
      (p : Stand V)
      → Invariant inserted saved seen (returned (success x)) p items c
      → Invariant inserted (saved ++ x ∷ []) seen start p items c
  saved-keeps p inv = record {
    well_marked = inv.well_marked;
    remover_ok = tt;
    peeker_ok = inv.peeker_ok;
    filled = inv.filled;
    saved_ids = SomeId-append saved x inv.saved_ids inv.remover_ok;
    in_order = inv.in_order ∙ sym (append_assoc saved (x ∷ []) (readings items));
    seen_first = inv.seen_first ∙ sym (append_assoc saved (x ∷ []) (processed items));
  }

  pub seen-keeps :
      (r : Stand V)
      → Invariant inserted saved seen r (returned (success x)) items c
      → Invariant inserted saved (seen ++ x ∷ []) r start items c
  seen-keeps r inv = record {
    well_marked = inv.well_marked;
    remover_ok = inv.remover_ok;
    peeker_ok = tt;
    filled = inv.filled;
    saved_ids = inv.saved_ids;
    in_order = inv.in_order;
    seen_first = append-nil (seen ++ x ∷ []) ∙ inv.seen_first;
  }

-- ===== src/Sbuffer/System/Order.antt =====
-- sbuffer.c: which readings the two threads have got, and in which order, in every reachable state.
use osc_final_lab.Common.{
  ℕ, ◌≤◌, ◌≡◌, refl, sym, ap, ◌∙◌, true, false, List, [], ◌∷◌, ◌++◌, length, arith,
}
use mathlib.Core.List.{append_assoc, append-nil}
use osc_final_lab.Config.{SensorData}
use osc_final_lab.Sbuffer.Memory.{Ptr}
use osc_final_lab.Sbuffer.Queue.{Items}
use osc_final_lab.Sbuffer.System.Invariant.{SomeId, pending, readings, processed, Invariant}
use osc_final_lab.Sbuffer.System.Safety.{Reachable-Safe}
use osc_final_lab.Sbuffer.System.{System, Reachable}
use osc_final_lab.Sbuffer.{returned, no_data}

module _ {V : Type 0} (buffer : Ptr) where
  regroup : (a b c d : List (SensorData V)) → a ++ (b ++ (c ++ d)) ≡ (a ++ (b ++ c)) ++ d
  regroup a b c d = ap (λ l. a ++ l) (sym (append_assoc b c d)) ∙ sym (append_assoc a (b ++ c) d)

  -- In every reachable state of the threads, the readings that the storage manager has taken from
  -- `sbuffer_remove` are the first ones of those given to `sbuffer_insert`, in the same order:
  -- none is lost, repeated or overtaken.
  pub saved-IsPrefix :
      {s : System V}
      → Reachable buffer s
      → (rest : List (SensorData V)) × (s.inserted ≡ s.saved ++ rest)
  saved-IsPrefix {s} reached =
      let safe = Reachable-Safe buffer reached in
      (pending s.remover ++ readings safe.q.items, safe.invariant.in_order)

  processed-IsPrefix :
      (items : Items V) → (rest : List (SensorData V)) × (readings items ≡ processed items ++ rest)
  processed-IsPrefix [] = ([], refl)
  processed-IsPrefix ((x, true) ∷ xs) = (readings xs, refl)
  processed-IsPrefix ((x, false) ∷ xs) = (x ∷ readings xs, refl)

  length-processed : (items : Items V) → length (processed items) ≤ 1
  length-processed [] = omega arith
  length-processed ((x, true) ∷ xs) = omega arith
  length-processed ((x, false) ∷ xs) = omega arith

  -- In every reachable state of the threads, the readings that `sbuffer_peek` has returned to the
  -- data manager are the first ones of those given to `sbuffer_insert`, in the same order.
  pub seen-IsPrefix :
      {s : System V}
      → Reachable buffer s
      → (rest : List (SensorData V)) × (s.inserted ≡ (s.seen ++ pending s.peeker) ++ rest)
  seen-IsPrefix {s} reached =
      let safe = Reachable-Safe buffer reached in
      let (rest, split) = processed-IsPrefix safe.q.items in
      (
        rest,
        safe.invariant.in_order
            ∙ ap (λ l. s.saved ++ (pending s.remover ++ l)) split
            ∙ regroup s.saved (pending s.remover) (processed safe.q.items) rest
            ∙ ap (λ l. l ++ rest) (sym safe.invariant.seen_first),
      )

  -- In every reachable state of the threads, the readings that `sbuffer_peek` has returned are
  -- those that `sbuffer_remove` has returned, in the same order, followed by at most one more: a
  -- reading is processed before it is stored, and no reading is processed twice.
  pub seen-first :
      {s : System V}
      → Reachable buffer s
      → (front : List (SensorData V)) × (length front ≤ 1)
        × (s.seen ++ pending s.peeker ≡ (s.saved ++ pending s.remover) ++ front)
  seen-first {s} reached =
      let safe = Reachable-Safe buffer reached in
      (
        processed safe.q.items,
        length-processed safe.q.items,
        safe.invariant.seen_first
            ∙ sym (append_assoc s.saved (pending s.remover) (processed safe.q.items)),
      )

  -- In every reachable state of the threads where `sbuffer_remove` has returned SBUFFER_NO_DATA,
  -- the storage manager has taken exactly the readings that were inserted before the first one
  -- with id 0.
  pub saved_all :
      {s : System V}
      → Reachable buffer s
      → s.remover ≡ returned no_data
      → (x : SensorData V) × (rest : List (SensorData V)) × (x.id ≡ 0)
        × SomeId s.saved
        × (s.inserted ≡ s.saved ++ x ∷ rest)
  saved_all {s} reached ended =
      let safe = Reachable-Safe buffer reached in
      at_end safe.q.items safe.q.condition (rw ended at safe.invariant)
    where
      at_end :
          (items : Items V) (c : ℕ)
          → Invariant s.inserted s.saved s.seen (returned no_data) s.peeker items c
          → (x : SensorData V) × (rest : List (SensorData V)) × (x.id ≡ 0)
            × SomeId s.saved
            × (s.inserted ≡ s.saved ++ x ∷ rest)
      at_end [] c inv = absurd inv.remover_ok
      at_end ((x, b) ∷ xs) c inv = (x, readings xs, inv.remover_ok, inv.saved_ids, inv.in_order)

  -- In every reachable state of the threads where `sbuffer_remove` has returned SBUFFER_NO_DATA,
  -- the readings that `sbuffer_peek` has returned are exactly those that the storage manager has
  -- taken.
  pub seen_all :
      {s : System V}
      → Reachable buffer s
      → s.remover ≡ returned no_data
      → s.seen ++ pending s.peeker ≡ s.saved
  seen_all {s} reached ended =
      let safe = Reachable-Safe buffer reached in
      at_end safe.q.items safe.q.condition (rw ended at safe.invariant)
    where
      at_end :
          (items : Items V) (c : ℕ)
          → Invariant s.inserted s.saved s.seen (returned no_data) s.peeker items c
          → s.seen ++ pending s.peeker ≡ s.saved
      at_end [] c inv = absurd inv.remover_ok
      at_end ((x, true) ∷ xs) c inv = absurd (inv.well_marked.0 refl inv.remover_ok)
      at_end ((x, false) ∷ xs) c inv = inv.seen_first ∙ append-nil s.saved

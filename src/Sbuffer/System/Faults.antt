-- ===== src/Sbuffer/System/Faults.antt =====
-- sbuffer.c: when a step of the two threads faults, in every reachable state.
use osc_final_lab.Common.{
  ℕ, ◌≡◌, ◌≢◌, ◌↔◌, refl, sym, ap, ◌∙◌, none, some, List, [], ◌∷◌, ◌++◌, length, length-append,
  arith, ==_of_ne, Run, ok, fault,
}
use mathlib.Core.List.{append-nil}
use osc_final_lab.Config.{SensorData}
use osc_final_lab.Sbuffer.Memory.{Ptr, Mem}
use osc_final_lab.Sbuffer.Queue.{Items, Queue, Outcome, peek, mark_front}
use osc_final_lab.Sbuffer.Refine.{Refines}
use osc_final_lab.Sbuffer.Remove.{sbuffer_remove-Refines}
use osc_final_lab.Sbuffer.Peek.{sbuffer_peek-Refines}
use osc_final_lab.Sbuffer.System.Invariant.{pending, readings, After}
use osc_final_lab.Sbuffer.System.Removing.{remove-keeps}
use osc_final_lab.Sbuffer.System.Peeking.{WokenOnNothing, peek-keeps}
use osc_final_lab.Sbuffer.System.Safety.{Reachable-Safe}
use osc_final_lab.Sbuffer.System.{System, Reachable}
use osc_final_lab.Sbuffer.{Stand, wait_turn, sbuffer_remove, sbuffer_peek}

module _ {V : Type 0} (buffer : Ptr) where
  runs :
      (P : Stand V → Items V → ℕ → Type 0) (r : Run (Mem V) (Stand V)) (o : Outcome V)
      → Refines buffer r o
      → After ⊥ P o
      → (t : Stand V) × (g : Mem V) × (r ≡ ok t g)
  runs P (ok t g) o refines after = (t, g, refl)
  runs P fault none refines after = absurd after
  runs P fault (some q) refines after = absurd refines

  -- In every reachable state of the threads, the next step of `sbuffer_remove` does not fault,
  -- wherever the call stands and even when it wakes without a signal.
  pub sbuffer_remove-runs :
      {s : System V}
      → Reachable buffer s
      → (t : Stand V) × (g : Mem V) × (sbuffer_remove buffer s.remover s.mem ≡ ok t g)
  sbuffer_remove-runs {s} reached =
      let safe = Reachable-Safe buffer reached in
      runs _ _ _ (sbuffer_remove-Refines buffer s.mem s.remover safe.q safe.represents) (
        remove-keeps s.inserted s.saved s.seen s.peeker s.remover safe.q.items safe.q.condition
          safe.invariant)

  none_left :
      (a b : List (SensorData V)) (items : Items V)
      → a ++ (b ++ readings items) ≡ a ++ b
      → items ≡ []
  none_left a b [] e = refl
  none_left a b ((x, k) ∷ xs) e = absurd (
      omega (
        arith,
        ap length e,
        length-append a (b ++ x ∷ readings xs),
        length-append b (x ∷ readings xs),
        length-append a b,
      ))

  woken :
      (P : Stand V → Items V → ℕ → Type 0) (N : Type 0) (r : Run (Mem V) (Stand V)) (o : Outcome V)
      → Refines buffer r o
      → After N P o
      → r ≡ fault
      → N
  woken P N (ok t g) o refines after e = cc
  woken P N fault none refines after e = after
  woken P N fault (some q) refines after e = absurd refines

  fault_of : (r : Run (Mem V) (Stand V)) → Refines buffer r none → r ≡ fault
  fault_of (ok t g) refines = absurd refines
  fault_of fault refines = refl

  peek-none :
      (p : Stand V) (q : Queue V) → p ≡ wait_turn → q.items ≡ [] → q.condition ≢ 2 → peek p q ≡ none
  unfolding peek mark_front
  peek-none p q turn empty ne =
      ap (λ s. peek s q) turn
      ∙ rw (==_of_ne q.condition 2 ne) (ap (λ i. mark_front i q.condition) empty)

  -- In every reachable state of the threads, the next step of `sbuffer_peek` faults if and only
  -- if the call stands in the wait for its turn, every inserted reading has been removed, and
  -- `condition` is not 2.
  pub sbuffer_peek-fault :
      {s : System V}
      → Reachable buffer s
      → (sbuffer_peek buffer s.peeker s.mem ≡ fault) ↔ (
          (s.peeker ≡ wait_turn)
          × (s.inserted ≡ s.saved ++ pending s.remover)
          × (s.mem.condition ≢ 2))
  sbuffer_peek-fault {s} reached =
      let safe = Reachable-Safe buffer reached in
      let refines = sbuffer_peek-Refines buffer s.mem s.peeker safe.q safe.represents in
      (
        (λ e.
            let (turn, empty, c) =
              woken _
                (WokenOnNothing s.inserted s.saved s.seen s.remover s.peeker safe.q.items
                  safe.q.condition)
                _ _ refines
                (peek-keeps s.inserted s.saved s.seen s.remover s.peeker safe.q.items
                  safe.q.condition safe.invariant)
                e in
            (
              turn,
              safe.invariant.in_order
                  ∙ rw empty (ap (λ l. s.saved ++ l) (append-nil (pending s.remover))),
              λ two. c (safe.represents.condition ∙ two),
            )),
        (λ (turn, all, c). fault_of _ (
            rw
              (peek-none s.peeker safe.q turn
                (none_left s.saved (pending s.remover) safe.q.items
                  (sym safe.invariant.in_order ∙ all))
                (λ two. c (sym safe.represents.condition ∙ two)))
              at refines)),
      )

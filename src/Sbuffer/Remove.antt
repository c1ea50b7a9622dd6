-- ===== src/Sbuffer/Remove.antt =====
-- sbuffer.c: `sbuffer_remove`, from any place where a call can stand.
use osc_final_lab.Common.{◌≡◌, refl, sym, [], ◌∷◌, ◌==◌, ==_of_ne, Bool-cases, inl, inr}
use mathlib.Core.Path.{subst}
use osc_final_lab.Sbuffer.Memory.{Ptr, null, Mem}
use osc_final_lab.Sbuffer.Queue.{Queue, queue, remove, remove_start}
use osc_final_lab.Sbuffer.Chain.{Cells, items_of, Held, Represents}
use osc_final_lab.Sbuffer.Refine.{
  Refines, unchanged, load_buffer-ok, remove_take-Refines, remove_check-Refines,
}
use osc_final_lab.Sbuffer.{Stand, start, wait_filled, wait_turn, ending, returned, sbuffer_remove}

-- A queue that a memory represents is the one of its nodes.
pub queue_of :
    {V : Type 0} {buffer : Ptr} {m : Mem V} {q : Queue V} (r : Represents buffer m q)
    → q ≡ queue (items_of r.cells) m.condition
queue_of r = λ i. record { items = r.items i; condition = r.condition i }

module _ {V : Type 0} (buffer : Ptr) (m : Mem V) where
  remove-Held :
      (s : Stand V) (cells : Cells V)
      → Held buffer m cells
      → Refines buffer (sbuffer_remove buffer s m) (remove s (queue (items_of cells) m.condition))
  unfolding sbuffer_remove remove remove_start
  remove-Held start [] held =
      rw (==_of_ne buffer null held.not_null, load_buffer-ok m buffer held.not_null held.buffer_at)
        (refl, unchanged buffer m [] 0 held)
  remove-Held start ((p, x, b) ∷ cs) held =
      rw
        (
          ==_of_ne buffer null held.not_null,
          load_buffer-ok m buffer held.not_null held.buffer_at,
          ==_of_ne p null held.chain.0,
        )
        (remove_check-Refines buffer m ((p, x, b) ∷ cs) held)
  remove-Held wait_filled cells held = elim (Bool-cases (m.condition == 0)) [
    | inl still ↦ rw still (refl, unchanged buffer m cells m.condition held)
    | inr woken ↦ rw woken (remove_check-Refines buffer m cells held)
  ]
  remove-Held wait_turn cells held = elim (Bool-cases (m.condition == 1)) [
    | inl still ↦ rw still (refl, unchanged buffer m cells m.condition held)
    | inr woken ↦ rw woken (remove_take-Refines buffer m cells held)
  ]
  remove-Held (ending c) cells held = (refl, unchanged buffer m cells c held)
  remove-Held (returned r) cells held = (refl, unchanged buffer m cells m.condition held)

  -- If the nodes in memory represent a queue, a step of `sbuffer_remove`, from any place where
  -- the call can stand, ends as the step `remove` of the queue does, in a memory that represents
  -- the queue after it, and faults exactly when the queue has no step.
  pub sbuffer_remove-Refines :
      (s : Stand V) (q : Queue V)
      → Represents buffer m q
      → Refines buffer (sbuffer_remove buffer s m) (remove s q)
  sbuffer_remove-Refines s q r =
      subst (λ p. Refines buffer (sbuffer_remove buffer s m) (remove s p)) (sym (queue_of r))
        (remove-Held s r.cells r.held)

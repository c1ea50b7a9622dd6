-- ===== src/Sbuffer/System/Safety.antt =====
-- sbuffer.c: every reachable state is safe, whatever the order in which the threads run.
use osc_final_lab.Common.{ℕ, refl, none, some, [], ok, Returns-ok}
use osc_final_lab.Sbuffer.Memory.{Ptr, Mem}
use osc_final_lab.Sbuffer.Queue.{Items, Queue, queue, Outcome, insert}
use osc_final_lab.Sbuffer.Chain.{Represents}
use osc_final_lab.Sbuffer.Refine.{Refines}
use osc_final_lab.Sbuffer.Remove.{sbuffer_remove-Refines}
use osc_final_lab.Sbuffer.Peek.{sbuffer_peek-Refines}
use osc_final_lab.Sbuffer.Insert.{sbuffer_insert-insert, sbuffer_init-queue}
use osc_final_lab.Sbuffer.System.Invariant.{Invariant, After}
use osc_final_lab.Sbuffer.System.Removing.{remove-keeps}
use osc_final_lab.Sbuffer.System.Peeking.{peek-keeps}
use osc_final_lab.Sbuffer.System.Inserting.{insert-keeps, saved-keeps, seen-keeps}
use osc_final_lab.Sbuffer.System.{
  System, Step, inserts, removes, peeks, saves, sees, Reachable, initial, later,
}
use osc_final_lab.Sbuffer.{Stand}

module _ {V : Type 0} (buffer : Ptr) where
  pub record Safe (s : System V) : Type 0 where
    pub q : Queue V
    pub represents : Represents buffer s.mem q
    pub invariant : Invariant s.inserted s.saved s.seen s.remover s.peeker q.items q.condition

  -- A step of the code is the step of the queue.
  follow :
      (N : Type 0) (P : Stand V → Items V → ℕ → Type 0) (o : Outcome V) {t : Stand V} {g : Mem V}
      → Refines buffer (ok t g) o
      → After N P o
      → (q : Queue V) × Represents buffer g q × P t q.items q.condition
  follow N P none refines after = absurd refines
  follow N P (some (t', q)) (same, represents) after = (q, represents, rw same after)

  Safe-Step : {s t : System V} → Safe s → Step buffer s t → Safe t
  Safe-Step {s} safe (inserts fresh x g ne unused e) =
      let (_, represents) =
        Returns-ok (sbuffer_insert-insert buffer fresh x s.mem safe.q safe.represents ne unused)
          e in
      record {
        q = insert x safe.q.items safe.q.condition;
        represents = represents;
        invariant =
            insert-keeps s.inserted s.saved s.seen s.remover s.peeker x safe.q.items
              safe.q.condition safe.invariant;
      }
  Safe-Step {s} safe (removes t g e) =
      let (q, represents, invariant) =
        follow _ _ _
          (rw e at (sbuffer_remove-Refines buffer s.mem s.remover safe.q safe.represents))
          (remove-keeps s.inserted s.saved s.seen s.peeker s.remover safe.q.items safe.q.condition
            safe.invariant) in
      record { q = q; represents = represents; invariant = invariant }
  Safe-Step {s} safe (peeks t g e) =
      let (q, represents, invariant) =
        follow _ _ _ (rw e at (sbuffer_peek-Refines buffer s.mem s.peeker safe.q safe.represents)) (
          peek-keeps s.inserted s.saved s.seen s.remover s.peeker safe.q.items safe.q.condition
            safe.invariant) in
      record { q = q; represents = represents; invariant = invariant }
  Safe-Step {s} safe (saves x e) = record {
    q = safe.q;
    represents = safe.represents;
    invariant =
        saved-keeps s.inserted s.saved s.seen x safe.q.items safe.q.condition s.peeker
          (rw e at safe.invariant);
  }
  Safe-Step {s} safe (sees x e) = record {
    q = safe.q;
    represents = safe.represents;
    invariant =
        seen-keeps s.inserted s.saved s.seen x safe.q.items safe.q.condition s.remover
          (rw e at safe.invariant);
  }

  pub Reachable-Safe : {s : System V} → Reachable buffer s → Safe s
  Reachable-Safe (initial m g e) = record {
    q = queue [] m.condition;
    represents = sbuffer_init-queue buffer buffer m g e;
    invariant = record {
      well_marked = tt;
      remover_ok = tt;
      peeker_ok = tt;
      filled = tt;
      saved_ids = tt;
      in_order = refl;
      seen_first = refl;
    };
  }
  Reachable-Safe (later r step) = Safe-Step (Reachable-Safe r) step

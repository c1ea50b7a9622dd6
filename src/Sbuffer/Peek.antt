-- ===== src/Sbuffer/Peek.antt =====
-- sbuffer.c: `sbuffer_peek`, from any place where a call can stand.
use osc_final_lab.Common.{
  ◌≡◌, refl, sym, Bool, true, false, some, [], ◌∷◌, ◌==◌, ◌∙◌, ap, arith, ==_of_ne, Bool-cases, inl,
  inr,
}
use mathlib.Core.Path.{subst}
use osc_final_lab.Config.{SensorData}
use osc_final_lab.Sbuffer.Memory.{Ptr, null, Mem, update, store_node}
use osc_final_lab.Sbuffer.Queue.{Queue, queue, mark_front, look_front, peek, peek_start}
use osc_final_lab.Sbuffer.Chain.{Cells, first, last, items_of, Chain-frame, Held, Represents}
use osc_final_lab.Sbuffer.Refine.{Refines, unchanged, load_buffer-ok, load_node-ok, load_node-null}
use osc_final_lab.Sbuffer.Remove.{queue_of}
use osc_final_lab.Sbuffer.{
  Stand, start, wait_filled, wait_turn, ending, returned, success, peek_take, peek_check,
  sbuffer_peek,
}

same_last :
    {V : Type 0} (p : Ptr) (x : SensorData V) (b : Bool) (cs : Cells V)
    → last ((p, x, b) ∷ cs) ≡ last ((p, x, true) ∷ cs)
same_last p x b [] = refl
same_last p x b (c ∷ cs) = refl

module _ {V : Type 0} (buffer : Ptr) (m : Mem V) where
  marked :
      (p : Ptr) (x : SensorData V) (b : Bool) (cs : Cells V)
      → Held buffer m ((p, x, b) ∷ cs)
      → Represents buffer
          (record m {
            nodes =
                update m.nodes p
                  (some (record { next = first cs; is_processed = true; content = x }));
            condition = 2;
          })
          (queue ((x, true) ∷ items_of cs) 2)
  marked p x b cs held =
      let (ne, out, at, rest) = held.chain in
      record {
        cells = (p, x, true) ∷ cs;
        held = record {
          not_null = held.not_null;
          buffer_at =
              held.buffer_at ∙ ap (λ l. some (record { head = p; tail = l })) (same_last p x b cs);
          chain = (ne, out, ground arith, Chain-frame m.nodes _ cs (λ a i. ground arith) rest);
        };
        items = refl;
        condition = refl;
      }

  peek_take-reading :
      (p : Ptr) (x : SensorData V) (b : Bool) (cs : Cells V)
      → Held buffer m ((p, x, b) ∷ cs)
      → (x.id == 0) ≡ false
      → Refines buffer
          (peek_take buffer m)
          (some (returned (success x), queue ((x, true) ∷ items_of cs) 2))
  unfolding peek_take store_node
  peek_take-reading p x b cs held some_id =
      let (ne, out, at, rest) = held.chain in
      rw (load_buffer-ok m buffer held.not_null held.buffer_at, load_node-ok m p ne at, some_id)
        (refl, marked p x b cs held)

  peek_take-Refines :
      (cells : Cells V)
      → Held buffer m cells
      → Refines buffer (peek_take buffer m) (mark_front (items_of cells) m.condition)
  unfolding peek_take mark_front store_node
  peek_take-Refines [] held =
      rw (load_buffer-ok m buffer held.not_null held.buffer_at, load_node-null m) tt
  peek_take-Refines ((p, x, b) ∷ cs) held =
      let (ne, out, at, rest) = held.chain in
      rw (load_buffer-ok m buffer held.not_null held.buffer_at, load_node-ok m p ne at)
        (elim (Bool-cases (x.id == 0)) [
          | inl end ↦ rw end (refl, unchanged buffer m ((p, x, b) ∷ cs) m.condition held)
          | inr some_id ↦ rw some_id (refl, marked p x b cs held)
        ])

  peek_check-Refines :
      (cells : Cells V)
      → Held buffer m cells
      → Refines buffer (peek_check buffer m) (look_front (items_of cells) m.condition)
  unfolding peek_check look_front mark_front
  peek_check-Refines [] held =
      rw (load_buffer-ok m buffer held.not_null held.buffer_at, load_node-null m) tt
  peek_check-Refines ((p, x, true) ∷ cs) held =
      let (ne, out, at, rest) = held.chain in
      rw (load_buffer-ok m buffer held.not_null held.buffer_at, load_node-ok m p ne at)
        (elim (Bool-cases (x.id == 0)) [
          | inl end ↦ rw end (refl, unchanged buffer m ((p, x, true) ∷ cs) m.condition held)
          | inr some_id ↦ rw some_id (refl, unchanged buffer m ((p, x, true) ∷ cs) 2 held)
        ])
  peek_check-Refines ((p, x, false) ∷ cs) held =
      let (ne, out, at, rest) = held.chain in
      rw (load_buffer-ok m buffer held.not_null held.buffer_at, load_node-ok m p ne at)
        (elim (Bool-cases (x.id == 0)) [
          | inl end ↦ rw end (refl, unchanged buffer m ((p, x, false) ∷ cs) m.condition held)
          | inr some_id ↦ rw some_id (peek_take-reading p x false cs held some_id)
        ])

  peek-Held :
      (s : Stand V) (cells : Cells V)
      → Held buffer m cells
      → Refines buffer (sbuffer_peek buffer s m) (peek s (queue (items_of cells) m.condition))
  unfolding sbuffer_peek peek peek_start
  peek-Held start [] held =
      rw (==_of_ne buffer null held.not_null, load_buffer-ok m buffer held.not_null held.buffer_at)
        (refl, unchanged buffer m [] 0 held)
  peek-Held start ((p, x, b) ∷ cs) held =
      rw
        (
          ==_of_ne buffer null held.not_null,
          load_buffer-ok m buffer held.not_null held.buffer_at,
          ==_of_ne p null held.chain.0,
        )
        (peek_check-Refines ((p, x, b) ∷ cs) held)
  peek-Held wait_filled cells held = elim (Bool-cases (m.condition == 0)) [
    | inl still ↦ rw still (refl, unchanged buffer m cells m.condition held)
    | inr woken ↦ rw woken (peek_check-Refines cells held)
  ]
  peek-Held wait_turn cells held = elim (Bool-cases (m.condition == 2)) [
    | inl still ↦ rw still (refl, unchanged buffer m cells m.condition held)
    | inr woken ↦ rw woken (peek_take-Refines cells held)
  ]
  peek-Held (ending c) cells held = (refl, unchanged buffer m cells c held)
  peek-Held (returned r) cells held = (refl, unchanged buffer m cells m.condition held)

  -- If the nodes in memory represent a queue, a step of `sbuffer_peek`, from any place where the
  -- call can stand, ends as the step `peek` of the queue does, in a memory that represents the
  -- queue after it, and faults exactly when the queue has no step.
  pub sbuffer_peek-Refines :
      (s : Stand V) (q : Queue V)
      → Represents buffer m q
      → Refines buffer (sbuffer_peek buffer s m) (peek s q)
  sbuffer_peek-Refines s q r =
      subst (λ p. Refines buffer (sbuffer_peek buffer s m) (peek s p)) (sym (queue_of r))
        (peek-Held s r.cells r.held)

-- ===== src/Sbuffer/Refine.antt =====
-- sbuffer.c: each step on the nodes is the step of the queue that they stand for.
use osc_final_lab.Common.{
  ℕ, ◌≡◌, ◌≢◌, refl, Bool, true, false, none, some, [], ◌∷◌, arith, ◌==◌, if◌then◌else◌, ==_of_ne,
  ==_of_eq, Bool-cases, Option-cases, inl, inr, pure, ◌>>◌, Run, ok, fault,
}
use osc_final_lab.Config.{SensorData}
use osc_final_lab.Sbuffer.Memory.{
  Ptr, null, SbufferNode, Sbuffer, Mem, update, load_node, load_buffer, store_buffer, free_node,
}
use osc_final_lab.Sbuffer.Queue.{queue, Outcome, take_front, check_front}
use osc_final_lab.Sbuffer.Chain.{
  ne_of_has, last_holds, Cells, first, last, items_of, Chain-frame, Held, Represents,
}
use osc_final_lab.Sbuffer.{Stand, returned, success, remove_take, remove_check}

-- The step ends where the queue says, in a memory that represents its state, and faults where the
-- queue has no step.
abbrev pub Refines : {V : Type 0} → Ptr → Run (Mem V) (Stand V) → Outcome V → Type 0
Refines buffer (ok s m) (some (t, q)) = (s ≡ t) × Represents buffer m q
Refines buffer (ok s m) none = ⊥
Refines buffer fault (some o) = ⊥
Refines buffer fault none = Unit {0}

module _ {V : Type 0} (m : Mem V) where
  pub load_node-ok :
      (p : Ptr) {n : SbufferNode V} → p ≢ null → m.nodes p ≡ some n → load_node p m ≡ ok n m
  unfolding load_node
  load_node-ok p ne at = rw (at, ==_of_ne p null ne)

  pub load_node-null : load_node null m ≡ fault
  unfolding load_node
  load_node-null = elim (Option-cases (m.nodes null)) [
    | inl empty ↦ rw empty
    | inr (n, full) ↦ rw full
  ]

  pub load_buffer-ok :
      (p : Ptr) {b : Sbuffer} → p ≢ null → m.buffers p ≡ some b → load_buffer p m ≡ ok b m
  unfolding load_buffer
  load_buffer-ok p ne at = rw (at, ==_of_ne p null ne)

  pub free_node-ok :
      (p : Ptr) {n : SbufferNode V}
      → p ≢ null
      → m.nodes p ≡ some n
      → free_node p m ≡ ok tt (record m { nodes = update m.nodes p none })
  unfolding free_node
  free_node-ok p ne at = rw (load_node-ok p ne at)

module _ {V : Type 0} (buffer : Ptr) (m : Mem V) where
  pub unchanged :
      (cells : Cells V) (c : ℕ)
      → Held buffer m cells
      → Represents buffer (record m { condition = c }) (queue (items_of cells) c)
  unchanged cells c held = record {
    cells = cells;
    held = record { not_null = held.not_null; buffer_at = held.buffer_at; chain = held.chain };
    items = refl;
    condition = refl;
  }

  popped :
      (p : Ptr) (x : SensorData V) (b : Bool) (cs : Cells V)
      → Held buffer m ((p, x, b) ∷ cs)
      → Represents buffer
          (record m {
            nodes = update m.nodes p none;
            buffers = update m.buffers buffer (some (record { head = first cs; tail = last cs }));
          })
          (queue (items_of cs) m.condition)
  popped p x b cs held =
      let (ne, out, at, rest) = held.chain in
      record {
        cells = cs;
        held = record {
          not_null = held.not_null;
          buffer_at = ground arith;
          chain = Chain-frame m.nodes (update m.nodes p none) cs (λ a i. ground arith) rest;
        };
        items = refl;
        condition = refl;
      }

  unlink_front :
      (p : Ptr) (x : SensorData V) (b : Bool) (cs : Cells V)
      → Held buffer m ((p, x, b) ∷ cs)
      → Refines buffer
          ((do
            (if p == last ((p, x, b) ∷ cs)
                then store_buffer buffer (record { head = null; tail = null })
                else store_buffer buffer (record { head = first cs; tail = last ((p, x, b) ∷ cs) }))
            free_node p
            pure (returned (success x)))
            m)
          (some (returned (success x), queue (items_of cs) m.condition))
  unfolding store_buffer
  unlink_front p x b [] held =
      let (ne, out, at, rest) = held.chain in
      let m1 : Mem V = record m {
        buffers = update m.buffers buffer (some (record { head = null; tail = null }));
      } in
      rw (==_of_eq p p refl, free_node-ok m1 p ne at) (refl, popped p x b [] held)
  unlink_front p x b (c ∷ cs) held =
      let (ne, out, at, rest) = held.chain in
      let (n, lne, on, holds) = last_holds m.nodes c cs rest in
      let m1 : Mem V = record m {
        buffers =
            update m.buffers buffer (some (record { head = first (c ∷ cs); tail = last (c ∷ cs) }));
      } in
      rw (==_of_ne p (last (c ∷ cs)) (ne_of_has (c ∷ cs) on out), free_node-ok m1 p ne at)
        (refl, popped p x b (c ∷ cs) held)

  pub remove_take-Refines :
      (cells : Cells V)
      → Held buffer m cells
      → Refines buffer (remove_take buffer m) (take_front (items_of cells) m.condition)
  unfolding remove_take take_front
  remove_take-Refines [] held =
      rw (load_buffer-ok m buffer held.not_null held.buffer_at, load_node-null m) tt
  remove_take-Refines ((p, x, b) ∷ cs) held =
      let (ne, out, at, rest) = held.chain in
      rw (load_buffer-ok m buffer held.not_null held.buffer_at, load_node-ok m p ne at)
        (elim (Bool-cases (x.id == 0)) [
          | inl end ↦ rw end (refl, unchanged ((p, x, b) ∷ cs) m.condition held)
          | inr some_id ↦ rw some_id (unlink_front p x b cs held)
        ])

  pub remove_check-Refines :
      (cells : Cells V)
      → Held buffer m cells
      → Refines buffer (remove_check buffer m) (check_front (items_of cells) m.condition)
  unfolding remove_check check_front
  remove_check-Refines [] held =
      rw (load_buffer-ok m buffer held.not_null held.buffer_at, load_node-null m) tt
  remove_check-Refines ((p, x, true) ∷ cs) held =
      let (ne, out, at, rest) = held.chain in
      let take = remove_take-Refines ((p, x, true) ∷ cs) held in
      rw (load_buffer-ok m buffer held.not_null held.buffer_at, load_node-ok m p ne at)
        (elim (Bool-cases (x.id == 0)) [ inl end ↦ rw end take | inr some_id ↦ rw some_id take ])
  remove_check-Refines ((p, x, false) ∷ cs) held =
      let (ne, out, at, rest) = held.chain in
      rw (load_buffer-ok m buffer held.not_null held.buffer_at, load_node-ok m p ne at)
        (elim (Bool-cases (x.id == 0)) [
          | inl end ↦ rw end (refl, unchanged ((p, x, false) ∷ cs) m.condition held)
          | inr some_id ↦ rw some_id (refl, unchanged ((p, x, false) ∷ cs) 1 held)
        ])

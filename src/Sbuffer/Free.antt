-- ===== src/Sbuffer/Free.antt =====
-- sbuffer.c: `sbuffer_free`.
use osc_final_lab.Common.{
  ℕ, zero, suc, ◌≡◌, ◌≢◌, ◌<◌, refl, ◌∙◌, ap, Bool, true, false, Option, none, some, [], ◌∷◌, arith,
  length, ==_of_ne, Bool-cases, inl, inr, Returns, returns, Returns-mono, Returns-bind,
}
use osc_final_lab.Config.{SensorData}
use osc_final_lab.Sbuffer.Memory.{
  Ptr, null, SbufferNode, Mem, update, update-here, update-away, store_buffer, free_buffer,
}
use osc_final_lab.Sbuffer.Queue.{Queue}
use osc_final_lab.Sbuffer.Chain.{
  Cells, first, last, has, off_head, off_tail, items_of, Chain, Chain-frame, Represents,
}
use osc_final_lab.Sbuffer.Refine.{load_buffer-ok, load_node-ok, free_node-ok}
use osc_final_lab.Sbuffer.{free_nodes, sbuffer_free}

module _ {V : Type 0} where
  length-items_of : (cells : Cells V) → length (items_of cells) ≡ length cells
  length-items_of [] = refl
  length-items_of ((p, x, b) ∷ cs) = ap suc (length-items_of cs)

  -- `g` is `h` without the nodes `cells`.
  abbrev pub Without :
      Cells V → (Ptr → Option (SbufferNode V)) → (Ptr → Option (SbufferNode V)) → Type 0
  Without cells h g =
      ((a : Ptr) → has a cells ≡ true → g a ≡ none) × ((a : Ptr) → has a cells ≡ false → g a ≡ h a)

  Without-cons :
      (h g : Ptr → Option (SbufferNode V)) (p : Ptr) (x : SensorData V) (b : Bool) (cs : Cells V)
      → has p cs ≡ false
      → Without cs (update h p none) g
      → Without ((p, x, b) ∷ cs) h g
  Without-cons h g p x b cs out (gone, kept) = (
    (λ a i. elim (Bool-cases (has a cs)) [
      | inl later ↦ gone a later
      | inr off ↦ kept a off ∙ ground arith
    ]),
    (λ a i. kept a (off_tail a p x b cs i) ∙ update-away h p a none (off_head a p x b cs i)),
  )

  -- What the loop leaves: an empty head, and none of the nodes.
  abbrev Emptied : Ptr → Cells V → Mem V → Unit {0} → Mem V → Type 0
  Emptied buffer cells m _ g =
      (t : Ptr) × (g.buffers buffer ≡ some (record { head = null; tail = t }))
      × Without cells m.nodes g.nodes

  free_nodes-Emptied :
      (fuel : ℕ) (buffer tail : Ptr) (m : Mem V) (cells : Cells V)
      → buffer ≢ null
      → m.buffers buffer ≡ some (record { head = first cells; tail = tail })
      → Chain m.nodes cells
      → length cells < fuel
      → Returns (Emptied buffer cells m) (free_nodes fuel buffer m)
  unfolding free_nodes store_buffer
  free_nodes-Emptied zero buffer tail m cells ne at chain enough = absurd (omega arith)
  free_nodes-Emptied (suc fuel) buffer tail m [] ne at chain enough =
      rw (load_buffer-ok m buffer ne at)
        (returns (tail, at, ((λ a i. absurd (ground arith)), (λ a i. refl))))
  free_nodes-Emptied (suc fuel) buffer tail m ((p, x, b) ∷ cs) ne at (pne, out, holds, rest)
        enough =
      let m1 : Mem V = record m {
        buffers = update m.buffers buffer (some (record { head = first cs; tail = tail }));
      } in
      let m2 : Mem V = record m1 { nodes = update m.nodes p none } in
      rw
        (
          load_buffer-ok m buffer ne at,
          ==_of_ne p null pne,
          load_node-ok m p pne holds,
          free_node-ok m1 p pne holds,
        )
        (Returns-mono
          (free_nodes-Emptied fuel buffer tail m2 cs ne (update-here m.buffers buffer _)
            (Chain-frame m.nodes m2.nodes cs (λ a i. ground arith) rest) (omega arith))
          (λ _ g (t, empty, without).
            (t, empty, Without-cons m.nodes g.nodes p x b cs out without)))

  -- What `sbuffer_free` leaves: success, NULL in `*buffer`, no struct there, and none of the nodes.
  abbrev pub Freed : Ptr → Cells V → Mem V → Bool × Ptr → Mem V → Type 0
  Freed buffer cells m r g =
      (r ≡ (true, null)) × (g.buffers buffer ≡ none) × Without cells m.nodes g.nodes

  -- If the nodes in memory represent a queue and there is fuel for more rounds than the queue has
  -- readings, the loop of `sbuffer_free` ends, the call succeeds and leaves NULL in `*buffer`,
  -- the struct and each of its nodes are freed, and no other node has changed.
  pub sbuffer_free-Freed :
      (fuel : ℕ) (buffer : Ptr) (m : Mem V) (q : Queue V) (r : Represents buffer m q)
      → length q.items < fuel
      → Returns (Freed buffer r.cells m) (sbuffer_free fuel buffer m)
  unfolding sbuffer_free free_buffer
  sbuffer_free-Freed fuel buffer m q r enough =
      let fits : length r.cells < fuel = (rw (← length-items_of r.cells, ← r.items) enough) in
      rw (==_of_ne buffer null r.held.not_null) (
        Returns-bind
          (free_nodes-Emptied fuel buffer (last r.cells) m r.cells r.held.not_null r.held.buffer_at
            r.held.chain fits)
          (λ _ g (t, empty, without).
            rw (load_buffer-ok g buffer r.held.not_null empty)
              (returns (refl, update-here g.buffers buffer none, without))))

-- ===== src/Sbuffer/System/Progress.antt =====
-- sbuffer.c: the two threads do not wait for each other.
use osc_final_lab.Common.{ℕ, ◌≡◌, ◌⊎◌, inl, inr, refl, ap, ◌∙◌, [], ◌∷◌, ◌++◌, arith}
use mathlib.Core.List.{append-nil}
use osc_final_lab.Sbuffer.Memory.{Ptr}
use osc_final_lab.Sbuffer.Queue.{Items}
use osc_final_lab.Sbuffer.System.Invariant.{Filled, pending, readings}
use osc_final_lab.Sbuffer.System.Safety.{Reachable-Safe}
use osc_final_lab.Sbuffer.System.{System, Reachable}
use osc_final_lab.Sbuffer.{Stand, wait_filled, wait_turn}

-- A call that goes on waiting when it wakes; `turn` is the value of `condition` for which its second
-- wait does.
abbrev pub Waits : {V : Type 0} → (turn : ℕ) → Stand V → ℕ → Type 0
Waits turn s c = ((s ≡ wait_filled) × (c ≡ 0)) ⊎ ((s ≡ wait_turn) × (c ≡ turn))

module _ {V : Type 0} where
  all_taken :
      (items : Items V) (c : ℕ) (r p : Stand V)
      → Filled items c
      → Waits 1 r c
      → Waits 2 p c
      → items ≡ []
  all_taken [] c r p filled waits_r waits_p = refl
  all_taken (x ∷ xs) c r p filled (inl (_, zero_c)) waits_p = absurd (filled zero_c)
  all_taken (x ∷ xs) c r p filled (inr (_, one)) (inl (_, zero_c)) = absurd (filled zero_c)
  all_taken (x ∷ xs) c r p filled (inr (_, one)) (inr (_, two)) = absurd (omega arith)

  none_pending : (r : Stand V) (c : ℕ) → Waits 1 r c → pending r ≡ []
  none_pending r c (inl (at, _)) = ap pending at
  none_pending r c (inr (at, _)) = ap pending at

  -- In every reachable state of the threads in which both `sbuffer_remove` and `sbuffer_peek`
  -- would go on waiting when they wake, every inserted reading has been stored: the two threads
  -- never wait for each other while there is a reading in the buffer.
  pub waits-all_saved :
      (buffer : Ptr) {s : System V}
      → Reachable buffer s
      → Waits 1 s.remover s.mem.condition
      → Waits 2 s.peeker s.mem.condition
      → s.inserted ≡ s.saved
  waits-all_saved buffer {s} reached waits_r waits_p =
      let safe = Reachable-Safe buffer reached in
      let same = safe.represents.condition in
      let filled : Filled safe.q.items s.mem.condition = (rw same at safe.invariant.filled) in
      safe.invariant.in_order
      ∙ ap (λ items. s.saved ++ (pending s.remover ++ readings items))
          (all_taken safe.q.items s.mem.condition s.remover s.peeker filled waits_r waits_p)
      ∙ ap (λ l. s.saved ++ (l ++ [])) (none_pending s.remover s.mem.condition waits_r)
      ∙ append-nil s.saved

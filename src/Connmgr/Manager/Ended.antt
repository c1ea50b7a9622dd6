-- ===== src/Connmgr/Manager/Ended.antt =====
-- connmgr.c: what has been inserted when `connmgr_init` is at its end, and where it stops before.
use osc_final_lab.Common.{
  ℕ, zero, suc, ◌<◌, ◌≡◌, refl, sym, ap, ◌∙◌, true, some, List, [], ◌∷◌, ◌++◌, map, length,
  get_elem?, ℤ, pos, arith, ltb_ℤ,
}
use mathlib.Core.Path.{subst}
use mathlib.Core.List.{append-nil}
use osc_final_lab.Config.{SensorData}
use osc_final_lab.Tcpsock.{no_error, tcp_close}
use osc_final_lab.Tcpsock.Opening.{tcp_close-some}
use osc_final_lab.Connmgr.Interleaving.{Interleaving}
use osc_final_lab.Connmgr.Manager.Invariant.{Kept, FinishedFrom, dones}
use osc_final_lab.Connmgr.Manager.Steps.{Reachable-Holds, Holds-at}
use osc_final_lab.Connmgr.Manager.{
  Thread, run_of, Manager, accepting, joining, closing, ended, Reachable,
}

module _ {A : Type 0} where
  get_elem?-some : (n : ℕ) (xs : List A) → n < length xs → (x : A) × (get_elem? xs n ≡ some x)
  get_elem?-some n [] lt = absurd (omega arith)
  get_elem?-some zero (x ∷ xs) lt = (x, refl)
  get_elem?-some (suc n) (x ∷ xs) lt = get_elem?-some n xs (omega arith)

module _ {V : Type 0} where
  abbrev pub insertions : List (Thread V) → List (List (SensorData V))
  insertions ts = map (λ t. (run_of t).inserted) ts

  insertions-dones : (ts : List (Thread V)) → Kept ts → FinishedFrom 0 ts → dones ts ≡ insertions ts
  insertions-dones [] kept f = refl
  insertions-dones (t ∷ ts) (k, kept) ((none_left, _), f) =
      let same : t.done ≡ (run_of t).inserted =
        sym (append-nil t.done) ∙ ap (λ l. t.done ++ l) (sym none_left) ∙ k in
      cc (same, insertions-dones ts kept f)

module _ {V : Type 0} {max_con port : ℤ} {m : Manager V} where
  -- In every reachable state where `connmgr_init` has come to its end, MAX_CONN clients have been
  -- accepted, and what was inserted is an interleaving of exactly the readings that
  -- `handle_client` inserts for each of them, followed by one mark with the id 0.
  pub Reachable-insertions :
      Reachable max_con port m
      → m.phase ≡ ended
      → (readings : List (SensorData V)) × (mark : SensorData V) × (mark.id ≡ 0)
        × (m.inserted ≡ readings ++ mark ∷ [])
        × Interleaving (insertions m.threads) readings
        × (pos (length m.threads) ≡ max_con)
  Reachable-insertions reached at =
      let h = Reachable-Holds reached in
      let ((mark, zero_id, all), (full, finished), _) = Holds-at h at in
      (
        h.readings,
        mark,
        zero_id,
        all,
        subst (λ ls. Interleaving ls h.readings) (insertions-dones m.threads h.kept finished)
            h.interleaved,
        full,
      )

  -- In every reachable state where `connmgr_init` is about to accept a client, `conn_counter` is
  -- the number of clients accepted so far and less than MAX_CONN, so that the arrays are written
  -- within their bounds.
  pub Reachable-accepting :
      (n : ℕ)
      → Reachable max_con port m
      → m.phase ≡ accepting n
      → (length m.threads ≡ n) × (ltb_ℤ (pos n) max_con ≡ true)
  Reachable-accepting n reached at = (Holds-at (Reachable-Holds reached) at).1

  -- The thread that `connmgr_init` is about to join was created.
  pub Reachable-joining :
      (n : ℕ)
      → Reachable max_con port m
      → m.phase ≡ joining (suc n)
      → (t : Thread V) × (get_elem? m.threads n ≡ some t)
  Reachable-joining n reached at =
      let (_, (full, le, _), _) = Holds-at (Reachable-Holds reached) at in
      get_elem?-some n m.threads (omega arith)

  -- At the end `tcp_close` returns TCP_NO_ERROR.
  pub Reachable-closing :
      (shutdown_result : ℤ)
      → Reachable max_con port m
      → m.phase ≡ closing
      → (tcp_close m.server shutdown_result).status ≡ no_error
  Reachable-closing shutdown_result reached at =
      let (_, _, (s, served, _)) = Holds-at (Reachable-Holds reached) at in
      rw served (tcp_close-some s shutdown_result)

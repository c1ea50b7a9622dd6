-- ===== src/Connmgr/Manager/Steps.antt =====
-- connmgr.c: every step of the connection manager's threads keeps the invariant.
use osc_final_lab.Common.{
  ℕ, zero, suc, ◌+◌, ◌≡◌, refl, ap, ◌∙◌, true, false, Option, none, some, List, [], ◌∷◌, ◌++◌,
  length, length-append, get_elem?, ltb, Bool-cases, inl, inr, ℤ, pos, negsuc, ltb_ℤ, arith,
}
use mathlib.Core.Path.{subst}
use osc_final_lab.Config.{SensorData}
use osc_final_lab.Tcpsock.Opening.{tcp_passive_open-listening}
use osc_final_lab.Tcpsock.{Tcpsock, OpenResults, tcp_passive_open, no_error}
use osc_final_lab.Connmgr.Interleaving.{no_lists, more_lists, item}
use osc_final_lab.Connmgr.{Round}
use osc_final_lab.Connmgr.Manager.Invariant.{
  Kept, FinishedFrom, Counted, Marked, dones, Kept-Inserts, Appends-Inserts, FinishedFrom-joined,
  FinishedFrom-length, Counted-Inserts, Marked-Inserts, Serving, Holds,
}
use osc_final_lab.Connmgr.Manager.{
  Phase, opening, accepting, joining, after_accept, after_join, Thread, started, Terminated,
  Manager, Step, opens, no_open, accepts, no_accept, inserts, joins, marks, closes, no_close,
  Reachable, initial, later,
}

last_one :
    (n : ℕ) (max_con : ℤ)
    → ltb_ℤ (pos n) max_con ≡ true
    → ltb_ℤ (pos (n + 1)) max_con ≡ false
    → pos (n + 1) ≡ max_con
last_one n (pos k) below not_below = ground arith
last_one n (negsuc k) below not_below = cc

more_joins : (n : ℕ) → ltb 0 (suc n) ≡ true
more_joins n = ground arith

module _ {V : Type 0} where
  Kept-started :
      (garbage : SensorData V) (rounds : List (Round V)) (ts : List (Thread V))
      → Kept ts
      → Kept (ts ++ started garbage rounds ∷ [])
  Kept-started garbage rounds [] kept = (refl, tt)
  Kept-started garbage rounds (t ∷ ts) (k, kept) = (k, Kept-started garbage rounds ts kept)

  dones-started :
      (garbage : SensorData V) (rounds : List (Round V)) (ts : List (Thread V))
      → dones (ts ++ started garbage rounds ∷ []) ≡ dones ts ++ [] ∷ []
  dones-started garbage rounds [] = refl
  dones-started garbage rounds (t ∷ ts) = ap (t.done ∷◌) (dones-started garbage rounds ts)

  Counted-started :
      (max_con : ℤ) (n : ℕ) (t : Thread V) (ts : List (Thread V))
      → Counted max_con (accepting n) ts
      → Counted max_con (after_accept max_con n) (ts ++ t ∷ [])
  Counted-started max_con n t ts (count, below) =
      let longer : length (ts ++ t ∷ []) ≡ n + 1 = omega (arith, length-append ts (t ∷ [])) in
      elim (Bool-cases (ltb_ℤ (pos (n + 1)) max_con)) [
        | inl more ↦ rw more (longer, more)
        | inr full ↦ rw full (
          ap pos longer ∙ last_one n max_con below full,
          omega arith,
          subst (λ k. FinishedFrom k (ts ++ t ∷ [])) longer (FinishedFrom-length (ts ++ t ∷ [])),
        )
      ]

  Marked-accepted :
      (max_con : ℤ) (n : ℕ) (readings inserted : List (SensorData V))
      → inserted ≡ readings
      → Marked (after_accept max_con n) readings inserted
  Marked-accepted max_con n readings inserted e = elim (Bool-cases (ltb_ℤ (pos (n + 1)) max_con)) [
    | inl more ↦ rw more e
    | inr full ↦ rw full e
  ]

  Marked-joined :
      (n : ℕ) (readings inserted : List (SensorData V))
      → inserted ≡ readings
      → Marked (after_join n) readings inserted
  Marked-joined zero readings inserted e = e
  Marked-joined (suc n) readings inserted e = rw (more_joins n) e

  Counted-joined :
      (max_con : ℤ) (n : ℕ) (t : Thread V) (ts : List (Thread V))
      → get_elem? ts n ≡ some t
      → Terminated t
      → Counted max_con (joining (suc n)) ts
      → Counted max_con (after_join n) ts
  Counted-joined max_con zero t ts at done (full, le, f) =
      (full, FinishedFrom-joined zero ts at done f)
  Counted-joined max_con (suc n) t ts at done (full, le, f) =
      rw (more_joins n) (full, omega arith, FinishedFrom-joined (suc n) ts at done f)

Serving-accepted :
    (max_con : ℤ) (n : ℕ) (server : Option Tcpsock)
    → Serving (accepting n) server
    → Serving (after_accept max_con n) server
Serving-accepted max_con n server e = elim (Bool-cases (ltb_ℤ (pos (n + 1)) max_con)) [
  | inl more ↦ rw more e
  | inr full ↦ rw full e
]

Serving-joined :
    (n : ℕ) (server : Option Tcpsock)
    → Serving (joining (suc n)) server
    → Serving (after_join n) server
Serving-joined zero server e = e
Serving-joined (suc n) server e = rw (more_joins n) e

Serving-opened :
    (r : OpenResults) (port : ℤ)
    → (tcp_passive_open r port).status ≡ no_error
    → Serving (accepting 0) (tcp_passive_open r port).socket
Serving-opened r port done = rw (tcp_passive_open-listening r port done).1 (_, refl, refl)

module _ {V : Type 0} {max_con : ℤ} where
  initial-Holds :
      Holds {V = V} max_con (record { phase = opening; server = none; threads = []; inserted = [] })
  initial-Holds = record {
    readings = [];
    interleaved = no_lists;
    marked = refl;
    counted = refl;
    kept = tt;
    serving = tt;
  }

  -- A step that no client's thread takes part in.
  moved :
      {m : Manager V} {p : Phase} {server : Option Tcpsock} {inserted : List (SensorData V)}
      (h : Holds max_con m)
      → Marked p h.readings inserted
      → Counted max_con p m.threads
      → Serving p server
      → Holds max_con (record m { phase = p; server = server; inserted = inserted })
  moved h marked counted serving = record {
    readings = h.readings;
    interleaved = h.interleaved;
    marked = marked;
    counted = counted;
    kept = h.kept;
    serving = serving;
  }

  -- The invariant at the place where `connmgr_init` stands.
  pub Holds-at :
      {m : Manager V} {p : Phase} (h : Holds max_con m)
      → m.phase ≡ p
      → Marked p h.readings m.inserted × Counted max_con p m.threads × Serving p m.server
  Holds-at {m} h at =
      subst (λ p. Marked p h.readings m.inserted × Counted max_con p m.threads × Serving p m.server)
        at (h.marked, h.counted, h.serving)

module _ {V : Type 0} {max_con port : ℤ} where
  Step-Holds :
      {m n : Manager V}
      → ltb_ℤ (pos 0) max_con ≡ true
      → Step max_con port m n
      → Holds max_con m
      → Holds max_con n
  Step-Holds sized (opens r at done) h =
      let (marked, counted, _) = Holds-at h at in
      moved h marked (counted, sized) (Serving-opened r port done)
  Step-Holds sized (no_open r at failed) h = moved h tt tt tt
  Step-Holds {m} sized (accepts n r garbage rounds at done) h =
      let (marked, counted, serving) = Holds-at h at in
      record {
        readings = h.readings;
        interleaved = rw (dones-started garbage rounds m.threads) (more_lists h.interleaved);
        marked = Marked-accepted max_con n h.readings m.inserted marked;
        counted = Counted-started max_con n (started garbage rounds) m.threads counted;
        kept = Kept-started garbage rounds m.threads h.kept;
        serving = Serving-accepted max_con n m.server serving;
      }
  Step-Holds sized (no_accept n r at failed) h = moved h tt tt tt
  Step-Holds {m} sized (inserts x threads at i) h = record {
    readings = h.readings ++ x ∷ [];
    interleaved = item x h.interleaved (Appends-Inserts i);
    marked = Marked-Inserts max_con m.phase h.readings m.inserted i h.counted h.marked;
    counted = Counted-Inserts max_con m.phase i h.counted;
    kept = Kept-Inserts i h.kept;
    serving = h.serving;
  }
  Step-Holds {m} sized (joins n t at found done) h =
      let (marked, counted, serving) = Holds-at h at in
      moved h (Marked-joined n h.readings m.inserted marked)
        (Counted-joined max_con n t m.threads found done counted)
        (Serving-joined n m.server serving)
  Step-Holds sized (marks mark at zero_id) h =
      let (marked, counted, serving) = Holds-at h at in
      moved h (mark, zero_id, ap (λ l. l ++ mark ∷ []) marked) counted serving
  Step-Holds sized (closes shutdown_result at done) h =
      let (marked, counted, _) = Holds-at h at in moved h marked counted tt
  Step-Holds sized (no_close shutdown_result at failed) h = moved h tt tt tt

  Reachable-sized : {m : Manager V} → Reachable max_con port m → ltb_ℤ (pos 0) max_con ≡ true
  Reachable-sized (initial sized) = sized
  Reachable-sized (later reached step) = Reachable-sized reached

  pub Reachable-Holds : {m : Manager V} → Reachable max_con port m → Holds max_con m
  Reachable-Holds (initial sized) = initial-Holds
  Reachable-Holds (later reached step) =
      Step-Holds (Reachable-sized reached) step (Reachable-Holds reached)

-- ===== src/Connmgr/Manager/Invariant.antt =====
-- connmgr.c: what holds between the steps of the connection manager's threads.
use osc_final_lab.Common.{
  ℕ, zero, suc, ◌≤◌, ◌≡◌, refl, sym, ap, ◌∙◌, true, Option, some, List, [], ◌∷◌, ◌++◌, map, length,
  get_elem?, ℤ, pos, ltb_ℤ, arith,
}
use mathlib.Core.Path.{subst}
use mathlib.Core.List.{append_assoc}
use osc_final_lab.Config.{SensorData}
use osc_final_lab.Tcpsock.{Tcpsock, magic_cookie}
use osc_final_lab.Connmgr.Interleaving.{Interleaving, Appends}
use osc_final_lab.Connmgr.Manager.{
  Phase, opening, accepting, joining, marking, closing, ended, exited, Thread, run_of, Terminated,
  Inserts, here, there, Manager,
}

-- From the opening to the closing there is a bound socket.
abbrev pub Serving : Phase → Option Tcpsock → Type 0
Serving opening server = Unit {0}
Serving (accepting n) server = (s : Tcpsock) × (server ≡ some s) × (s.cookie ≡ magic_cookie)
Serving (joining n) server = (s : Tcpsock) × (server ≡ some s) × (s.cookie ≡ magic_cookie)
Serving marking server = (s : Tcpsock) × (server ≡ some s) × (s.cookie ≡ magic_cookie)
Serving closing server = (s : Tcpsock) × (server ≡ some s) × (s.cookie ≡ magic_cookie)
Serving ended server = Unit {0}
Serving exited server = Unit {0}

module _ {V : Type 0} where
  -- What the thread has inserted and what it is still to insert is what `handle_client` inserts.
  abbrev pub Kept : List (Thread V) → Type 0
  Kept [] = Unit {0}
  Kept (t ∷ ts) = (t.done ++ t.left ≡ (run_of t).inserted) × Kept ts

  abbrev pub FinishedFrom : ℕ → List (Thread V) → Type 0
  FinishedFrom n [] = Unit {0}
  FinishedFrom zero (t ∷ ts) = Terminated t × FinishedFrom zero ts
  FinishedFrom (suc n) (t ∷ ts) = FinishedFrom n ts

  -- how many clients are connected, and which threads have been joined
  abbrev pub Counted : ℤ → Phase → List (Thread V) → Type 0
  Counted max_con opening ts = length ts ≡ 0
  Counted max_con (accepting n) ts = (length ts ≡ n) × (ltb_ℤ (pos n) max_con ≡ true)
  Counted max_con (joining n) ts = (pos (length ts) ≡ max_con) × (n ≤ length ts) × FinishedFrom n ts
  Counted max_con marking ts = (pos (length ts) ≡ max_con) × FinishedFrom zero ts
  Counted max_con closing ts = (pos (length ts) ≡ max_con) × FinishedFrom zero ts
  Counted max_con ended ts = (pos (length ts) ≡ max_con) × FinishedFrom zero ts
  Counted max_con exited ts = Unit {0}

  -- The mark is the last thing that is inserted.
  abbrev pub Marked : Phase → (readings inserted : List (SensorData V)) → Type 0
  Marked opening readings inserted = inserted ≡ readings
  Marked (accepting n) readings inserted = inserted ≡ readings
  Marked (joining n) readings inserted = inserted ≡ readings
  Marked marking readings inserted = inserted ≡ readings
  Marked closing readings inserted =
      (mark : SensorData V) × (mark.id ≡ 0) × (inserted ≡ readings ++ mark ∷ [])
  Marked ended readings inserted =
      (mark : SensorData V) × (mark.id ≡ 0) × (inserted ≡ readings ++ mark ∷ [])
  Marked exited readings inserted = Unit {0}

  abbrev pub dones : List (Thread V) → List (List (SensorData V))
  dones ts = map (λ t. t.done) ts

  -- A thread that inserts has not finished.
  length-Inserts :
      {x : SensorData V} {ts us : List (Thread V)} → Inserts x ts us → length us ≡ length ts
  length-Inserts (here xs e) = refl
  length-Inserts (there i) = ap suc (length-Inserts i)

  pub Kept-Inserts :
      {x : SensorData V} {ts us : List (Thread V)} → Inserts x ts us → Kept ts → Kept us
  Kept-Inserts {x} (here {t} xs e) (k, ks) =
      (append_assoc t.done (x ∷ []) xs ∙ ap (λ l. t.done ++ l) (sym e) ∙ k, ks)
  Kept-Inserts (there i) (k, ks) = (k, Kept-Inserts i ks)

  pub Appends-Inserts :
      {x : SensorData V} {ts us : List (Thread V)}
      → Inserts x ts us
      → Appends x (dones ts) (dones us)
  Appends-Inserts (here xs e) = Appends.here
  Appends-Inserts (there i) = Appends.there (Appends-Inserts i)

  FinishedFrom-Inserts :
      (n : ℕ) {x : SensorData V} {ts us : List (Thread V)}
      → Inserts x ts us
      → FinishedFrom n ts
      → FinishedFrom n us
  FinishedFrom-Inserts zero (here xs e) ((none_left, _), f) = absurd (cc)
  FinishedFrom-Inserts zero (there i) (d, f) = (d, FinishedFrom-Inserts zero i f)
  FinishedFrom-Inserts (suc n) (here xs e) f = f
  FinishedFrom-Inserts (suc n) (there i) f = FinishedFrom-Inserts n i f

  not-Inserts-FinishedFrom :
      {x : SensorData V} {ts us : List (Thread V)} → Inserts x ts us → FinishedFrom zero ts → ⊥
  not-Inserts-FinishedFrom (here xs e) ((none_left, _), f) = cc
  not-Inserts-FinishedFrom (there i) (d, f) = not-Inserts-FinishedFrom i f

  -- The thread that was joined, and those after it.
  pub FinishedFrom-joined :
      (n : ℕ) (ts : List (Thread V)) {t : Thread V}
      → get_elem? ts n ≡ some t
      → Terminated t
      → FinishedFrom (suc n) ts
      → FinishedFrom n ts
  FinishedFrom-joined n [] at done f = tt
  FinishedFrom-joined zero (u ∷ ts) {t} at done f =
      let same : u ≡ t = cc in (subst Terminated (sym same) done, f)
  FinishedFrom-joined (suc n) (u ∷ ts) at done f = FinishedFrom-joined n ts at done f

  pub FinishedFrom-length : (ts : List (Thread V)) → FinishedFrom (length ts) ts
  FinishedFrom-length [] = tt
  FinishedFrom-length (t ∷ ts) = FinishedFrom-length ts

  pub Counted-Inserts :
      (max_con : ℤ) (p : Phase) {x : SensorData V} {ts us : List (Thread V)}
      → Inserts x ts us
      → Counted max_con p ts
      → Counted max_con p us
  Counted-Inserts max_con opening i none_yet = length-Inserts i ∙ none_yet
  Counted-Inserts max_con (accepting n) i (count, below) = (length-Inserts i ∙ count, below)
  Counted-Inserts max_con (joining n) i (full, le, f) = (
    ap pos (length-Inserts i) ∙ full,
    omega (arith, length-Inserts i),
    FinishedFrom-Inserts n i f,
  )
  Counted-Inserts max_con marking i (full, f) =
      (ap pos (length-Inserts i) ∙ full, FinishedFrom-Inserts zero i f)
  Counted-Inserts max_con closing i (full, f) = absurd (not-Inserts-FinishedFrom i f)
  Counted-Inserts max_con ended i (full, f) = absurd (not-Inserts-FinishedFrom i f)
  Counted-Inserts max_con exited i c = tt

  pub Marked-Inserts :
      (max_con : ℤ) (p : Phase) {x : SensorData V} {ts us : List (Thread V)}
      (readings inserted : List (SensorData V))
      → Inserts x ts us
      → Counted max_con p ts
      → Marked p readings inserted
      → Marked p (readings ++ x ∷ []) (inserted ++ x ∷ [])
  Marked-Inserts max_con opening {x} readings inserted i c m = ap (λ l. l ++ x ∷ []) m
  Marked-Inserts max_con (accepting n) {x} readings inserted i c m = ap (λ l. l ++ x ∷ []) m
  Marked-Inserts max_con (joining n) {x} readings inserted i c m = ap (λ l. l ++ x ∷ []) m
  Marked-Inserts max_con marking {x} readings inserted i c m = ap (λ l. l ++ x ∷ []) m
  Marked-Inserts max_con closing readings inserted i (full, f) m =
      absurd (not-Inserts-FinishedFrom i f)
  Marked-Inserts max_con ended readings inserted i (full, f) m =
      absurd (not-Inserts-FinishedFrom i f)
  Marked-Inserts max_con exited readings inserted i c m = tt

  pub record Holds (max_con : ℤ) (m : Manager V) : Type 0 where
    pub readings : List (SensorData V)
    pub interleaved : Interleaving (dones m.threads) readings
    pub marked : Marked m.phase readings m.inserted
    pub counted : Counted max_con m.phase m.threads
    pub kept : Kept m.threads
    pub serving : Serving m.phase m.server

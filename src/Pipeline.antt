-- ===== src/Pipeline.antt =====
-- The whole gateway: what sensor nodes send (connmgr.c) against what the storage manager gets
-- (sbuffer.c, sensor_db.c).
pub mod Sensors
pub mod Sent
mod Tests
use osc_final_lab.Common.{◌≡◌, ◌≢◌, refl, sym, ap, ◌∙◌, true, List, [], ◌∷◌, ◌++◌, ℤ}
use mathlib.Core.Path.{subst}
use osc_final_lab.Config.{SensorData}
use osc_final_lab.Tcpsock.{no_error}
use osc_final_lab.Sbuffer.Memory.{Ptr}
use osc_final_lab.Sbuffer.System.Invariant.{SomeId}
use osc_final_lab.Sbuffer.System.Order.{saved_all}
use osc_final_lab.Sbuffer.System
use osc_final_lab.Sbuffer.{returned, no_data}
use osc_final_lab.Connmgr.Interleaving.{Interleaving, no_lists, more_lists, item, Appends}
use osc_final_lab.Connmgr.Stream.{rounds_of, handle_client-rounds_of}
use osc_final_lab.Connmgr.Manager.Ended.{insertions, Reachable-insertions}
use osc_final_lab.Connmgr.Manager.{Thread, run_of, Manager, ended, Reachable}
use osc_final_lab.Connmgr.{Round}

module _ {V : Type 0} where
  -- No sensor has the id 0.
  abbrev pub SomeIds : List (List (SensorData V)) → Type 0
  SomeIds [] = Unit {0}
  SomeIds (xs ∷ ls) = SomeId xs × SomeIds ls

  -- Each client's readings arrive whole, one in each round, and then a receive call for an id does not
  -- succeed: the node has closed the connection, or sends nothing for TIMEOUT seconds.
  pub data Arrives : List (List (SensorData V)) → List (Thread V) → Type 0 where
    no_clients : Arrives [] []
    client :
        {sent : List (List (SensorData V))} {ts : List (Thread V)} (xs : List (SensorData V))
        (t : Thread V) (last : Round V) (rounds : List (Round V))
        → t.rounds ≡ rounds_of xs (last ∷ rounds)
        → last.id_call.status ≢ no_error
        → Arrives sent ts
        → Arrives (xs ∷ sent) (t ∷ ts)

  insertions-Arrives :
      {sent : List (List (SensorData V))} {ts : List (Thread V)}
      → Arrives sent ts
      → insertions ts ≡ sent
  insertions-Arrives no_clients = refl
  insertions-Arrives (client xs t last rounds all ends rest) =
      let mine : (run_of t).inserted ≡ xs =
        rw all (handle_client-rounds_of true t.garbage xs last rounds ends).0 in
      cc (mine, insertions-Arrives rest)

  SomeId-snoc :
      (xs : List (SensorData V)) (x : SensorData V) → SomeId xs → x.id ≢ 0 → SomeId (xs ++ x ∷ [])
  SomeId-snoc [] x ids some_id = (some_id, tt)
  SomeId-snoc (y ∷ xs) x (y_id, ids) some_id = (y_id, SomeId-snoc xs x ids some_id)

  SomeId-split :
      (xs : List (SensorData V)) (x : SensorData V) → SomeId (xs ++ x ∷ []) → SomeId xs × (x.id ≢ 0)
  SomeId-split [] x (some_id, _) = (tt, some_id)
  SomeId-split (y ∷ xs) x (y_id, ids) =
      let (rest, some_id) = SomeId-split xs x ids in ((y_id, rest), some_id)

  SomeIds-Appends :
      {x : SensorData V} {ls ms : List (List (SensorData V))}
      → Appends x ls ms
      → SomeIds ms
      → SomeIds ls × (x.id ≢ 0)
  SomeIds-Appends {x} (Appends.here {xs}) (ids, all) =
      let (mine, some_id) = SomeId-split xs x ids in ((mine, all), some_id)
  SomeIds-Appends (Appends.there a) (ids, all) =
      let (others, some_id) = SomeIds-Appends a all in ((ids, others), some_id)

  SomeIds-init :
      (ls : List (List (SensorData V))) (xs : List (SensorData V))
      → SomeIds (ls ++ xs ∷ [])
      → SomeIds ls
  SomeIds-init [] xs all = tt
  SomeIds-init (l ∷ ls) xs (ids, all) = (ids, SomeIds-init ls xs all)

  SomeId-Interleaving :
      {ls : List (List (SensorData V))} {xs : List (SensorData V)}
      → Interleaving ls xs
      → SomeIds ls
      → SomeId xs
  SomeId-Interleaving no_lists all = tt
  SomeId-Interleaving (more_lists {ls} i) all = SomeId-Interleaving i (SomeIds-init ls [] all)
  SomeId-Interleaving (item {xs} x i a) all =
      let (before, some_id) = SomeIds-Appends a all in
      SomeId-snoc xs x (SomeId-Interleaving i before) some_id

  -- The first reading with id 0 ends both lists.
  same_start :
      (xs ys : List (SensorData V)) (x y : SensorData V) (rest more : List (SensorData V))
      → SomeId xs
      → SomeId ys
      → x.id ≡ 0
      → y.id ≡ 0
      → xs ++ x ∷ rest ≡ ys ++ y ∷ more
      → xs ≡ ys
  same_start [] [] x y rest more ids ids' zx zy e = refl
  same_start [] (b ∷ ys) x y rest more ids (b_id, ids') zx zy e =
      let heads : x ≡ b = cc in absurd (b_id (ap (λ z. z.id) (sym heads) ∙ zx))
  same_start (a ∷ xs) [] x y rest more (a_id, ids) ids' zx zy e =
      let heads : a ≡ y = cc in absurd (a_id (ap (λ z. z.id) heads ∙ zy))
  same_start (a ∷ xs) (b ∷ ys) x y rest more (_, ids) (_, ids') zx zy e =
      let heads : a ≡ b = cc in
      let tails : xs ++ x ∷ rest ≡ ys ++ y ∷ more = cc in
      cc (heads, same_start xs ys x y rest more ids ids' zx zy tails)

  -- If the readings of every client arrive whole and with ids other than 0 before its connection
  -- ends, `connmgr_init` has come to its end, what `sbuffer_insert` was given is what the
  -- connection manager's threads inserted, and `sbuffer_remove` has returned SBUFFER_NO_DATA,
  -- then the readings that the storage manager has taken are an interleaving of those that the
  -- clients sent: none is lost, repeated or made up, and those of one client are in their order.
  pub saved-Interleaving :
      (buffer : Ptr) (max_con port : ℤ) {s : System.System V} {m : Manager V}
      {sent : List (List (SensorData V))}
      → System.Reachable buffer s
      → Reachable max_con port m
      → m.phase ≡ ended
      → s.inserted ≡ m.inserted
      → s.remover ≡ returned no_data
      → Arrives sent m.threads
      → SomeIds sent
      → Interleaving sent s.saved
  saved-Interleaving buffer max_con port {s} {m} {sent} stored managed at shared done arrives ids =
      let (readings, mark, mark_id, all, interleaved, _) = Reachable-insertions managed at in
      let from_sent : Interleaving sent readings =
        subst (λ ls. Interleaving ls readings) (insertions-Arrives arrives) interleaved in
      let (x, rest, x_id, saved_ids, split) = saved_all buffer stored done in
      let same : readings ≡ s.saved =
        same_start readings s.saved mark x [] rest (SomeId-Interleaving from_sent ids) saved_ids
          mark_id x_id (sym all ∙ sym shared ∙ split) in
      subst (λ l. Interleaving sent l) same from_sent

-- ===== src/Connmgr/Manager.antt =====
-- connmgr.c: the thread of `connmgr_init` and those of the clients that it accepts. What the system
-- calls return is chosen by the environment, and any thread may run next.
pub mod Invariant
pub mod Steps
pub mod Ended
pub mod Samples
mod Tests
use osc_final_lab.Common.{
  ℕ, zero, suc, ◌+◌, ◌≡◌, ◌≢◌, Bool, true, Option, none, some, List, [], ◌∷◌, ◌++◌, if◌then◌else◌,
  ltb, get_elem?, ℤ, pos, ltb_ℤ,
}
use osc_final_lab.Config.{SensorData}
use osc_final_lab.Tcpsock.Connecting.{AcceptResults, tcp_wait_for_connection}
use osc_final_lab.Tcpsock.{Tcpsock, no_error, OpenResults, tcp_passive_open, tcp_close}
use osc_final_lab.Connmgr.{Round, ClientRun, handle_client}

-- Where `connmgr_init` stands: before `tcp_passive_open`, `tcp_wait_for_connection`, `pthread_join`,
-- the insertion of the mark and `tcp_close`, at its end, or after `exit(EXIT_FAILURE)`.
pub data Phase : Type 0 where
  opening : Phase
  accepting : (conn_counter : ℕ) → Phase
  joining : (conn_counter : ℕ) → Phase
  marking : Phase
  closing : Phase
  ended : Phase
  exited : Phase

-- `conn_counter++` and the test of the first loop
abbrev pub after_accept : (max_con : ℤ) → (conn_counter : ℕ) → Phase
after_accept max_con n = if ltb_ℤ (pos (n + 1)) max_con then accepting (n + 1) else joining (n + 1)

-- the test of the second loop
abbrev pub after_join : (conn_counter : ℕ) → Phase
after_join n = if ltb 0 n then joining n else marking

-- The thread of a client: its variable `data` at the start, which nothing sets, all that its receive
-- calls will return, the readings that it has inserted, and those that it is still to insert.
pub record Thread (V : Type 0) : Type 0 where
  pub garbage : SensorData V
  pub rounds : List (Round V)
  pub done : List (SensorData V)
  pub left : List (SensorData V)

module _ {V : Type 0} where
  abbrev pub run_of : Thread V → ClientRun V
  run_of t = handle_client true t.garbage t.rounds

  abbrev pub started : SensorData V → List (Round V) → Thread V
  started garbage rounds = record {
    garbage = garbage;
    rounds = rounds;
    done = [];
    left = (handle_client true garbage rounds).inserted;
  }

  -- The thread has returned, so that `pthread_join` does.
  abbrev pub Terminated : Thread V → Type 0
  Terminated t = (t.left ≡ []) × ((run_of t).returned ≡ true)

-- One of the threads inserts the reading `x`.
pub data Inserts {V : Type 0} (x : SensorData V) : List (Thread V) → List (Thread V) → Type 0 where
  here :
      {t : Thread V} {ts : List (Thread V)} (xs : List (SensorData V))
      → t.left ≡ x ∷ xs
      → Inserts x (t ∷ ts) (record t { done = t.done ++ x ∷ []; left = xs } ∷ ts)
  there : {t : Thread V} {ts us : List (Thread V)} → Inserts x ts us → Inserts x (t ∷ ts) (t ∷ us)

-- `inserted` are the readings that were given to `sbuffer_insert`.
pub record Manager (V : Type 0) : Type 0 where
  pub phase : Phase
  pub server : Option Tcpsock
  pub threads : List (Thread V)
  pub inserted : List (SensorData V)

pub data Step {V : Type 0} (max_con port : ℤ) (m : Manager V) : Manager V → Type 0 where
  opens :
      (r : OpenResults)
      → m.phase ≡ opening
      → (tcp_passive_open r port).status ≡ no_error
      → Step max_con port m
          (record m { phase = accepting 0; server = (tcp_passive_open r port).socket })
  no_open :
      (r : OpenResults)
      → m.phase ≡ opening
      → (tcp_passive_open r port).status ≢ no_error
      → Step max_con port m (record m { phase = exited })
  accepts :
      (n : ℕ) (r : AcceptResults) (garbage : SensorData V) (rounds : List (Round V))
      → m.phase ≡ accepting n
      → (tcp_wait_for_connection r m.server).status ≡ no_error
      → Step max_con port m (record m {
        phase = after_accept max_con n;
        threads = m.threads ++ started garbage rounds ∷ [];
      })
  no_accept :
      (n : ℕ) (r : AcceptResults)
      → m.phase ≡ accepting n
      → (tcp_wait_for_connection r m.server).status ≢ no_error
      → Step max_con port m (record m { phase = exited })
  inserts :
      (x : SensorData V) (threads : List (Thread V))
      → m.phase ≢ exited
      → Inserts x m.threads threads
      → Step max_con port m (record m { threads = threads; inserted = m.inserted ++ x ∷ [] })
  joins :
      (n : ℕ) (t : Thread V)
      → m.phase ≡ joining (suc n)
      → get_elem? m.threads n ≡ some t
      → Terminated t
      → Step max_con port m (record m { phase = after_join n })
  -- the other fields of the mark are not set
  marks :
      (mark : SensorData V)
      → m.phase ≡ marking
      → mark.id ≡ 0
      → Step max_con port m (record m { phase = closing; inserted = m.inserted ++ mark ∷ [] })
  closes :
      (shutdown_result : ℤ)
      → m.phase ≡ closing
      → (tcp_close m.server shutdown_result).status ≡ no_error
      → Step max_con port m
          (record m { phase = ended; server = (tcp_close m.server shutdown_result).socket })
  no_close :
      (shutdown_result : ℤ)
      → m.phase ≡ closing
      → (tcp_close m.server shutdown_result).status ≢ no_error
      → Step max_con port m (record m { phase = exited })

-- The arrays of `connmgr_init` have MAX_CONN elements, which must be more than none.
pub data Reachable {V : Type 0} (max_con port : ℤ) : Manager V → Type 0 where
  initial :
      ltb_ℤ (pos 0) max_con ≡ true
      → Reachable max_con port
          (record { phase = opening; server = none; threads = []; inserted = [] })
  later :
      {m n : Manager V}
      → Reachable max_con port m
      → Step max_con port m n
      → Reachable max_con port n

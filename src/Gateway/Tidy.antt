-- ===== src/Gateway/Tidy.antt =====
-- main.c: the log process, the buffer and the threads are used only while they are there, and nothing
-- is left behind.
use osc_final_lab.Common.{
  Bool, true, false, not, ◌&&◌, ◌≡◌, ◌≢◌, refl, Option, none, some, List, [], ◌∷◌, Bool-cases,
  if◌then◌else◌, inl, inr, ℤ, pos, negsuc, ltb_ℤ, eqb_ℤ,
}
use osc_final_lab.CString.{Chars}
use osc_final_lab.Gateway.{
  Action, prints, prints_no_logger, starts_logger, reads_pipe, logs, makes_buffer, starts, joins,
  frees_buffer, frees_parameters, ends_logger, exits, GatewayThread, connection_manager,
  storage_manager, data_manager, Checked, undefined, refused, accepted, LogProcess, not_started,
  child, parent, create_log_process, LogResults, MainResults, all_created, thread_actions,
  run_threads, after_buffer, with_logger, after_checks, check_arguments, main,
}

-- What is there: the log process, the buffer, and the running threads.
pub record Present : Type 0 where
  pub logger : Bool
  pub buffer : Bool
  pub connecting : Bool
  pub storing : Bool
  pub processing : Bool

abbrev pub nothing : Present
nothing = record {
  logger = false;
  buffer = false;
  connecting = false;
  storing = false;
  processing = false;
}

abbrev pub has_logger : Option LogProcess → Bool
has_logger (some parent) = true
has_logger o = false

abbrev pub no_thread : Present → Bool
no_thread p = not p.connecting && (not p.storing && not p.processing)

-- Whether a thread runs, and the state with it running or not.
abbrev pub running : GatewayThread → Present → Bool
running (connection_manager max_con port) p = p.connecting
running storage_manager p = p.storing
running data_manager p = p.processing

abbrev pub set_running : GatewayThread → Bool → Present → Present
set_running (connection_manager max_con port) b p = record p { connecting = b }
set_running storage_manager b p = record p { storing = b }
set_running data_manager b p = record p { processing = b }

-- Each action is allowed where it stands: messages only to a running log process, threads only while
-- the buffer is there and the log process runs, the buffer freed when no thread runs, and at the end
-- nothing is left.
pub tidy : Present → List Action → Bool
tidy p [] = false
tidy p (prints why ∷ actions) = tidy p actions
tidy p (prints_no_logger ∷ actions) = tidy p actions
tidy p (starts_logger ∷ actions) = not p.logger && tidy (record p { logger = true }) actions
tidy p (reads_pipe ∷ actions) = false
tidy p (logs m ∷ actions) = p.logger && tidy p actions
tidy p (makes_buffer ∷ actions) = not p.buffer && tidy (record p { buffer = true }) actions
tidy p (starts t ∷ actions) =
    p.buffer && (p.logger && (not (running t p) && tidy (set_running t true p) actions))
tidy p (joins t ∷ actions) = running t p && tidy (set_running t false p) actions
tidy p (frees_buffer ∷ actions) =
    p.buffer && (no_thread p && tidy (record p { buffer = false }) actions)
tidy p (frees_parameters ∷ actions) = no_thread p && tidy p actions
tidy p (ends_logger ∷ actions) = p.logger && tidy (record p { logger = false }) actions
tidy p (exits status ∷ []) = not p.logger && (not p.buffer && no_thread p)
tidy p (exits status ∷ action ∷ actions) = false

-- The threads that are started, and those that are joined, in order.
pub started : List Action → List GatewayThread
started [] = []
started (starts t ∷ actions) = t ∷ started actions
started (a ∷ actions) = started actions

pub joined : List Action → List GatewayThread
joined [] = []
joined (joins t ∷ actions) = t ∷ joined actions
joined (a ∷ actions) = joined actions

-- The threads that the gateway is to run: all three, with the port and the number of clients, if it
-- accepts its arguments and has a log process and a buffer, and none otherwise.
unfoldable pub due : MainResults → Checked → List GatewayThread
due r (accepted port clients) =
    if has_logger (create_log_process r.log) && r.buffer_allocated
    then connection_manager clients port ∷ storage_manager ∷ data_manager ∷ []
    else []
due r c = []

abbrev Ran : List Action → List GatewayThread → Type 0
Ran actions threads =
    (tidy nothing actions ≡ true) × (started actions ≡ threads) × (joined actions ≡ threads)

-- What holds of the actions, if there is no fault.
abbrev AllRan : Option (List Action) → List GatewayThread → Type 0
AllRan none threads = Unit {0}
AllRan (some actions) threads = Ran actions threads

threads_of : MainResults → (tcp_port clients_nr : ℤ) → Option LogProcess → List GatewayThread
threads_of r tcp_port clients_nr o =
    if has_logger o && r.buffer_allocated
    then connection_manager clients_nr tcp_port ∷ storage_manager ∷ data_manager ∷ []
    else []

with_logger-AllRan :
    (r : MainResults) (tcp_port clients_nr : ℤ) (o : Option LogProcess)
    → o ≢ some child
    → AllRan (with_logger r tcp_port clients_nr o) (threads_of r tcp_port clients_nr o)
unfolding with_logger after_buffer run_threads thread_actions tidy started joined threads_of
with_logger-AllRan r tcp_port clients_nr none ne = tt
with_logger-AllRan r tcp_port clients_nr (some not_started) ne = (refl, refl, refl)
with_logger-AllRan r tcp_port clients_nr (some child) ne = absurd (ne refl)
with_logger-AllRan r tcp_port clients_nr (some parent) ne = elim (Bool-cases r.buffer_allocated) [
  | inr full ↦ rw full (refl, refl, refl)
  | inl got ↦ elim (Bool-cases (r.parameters_allocated && all_created r)) [
    | inl created ↦ rw (got, created) (refl, refl, refl)
    | inr fails ↦ rw (got, fails) tt
  ]
]

not-child :
    (r : LogResults) → eqb_ℤ r.fork_result (pos 0) ≡ false → create_log_process r ≢ some child
unfolding create_log_process
not-child r parents e = elim (Bool-cases (not r.log_exists && not r.can_make)) [
  | inl faults ↦ let no_result : none ≡ some child = (rw faults at e) in cc
  | inr made ↦ elim (Bool-cases (eqb_ℤ r.pipe_result (negsuc 0))) [
    | inl fails ↦ let no_child : some not_started ≡ some child = (rw (made, fails) at e) in cc
    | inr piped ↦ elim (Bool-cases (ltb_ℤ r.fork_result (pos 0))) [
      | inl fails ↦
          let no_child : some not_started ≡ some child = (rw (made, piped, fails) at e) in cc
      | inr forks ↦
          let no_child : some parent ≡ some child = (rw (made, piped, forks, parents) at e) in cc
    ]
  ]
]

after_checks-AllRan :
    (r : MainResults) (c : Checked)
    → eqb_ℤ r.log.fork_result (pos 0) ≡ false
    → AllRan (after_checks r c) (due r c)
unfolding after_checks tidy started joined due threads_of
after_checks-AllRan r undefined parents = tt
after_checks-AllRan r (refused why) parents = (refl, refl, refl)
after_checks-AllRan r (accepted tcp_port clients_nr) parents =
    with_logger-AllRan r tcp_port clients_nr (create_log_process r.log) (not-child r.log parents)

-- In the parent process and if `main` does not fault, it sends messages only to a running log
-- process. If it accepts its arguments, has a log process and has made the buffer, it starts the
-- connection manager, with the port and the number of clients, then the storage manager, then the
-- data manager, each once, and joins them in this order; otherwise it starts and joins no thread.
-- It starts them while the log process runs and the buffer is there, joins them before it frees
-- the buffer and their parameters, and exits only when the log process has been ended, the buffer
-- freed and no thread runs.
pub main-tidy :
    (r : MainResults) (argv : List Chars) (actions : List Action)
    → eqb_ℤ r.log.fork_result (pos 0) ≡ false
    → main r argv ≡ some actions
    → (tidy nothing actions ≡ true)
      × (started actions ≡ due r (check_arguments argv r.map_exists))
      × (joined actions ≡ due r (check_arguments argv r.map_exists))
unfolding main
main-tidy r argv actions parents runs =
    rw runs at (after_checks-AllRan r (check_arguments argv r.map_exists) parents)

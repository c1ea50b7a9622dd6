-- ===== src/Gateway.antt =====
-- main.c: the arguments of the gateway, and the order in which it starts and ends the log process, the
-- buffer and the threads. What the system calls return is a parameter. `none` is a fault: an argument
-- that `atoi` cannot convert, `fclose(NULL)`, a write through NULL when `malloc` of a thread's
-- parameters fails, or `pthread_join` of an id that `pthread_create` did not set.
pub mod Arguments
pub mod Tidy
mod Tests
use osc_final_lab.Common.{
  Bool, true, false, not, ◌&&◌, Option, none, some, List, [], ◌∷◌, ◌++◌, if◌then◌else◌, ℤ, pos,
  negsuc, ltb_ℤ, leb_ℤ, eqb_ℤ,
}
use osc_final_lab.CString.{Chars, atoi}

-- Why `main` refuses to start.
pub data Refusal : Type 0 where
  wrong_count : Refusal
  bad_port : Refusal
  bad_clients : Refusal
  no_map : Refusal

pub data Checked : Type 0 where
  undefined : Checked
  refused : Refusal → Checked
  accepted : (tcp_port clients_nr : ℤ) → Checked

-- The tests of the two numbers and of room_sensor.map.
check_numbers : (tcp_port clients_nr : Option ℤ) → (map_exists : Bool) → Checked
check_numbers none clients_nr map_exists = undefined
check_numbers (some tcp_port) none map_exists = undefined
check_numbers (some tcp_port) (some clients_nr) map_exists =
    if ltb_ℤ tcp_port (pos 1024)
    then refused bad_port
    else if leb_ℤ clients_nr (pos 0)
    then refused bad_clients
    else if not map_exists
    then refused no_map
    else accepted tcp_port clients_nr

-- The tests of `main`, up to that for room_sensor.map.
pub check_arguments : (argv : List Chars) → (map_exists : Bool) → Checked
unfolding check_numbers
check_arguments (name ∷ tcp_port ∷ clients_nr ∷ []) map_exists =
    check_numbers (atoi tcp_port) (atoi clients_nr) map_exists
check_arguments argv map_exists = refused wrong_count

-- What the calls of `create_log_process` return: whether gateway.log is there, whether it can be made,
-- and the results of `pipe` and `fork`.
pub record LogResults : Type 0 where
  pub log_exists : Bool
  pub can_make : Bool
  pub pipe_result : ℤ
  pub fork_result : ℤ

pub data LogProcess : Type 0 where
  not_started : LogProcess
  child : LogProcess
  parent : LogProcess

-- `create_log_process`, up to the child's loop
pub create_log_process : LogResults → Option LogProcess
create_log_process r =
    if not r.log_exists && not r.can_make
    then none
    else if eqb_ℤ r.pipe_result (negsuc 0)
    then some not_started
    else if ltb_ℤ r.fork_result (pos 0)
    then some not_started
    else if eqb_ℤ r.fork_result (pos 0)
    then some child
    else some parent

pub data GatewayThread : Type 0 where
  connection_manager : (max_con listen_port : ℤ) → GatewayThread
  storage_manager : GatewayThread
  data_manager : GatewayThread

pub data MainMessage : Type 0 where
  started_logger : MainMessage
  no_buffer : MainMessage
  ending_logger : MainMessage

-- What `main` does, in order. `reads_pipe` is the child's loop, which does not return.
pub data Action : Type 0 where
  prints : Refusal → Action
  prints_no_logger : Action
  starts_logger : Action
  reads_pipe : Action
  logs : MainMessage → Action
  makes_buffer : Action
  starts : GatewayThread → Action
  joins : GatewayThread → Action
  frees_buffer : Action
  frees_parameters : Action
  ends_logger : Action
  exits : (status : ℤ) → Action

pub record MainResults : Type 0 where
  pub map_exists : Bool
  pub log : LogResults
  pub buffer_allocated : Bool
  pub parameters_allocated : Bool
  pub connmgr_created : ℤ
  pub sensor_db_created : ℤ
  pub datamgr_created : ℤ

-- Whether the three calls of `pthread_create` succeed; `main` does not test it.
pub all_created : MainResults → Bool
all_created r =
    eqb_ℤ r.connmgr_created (pos 0)
    && (eqb_ℤ r.sensor_db_created (pos 0) && eqb_ℤ r.datamgr_created (pos 0))

-- From the start of the threads to the end, if the three calls succeed.
thread_actions : (tcp_port clients_nr : ℤ) → List Action
thread_actions tcp_port clients_nr =
    starts (connection_manager clients_nr tcp_port)
    ∷ starts storage_manager
    ∷ starts data_manager
    ∷ joins (connection_manager clients_nr tcp_port)
    ∷ joins storage_manager
    ∷ joins data_manager
    ∷ frees_buffer
    ∷ frees_parameters
    ∷ logs ending_logger
    ∷ ends_logger
    ∷ exits (pos 0)
    ∷ []

-- From the parameters of the threads to the end.
run_threads : MainResults → (tcp_port clients_nr : ℤ) → Option (List Action)
unfolding all_created thread_actions
run_threads r tcp_port clients_nr =
    if r.parameters_allocated && all_created r
    then some (thread_actions tcp_port clients_nr)
    else none

-- Actions, and then what follows them, if it does not fault.
abbrev after : List Action → Option (List Action) → Option (List Action)
after first none = none
after first (some actions) = some (first ++ actions)

after_buffer : MainResults → (tcp_port clients_nr : ℤ) → Option (List Action)
unfolding run_threads
after_buffer r tcp_port clients_nr =
    if r.buffer_allocated
    then after (makes_buffer ∷ []) (run_threads r tcp_port clients_nr)
    else some (logs no_buffer ∷ ends_logger ∷ exits (negsuc 0) ∷ [])

-- After `create_log_process`.
with_logger : MainResults → (tcp_port clients_nr : ℤ) → Option LogProcess → Option (List Action)
unfolding after_buffer
with_logger r tcp_port clients_nr none = none
with_logger r tcp_port clients_nr (some not_started) =
    some (prints_no_logger ∷ exits (negsuc 0) ∷ [])
with_logger r tcp_port clients_nr (some child) = some (reads_pipe ∷ [])
with_logger r tcp_port clients_nr (some parent) =
    after (starts_logger ∷ logs started_logger ∷ []) (after_buffer r tcp_port clients_nr)

-- After the tests.
after_checks : MainResults → Checked → Option (List Action)
unfolding with_logger
after_checks r undefined = none
after_checks r (refused why) = some (prints why ∷ exits (negsuc 0) ∷ [])
after_checks r (accepted tcp_port clients_nr) =
    with_logger r tcp_port clients_nr (create_log_process r.log)

-- `main`
pub main : MainResults → (argv : List Chars) → Option (List Action)
unfolding after_checks
main r argv = after_checks r (check_arguments argv r.map_exists)

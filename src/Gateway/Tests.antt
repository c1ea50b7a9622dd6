-- ===== src/Gateway/Tests.antt =====
-- main.c: runs at concrete inputs.
use osc_final_lab.Common.{
  ◌≡◌, ◌≢◌, refl, true, ◌&&◌, not, if◌then◌else◌, none, some, List, [], ◌∷◌, ℕ, pos, negsuc,
}
use osc_final_lab.CString.{Chars, atoi}
use osc_final_lab.Connmgr.Manager.{Reachable, opening}
use osc_final_lab.Tcpsock.{OpenResults, failed, address_error, tcp_passive_open}
use osc_final_lab.Tcpsock.Opening.{binds}
use osc_final_lab.Gateway.Arguments.{check_arguments-opening}
use osc_final_lab.Gateway.Tidy.{nothing, tidy, started, joined, due, main-tidy}
use osc_final_lab.Gateway.{
  create_log_process, accepted, check_arguments, LogResults, MainResults, Action, prints, exits,
  bad_port, all_created, thread_actions, GatewayThread, connection_manager, storage_manager,
  data_manager, starts_logger, logs, started_logger, makes_buffer, main,
}

-- "./sensor_gateway 5678 3"
abbrev argv : List Chars
argv = [] ∷ (b'5' ∷ b'6' ∷ b'7' ∷ b'8' ∷ []) ∷ (b'3' ∷ []) ∷ []

abbrev log_starts : LogResults
log_starts = record {
  log_exists = true;
  can_make = true;
  pipe_result = pos 0;
  fork_result = pos 77;
}

abbrev all_well : MainResults
all_well = record {
  map_exists = true;
  log = log_starts;
  buffer_allocated = true;
  parameters_allocated = true;
  connmgr_created = pos 0;
  sensor_db_created = pos 0;
  datamgr_created = pos 0;
}

abbrev opens : OpenResults
opens = record {
  allocated = true;
  socket_result = pos 3;
  bind_result = pos 0;
  listen_result = pos 0;
}

check_arguments-opening_example :
    Reachable {V = ℕ}
      (pos 3)
      (pos 5678)
      (record { phase = opening; server = none; threads = []; inserted = [] })
    × ((tcp_passive_open opens (pos 5678)).status ≢ address_error)
    × (p : ℕ) × (pos 5678 ≡ pos p)
    × (binds (tcp_passive_open opens (pos 5678)).calls
        ≡ (if true && not (failed (pos 3)) then (pos 3, p) ∷ [] else []))
unfolding check_arguments atoi
check_arguments-opening_example =
    check_arguments-opening argv true (pos 5678) (pos 3) opens refl refl

abbrev whole_run : List Action
whole_run = starts_logger ∷ logs started_logger ∷ makes_buffer ∷ thread_actions (pos 5678) (pos 3)

abbrev three_threads : List GatewayThread
three_threads = connection_manager (pos 3) (pos 5678) ∷ storage_manager ∷ data_manager ∷ []

main-tidy_example :
    (tidy nothing whole_run ≡ true)
    × (started whole_run ≡ three_threads)
    × (joined whole_run ≡ three_threads)
unfolding main atoi check_arguments create_log_process all_created due
main-tidy_example = main-tidy all_well argv whole_run refl refl

-- A thread that is not created is joined all the same.
uncreated : main (record all_well { sensor_db_created = pos 11 }) argv ≡ none
unfolding main atoi check_arguments create_log_process all_created
uncreated = refl

-- A port below 1024 is refused.
low_port :
    main all_well ([] ∷ (b'8' ∷ b'0' ∷ []) ∷ (b'3' ∷ []) ∷ [])
    ≡ some (prints bad_port ∷ exits (negsuc 0) ∷ [])
unfolding main atoi check_arguments
low_port = refl

-- Port 70000 passes the tests, and is refused by `tcp_passive_open`.
high_port :
    (check_arguments ([] ∷ (b'7' ∷ b'0' ∷ b'0' ∷ b'0' ∷ b'0' ∷ []) ∷ (b'3' ∷ []) ∷ []) true
      ≡ accepted (pos 70000) (pos 3))
    × ((tcp_passive_open opens (pos 70000)).status ≡ address_error)
unfolding check_arguments atoi tcp_passive_open
high_port = (refl, refl)

-- ===== src/SensorNode.antt =====
-- sensor_node.c: the test client. What the system calls, `drand48` and `time` return is a parameter of
-- each function. `none` is a fault: an argument that `atoi` cannot convert.
pub mod Sending
mod Tests
use osc_final_lab.Common.{
  ℕ, zero, suc, ◌-◌, Bool, true, false, not, Option, none, some, List, [], ◌∷◌, ◌++◌, ltb,
  if◌then◌else◌, ℤ, pos,
}
use osc_final_lab.CString.{Chars, ExitStatus, exit_success, exit_failure, atoi, to_u16, first_chars}
use osc_final_lab.Tcpsock.Connecting.{ConnectResults, tcp_active_open}
use osc_final_lab.Tcpsock.{TcpStatus, is_no_error, Tcpsock, Transfer, tcp_send, tcp_close}

-- What is given to `tcp_send`.
pub data Payload (V : Type 0) : Type 0 where
  sensor_id : ℕ → Payload V
  temperature : V → Payload V
  timestamp : ℤ → Payload V

-- `sizeof`
abbrev pub size_of : {V : Type 0} → Payload V → ℤ
size_of (sensor_id n) = pos 2
size_of (temperature v) = pos 8
size_of (timestamp t) = pos 8

-- What `drand48`, `time` and the three calls of `sendto` return in one round of the loop.
pub record NodeRound (D : Type 0) : Type 0 where
  pub draw : D
  pub now : ℤ
  pub id_transfer : Transfer
  pub value_transfer : Transfer
  pub ts_transfer : Transfer

-- What was sent, and how the program has ended, if it has.
pub record NodeRun (V : Type 0) : Type 0 where
  pub sent : List (Payload V)
  pub exit : Option ExitStatus

abbrev pub succeeded : Option (TcpStatus × ℤ) → Bool
succeeded none = false
succeeded (some (e, n)) = is_no_error e

-- `LOOPS` after the `#if`, and `UPDATE(i)`
abbrev pub loops_of : (loops : ℕ) → ℕ
loops_of loops = if ltb 1 loops then loops else 1

abbrev pub update : (loops i : ℕ) → ℕ
update loops i = if ltb 1 loops then i - 1 else i

module _ {V D : Type 0} (drift : D → V → V) where
  abbrev pub stopped : NodeRun V
  stopped = record { sent = []; exit = some exit_failure }

  -- One call of `tcp_send`, `exit(EXIT_FAILURE)` if it does not return TCP_NO_ERROR, and what follows.
  send_then : Option Tcpsock → Payload V → Transfer → NodeRun V → NodeRun V
  send_then client payload t rest =
      if succeeded (tcp_send client true true (size_of payload) t)
      then record rest { sent = payload ∷ rest.sent }
      else stopped

  -- The `while` of `main` and what follows it. With no round left it waits in a call.
  pub node_loop :
      (loops : ℕ)
      → Option Tcpsock
      → (shutdown_result : ℤ) → (id : ℕ) (value : V) (i : ℕ) → List (NodeRound D)
      → NodeRun V
  unfolding send_then
  node_loop loops client shutdown_result id value zero rounds =
      let closed = tcp_close client shutdown_result in
      record {
        sent = [];
        exit = some (if is_no_error closed.status then exit_success else exit_failure);
      }
  node_loop loops client shutdown_result id value (suc i) [] = record { sent = []; exit = none }
  node_loop loops client shutdown_result id value (suc i) (r ∷ rounds) =
      let value' = drift r.draw value in
      let rest = node_loop loops client shutdown_result id value' (update loops (suc i)) rounds in
      send_then client (sensor_id id) r.id_transfer (
        send_then client (temperature value') r.value_transfer
          (send_then client (timestamp r.now) r.ts_transfer rest))

  -- `main` after its arguments are read
  pub run_node :
      ConnectResults
      → (loops : ℕ) → (initial : V) → (shutdown_result : ℤ) → List (NodeRound D)
      → (id : ℕ) (server_ip : Chars) (server_port : ℤ) → NodeRun V
  unfolding node_loop
  run_node connects loops initial shutdown_result rounds id server_ip server_port =
      let opened = tcp_active_open connects server_port (some server_ip) in
      if is_no_error opened.status
      then node_loop loops opened.socket shutdown_result id initial (loops_of loops) rounds
      else stopped

  with_arguments :
      ConnectResults
      → (loops : ℕ) → (initial : V) → (shutdown_result : ℤ) → List (NodeRound D)
      → (server_ip : Chars) → (id sleep_time server_port : Option ℤ) → Option (NodeRun V)
  with_arguments c loops initial shutdown_result rounds server_ip none t port = none
  with_arguments c loops initial shutdown_result rounds server_ip (some n) none port = none
  with_arguments c loops initial shutdown_result rounds server_ip (some n) (some t) none = none
  with_arguments c loops initial shutdown_result rounds server_ip (some n) (some t) (some port) =
      some (run_node c loops initial shutdown_result rounds (to_u16 n) server_ip port)

  -- `main`, given its arguments; the array for the address has room for 15 characters
  pub sensor_node :
      ConnectResults
      → (loops : ℕ) → (initial : V) → (shutdown_result : ℤ) → List (NodeRound D)
      → (argv : List Chars) → Option (NodeRun V)
  unfolding with_arguments run_node
  sensor_node c loops initial shutdown_result rounds
        (name ∷ id ∷ sleep_time ∷ server_ip ∷ server_port ∷ []) =
      with_arguments c loops initial shutdown_result rounds (first_chars 15 server_ip) (atoi id)
        (atoi sleep_time) (atoi server_port)
  sensor_node c loops initial shutdown_result rounds argv =
      some (record { sent = []; exit = some exit_success })

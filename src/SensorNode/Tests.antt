-- ===== src/SensorNode/Tests.antt =====
-- sensor_node.c: runs at concrete inputs.
use osc_final_lab.Common.{ℕ, ◌+◌, ◌≡◌, ◌≢◌, refl, true, none, some, List, [], ◌∷◌, pos, arith}
use osc_final_lab.Config.{SensorData}
use osc_final_lab.CString.{exit_success, Chars, atoi}
use osc_final_lab.Tcpsock.Connecting.{ConnectResults, tcp_active_open}
use osc_final_lab.Tcpsock.{Tcpsock, Transfer, magic_cookie, connection_closed, no_error}
use osc_final_lab.Connmgr.{Round, handle_client}
use osc_final_lab.SensorNode.Sending.{
  payloads_of, deliver, measured, handle_client-node_loop, sensor_node-measured,
}
use osc_final_lab.SensorNode.{NodeRound, node_loop, sensor_node}

abbrev drift : ℕ → ℕ → ℕ
drift d v = v + d

abbrev sends : ℕ → Transfer
sends n = record { count = pos n; errno = 0 }

abbrev round : ℕ → NodeRound ℕ
round d = record {
  draw = d;
  now = pos 1000;
  id_transfer = sends 2;
  value_transfer = sends 8;
  ts_transfer = sends 8;
}

abbrev rounds : List (NodeRound ℕ)
rounds = round 1 ∷ round 2 ∷ []

abbrev client : Tcpsock
client = record { cookie = magic_cookie; sd = pos 3; ip_addr = some 1; port = pos 40000 }

abbrev connects : ConnectResults
connects = record {
  allocated = true;
  socket_result = pos 3;
  inet_aton = λ text. some 1;
  connect_result = pos 0;
  getsockname_result = pos 0;
  local_addr = 1;
  local_port = 40000;
  addr_allocated = true;
}

abbrev garbage : SensorData ℕ
garbage = record { id = 0; value = 0; ts = pos 0 }

abbrev closed_round : Round ℕ
closed_round = record {
  id_call = record { status = connection_closed; bytes = pos 0; content = none };
  value_call = record { status = connection_closed; bytes = pos 0; content = none };
  ts_call = record { status = connection_closed; bytes = pos 0; content = none };
}

not_received : connection_closed ≢ no_error
not_received = λ e. cc

handle_client-node_loop_example :
    let run = node_loop drift 2 (some client) (pos 0) 15 20 2 rounds in
    let handled = handle_client true garbage (deliver run.sent (closed_round ∷ [])) in
    (handled.inserted ≡ measured drift 2 15 20 rounds) × (handled.returned ≡ true)
handle_client-node_loop_example =
    handle_client-node_loop drift 2 client (pos 0) 15 20 2 rounds garbage closed_round []
      (omega arith) refl (omega arith) ((refl, refl, refl), ((refl, refl, refl), tt)) not_received

abbrev digits_of_15 : Chars
digits_of_15 = b'1' ∷ b'5' ∷ []

abbrev digits_of_5678 : Chars
digits_of_5678 = b'5' ∷ b'6' ∷ b'7' ∷ b'8' ∷ []

sensor_node-measured_example :
    sensor_node drift connects 2 20
      (pos 0)
      rounds
      ([] ∷ digits_of_15 ∷ (b'1' ∷ []) ∷ (b'1' ∷ []) ∷ digits_of_5678 ∷ [])
    ≡ some (record { sent = payloads_of (measured drift 2 15 20 rounds); exit = some exit_success })
unfolding atoi tcp_active_open
sensor_node-measured_example =
    sensor_node-measured drift connects 2 20 (pos 0) rounds [] digits_of_15 (b'1' ∷ []) (b'1' ∷ [])
      digits_of_5678 (pos 15) (pos 1) (pos 5678) (omega arith) (omega arith)
      ((refl, refl, refl), ((refl, refl, refl), tt)) refl refl refl refl

-- Without the four arguments the program prints its usage and ends well.
usage :
    sensor_node drift connects 2 20 (pos 0) rounds ([] ∷ [])
    ≡ some (record { sent = []; exit = some exit_success })
unfolding sensor_node
usage = refl

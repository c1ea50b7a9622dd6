-- ===== src/Tcpsock/Tests.antt =====
-- lib/tcpsock.c: runs at concrete inputs.
use osc_final_lab.Common.{
  [], ◌∷◌, ◌&&◌, ℤ, ◌≢◌, not, ◌≡◌, refl, true, false, none, some, ◌++◌, if◌then◌else◌, pos, negsuc,
  eqb_ℤ,
}
use osc_final_lab.Tcpsock.Connecting.{
  ConnectResults, AcceptResults, tcp_active_open, tcp_wait_for_connection,
}
use osc_final_lab.Tcpsock.Connecting.Connected.{
  Settled, refused, tcp_active_open-Settled, tcp_active_open-left_open,
  tcp_wait_for_connection-left_open,
}
use osc_final_lab.Tcpsock.Receiving.{taken_as_timeout, tcp_receive_timeout-tcp_receive}
use osc_final_lab.Tcpsock.Opening.{left_open, open_after, tcp_close-tcp_passive_open}
use osc_final_lab.Tcpsock.{
  timeout_error, failed, Tcpsock, Transfer, magic_cookie, OpenResults, tcp_receive,
  tcp_receive_timeout, timeout_status, tcp_passive_open, tcp_close,
}

abbrev connected : Tcpsock
connected = record { cookie = magic_cookie; sd = pos 4; ip_addr = some 1; port = pos 5678 }

abbrev eleven_bytes : Transfer
eleven_bytes = record { count = pos 11; errno = 0 }

abbrev all_well : OpenResults
all_well = record {
  allocated = true;
  socket_result = pos 3;
  bind_result = pos 0;
  listen_result = pos 0;
}

abbrev port_taken : OpenResults
port_taken = record {
  allocated = true;
  socket_result = pos 3;
  bind_result = negsuc 0;
  listen_result = pos 0;
}

tcp_receive_timeout-tcp_receive_example :
    (tcp_receive_timeout (some connected) true true (pos 16) eleven_bytes ≡ (
      if taken_as_timeout (pos 11) 0
      then some (timeout_error, pos 11)
      else tcp_receive (some connected) true true (pos 16) eleven_bytes))
    × ((n : ℤ)
        → tcp_receive (some connected) true true (pos 16) eleven_bytes ≢ some (timeout_error, n))
tcp_receive_timeout-tcp_receive_example =
    tcp_receive_timeout-tcp_receive connected (pos 16) eleven_bytes refl

-- Eleven bytes that did arrive are reported as a timeout.
eleven_bytes_time_out :
    tcp_receive_timeout (some connected) true true (pos 16) eleven_bytes
    ≡ some (timeout_error, pos 11)
unfolding tcp_receive_timeout timeout_status
eleven_bytes_time_out = refl

tcp_close-tcp_passive_open_example :
    ((tcp_close (tcp_passive_open all_well (pos 5678)).socket (pos 0)).socket ≡ none)
    × (open_after [] (
          (tcp_passive_open all_well (pos 5678)).calls
          ++ (tcp_close (tcp_passive_open all_well (pos 5678)).socket (pos 0)).calls)
        ≡ (if eqb_ℤ (pos 0) (negsuc 0) then pos 3 ∷ [] else []))
unfolding tcp_passive_open
tcp_close-tcp_passive_open_example = tcp_close-tcp_passive_open all_well (pos 5678) (pos 0) refl

abbrev connects : ConnectResults
connects = record {
  allocated = true;
  socket_result = pos 3;
  inet_aton = λ text. some 1;
  connect_result = pos 0;
  getsockname_result = pos 0;
  local_addr = 1;
  local_port = 40000;
  addr_allocated = true;
}

abbrev accepts : AcceptResults
accepts = record {
  allocated = true;
  accept_result = pos 4;
  peer_addr = 1;
  peer_port = 40000;
  addr_allocated = false;
}

tcp_active_open-Settled_example :
    Settled (tcp_active_open connects (pos 5678) (some [])) (pos 3) 1 40000
tcp_active_open-Settled_example = tcp_active_open-Settled connects (pos 5678) (some [])

tcp_active_open-left_open_example :
    left_open 0 (tcp_active_open connects (pos 5678) (some [])).calls
    ≡ (if refused (pos 5678) then 0 else if true && not (failed (pos 3)) then 1 else 0)
tcp_active_open-left_open_example = tcp_active_open-left_open connects (pos 5678) []

-- Without memory for the address the accepted descriptor is left open.
tcp_wait_for_connection-left_open_example :
    left_open 0 (tcp_wait_for_connection accepts (some connected)).calls
    ≡ (if true && not (failed (pos 4)) then 1 else 0)
tcp_wait_for_connection-left_open_example = tcp_wait_for_connection-left_open accepts connected refl

-- ===== src/Tcpsock/Connecting.antt =====
-- lib/tcpsock.c: the sockets of a connection, at the end that connects and at the end that accepts,
-- and what can be asked of a socket. An IPv4 address is a number.
pub mod Connected
use osc_final_lab.Common.{
  ℕ, Bool, true, false, ◌||◌, not, Option, none, some, List, [], ◌∷◌, ◌==◌, if◌then◌else◌, ℤ, pos,
  negsuc, ltb_ℤ, eqb_ℤ,
}
use osc_final_lab.Tcpsock.{
  TcpStatus, no_error, socket_error, address_error, sockop_error, memory_error, magic_cookie,
  min_port, max_port, Tcpsock, SysCall, socket_call, connect_call, accept_call, Outcome, give_up,
  failed, bound_port,
}

-- `tcp_sock_create`, given whether `malloc` succeeds
unfoldable pub tcp_sock_create : (allocated : Bool) → Option Tcpsock
tcp_sock_create true = some (record { cookie = 0; sd = negsuc 0; ip_addr = none; port = negsuc 0 })
tcp_sock_create false = none

-- What the calls of `tcp_active_open` return: `malloc` of the socket, `socket`, `inet_aton` of a
-- string, `connect`, `getsockname` with the address and the port that it finds, and `malloc` of the
-- address.
pub record ConnectResults : Type 0 where
  pub allocated : Bool
  pub socket_result : ℤ
  pub inet_aton : List ℕ → Option ℕ
  pub connect_result : ℤ
  pub getsockname_result : ℤ
  pub local_addr : ℕ
  pub local_port : ℕ
  pub addr_allocated : Bool

-- What `tcp_active_open` does with its new socket `s`, given the address that `inet_aton` finds.
connect_to : ConnectResults → (remote_port : ℤ) → Tcpsock → Option ℕ → Outcome
connect_to r remote_port s none = give_up address_error (socket_call r.socket_result ∷ [])
connect_to r remote_port s (some addr) =
    let calls =
      socket_call r.socket_result
      ∷ connect_call r.socket_result addr (bound_port remote_port)
      ∷ [] in
    if not (eqb_ℤ r.connect_result (pos 0))
    then give_up sockop_error calls
    else if not (eqb_ℤ r.getsockname_result (pos 0))
    then give_up sockop_error calls
    else if not r.addr_allocated
    then give_up memory_error calls
    else record {
      status = no_error;
      socket = some (record s {
        cookie = magic_cookie;
        sd = r.socket_result;
        ip_addr = some r.local_addr;
        port = pos r.local_port;
      });
      calls = calls;
    }

active_socket : ConnectResults → (remote_port : ℤ) → (remote_ip : List ℕ) → Option Tcpsock → Outcome
unfolding connect_to
active_socket r remote_port remote_ip none = give_up memory_error []
active_socket r remote_port remote_ip (some s) =
    if failed r.socket_result
    then give_up sockop_error (socket_call r.socket_result ∷ [])
    else connect_to r remote_port s (r.inet_aton remote_ip)

-- `tcp_active_open`; `remote_ip` is `none` for NULL
unfoldable pub tcp_active_open :
    ConnectResults → (remote_port : ℤ) → (remote_ip : Option (List ℕ)) → Outcome
unfolding active_socket tcp_sock_create
tcp_active_open r remote_port none = give_up address_error []
tcp_active_open r remote_port (some remote_ip) =
    if ltb_ℤ remote_port min_port || ltb_ℤ max_port remote_port
    then give_up address_error []
    else active_socket r remote_port remote_ip (tcp_sock_create r.allocated)

-- What the calls of `tcp_wait_for_connection` return: `malloc` of the socket, `accept` with the
-- address and the port that it finds, and `malloc` of the address.
pub record AcceptResults : Type 0 where
  pub allocated : Bool
  pub accept_result : ℤ
  pub peer_addr : ℕ
  pub peer_port : ℕ
  pub addr_allocated : Bool

accepted_socket : AcceptResults → (listening_sd : ℤ) → Option Tcpsock → Outcome
accepted_socket r listening_sd none = give_up memory_error []
accepted_socket r listening_sd (some s) =
    let calls = accept_call listening_sd r.accept_result ∷ [] in
    if eqb_ℤ r.accept_result (negsuc 0)
    then give_up sockop_error calls
    else if not r.addr_allocated
    then give_up memory_error calls
    else record {
      status = no_error;
      socket = some (record s {
        cookie = magic_cookie;
        sd = r.accept_result;
        ip_addr = some r.peer_addr;
        port = pos r.peer_port;
      });
      calls = calls;
    }

-- `tcp_wait_for_connection`
unfoldable pub tcp_wait_for_connection : AcceptResults → (socket : Option Tcpsock) → Outcome
unfolding accepted_socket tcp_sock_create
tcp_wait_for_connection r none = give_up socket_error []
tcp_wait_for_connection r (some server) =
    if not (server.cookie == magic_cookie)
    then give_up socket_error []
    else accepted_socket r server.sd (tcp_sock_create r.allocated)

-- `tcp_get_ip_addr`, `tcp_get_port` and `tcp_get_sd`: the status, and the variable for the answer,
-- which held `old`.
pub tcp_get_ip_addr : Option Tcpsock → (old : Option ℕ) → TcpStatus × Option ℕ
tcp_get_ip_addr none old = (socket_error, old)
tcp_get_ip_addr (some s) old =
    if not (s.cookie == magic_cookie) then (socket_error, old) else (no_error, s.ip_addr)

pub tcp_get_port : Option Tcpsock → (old : ℤ) → TcpStatus × ℤ
tcp_get_port none old = (socket_error, old)
tcp_get_port (some s) old =
    if not (s.cookie == magic_cookie) then (socket_error, old) else (no_error, s.port)

pub tcp_get_sd : Option Tcpsock → (old : ℤ) → TcpStatus × ℤ
tcp_get_sd none old = (socket_error, old)
tcp_get_sd (some s) old =
    if not (s.cookie == magic_cookie) then (socket_error, old) else (no_error, s.sd)

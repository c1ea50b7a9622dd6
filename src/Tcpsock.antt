-- ===== src/Tcpsock.antt =====
-- lib/tcpsock.c: the sockets. What the system calls return is a parameter of each function; `none`
-- is a fault, an access through NULL. `errno` has its values from asm-generic/errno.h.
pub mod Receiving
pub mod Opening
pub mod Connecting
mod Tests
use osc_final_lab.Common.{
  ℕ, ◌%◌, Bool, true, false, ◌&&◌, ◌||◌, not, Option, none, some, List, [], ◌∷◌, ◌==◌,
  if◌then◌else◌, ℤ, pos, negsuc, ltb_ℤ, eqb_ℤ, pos_part,
}
use osc_final_lab.Config.{u16_mod}

pub data TcpStatus : Type 0 where
  no_error : TcpStatus
  socket_error : TcpStatus
  address_error : TcpStatus
  sockop_error : TcpStatus
  connection_closed : TcpStatus
  memory_error : TcpStatus
  timeout_error : TcpStatus

abbrev pub is_no_error : TcpStatus → Bool
is_no_error no_error = true
is_no_error e = false

abbrev pub magic_cookie : ℕ
magic_cookie = 11193170492725

abbrev pub min_port : ℤ
min_port = pos 1024

abbrev pub max_port : ℤ
max_port = pos 65536

abbrev pub max_pending : ℕ
max_pending = 10

abbrev pub epipe : ℕ
epipe = 32

abbrev pub eagain : ℕ
eagain = 11

abbrev pub ewouldblock : ℕ
ewouldblock = 11

abbrev pub enotconn : ℕ
enotconn = 107

-- `struct tcpsock`; the address is a number, `none` for NULL
pub record Tcpsock : Type 0 where
  pub cookie : ℕ
  pub sd : ℤ
  pub ip_addr : Option ℕ
  pub port : ℤ

-- What `recv` or `sendto` returns, and `errno` after it.
pub record Transfer : Type 0 where
  pub count : ℤ
  pub errno : ℕ

abbrev pub failed : ℤ → Bool
failed n = ltb_ℤ n (pos 0)

-- The three tests after `recv` in `tcp_receive`.
receive_status : Transfer → TcpStatus
receive_status t =
    if eqb_ℤ t.count (pos 0)
    then connection_closed
    else if failed t.count && (t.errno == enotconn)
    then connection_closed
    else if failed t.count
    then sockop_error
    else no_error

-- `tcp_receive`: the status and `*buf_size`. `sized` says whether `buf_size` is not NULL, `has_buffer`
-- whether `buffer` is not, and `size` is what `*buf_size` was.
pub tcp_receive :
    Option Tcpsock → (has_buffer sized : Bool) → (size : ℤ) → Transfer → Option (TcpStatus × ℤ)
unfolding receive_status
tcp_receive none has_buffer sized size t = some (socket_error, size)
tcp_receive (some s) has_buffer sized size t =
    if not (s.cookie == magic_cookie)
    then some (socket_error, size)
    else if not has_buffer || not sized
    then (if sized then some (no_error, pos 0) else none)
    else some (receive_status t, t.count)

-- The tests after `recv` in `tcp_receive_timeout`.
timeout_status : Transfer → TcpStatus
timeout_status t =
    if failed t.count && (t.errno == eagain)
    then timeout_error
    else if failed t.count && (t.errno == ewouldblock)
    then timeout_error
    else if eqb_ℤ t.count (pos ewouldblock)
    then timeout_error
    else if eqb_ℤ t.count (pos 0)
    then connection_closed
    else if failed t.count && (t.errno == enotconn)
    then connection_closed
    else if failed t.count
    then sockop_error
    else no_error

-- `tcp_receive_timeout`, which reads `socket->sd` before it tests `socket`
pub tcp_receive_timeout :
    Option Tcpsock → (has_buffer sized : Bool) → (size : ℤ) → Transfer → Option (TcpStatus × ℤ)
unfolding timeout_status
tcp_receive_timeout none has_buffer sized size t = none
tcp_receive_timeout (some s) has_buffer sized size t =
    if not (s.cookie == magic_cookie)
    then some (socket_error, size)
    else if not has_buffer || not sized
    then (if sized then some (no_error, pos 0) else none)
    else some (timeout_status t, t.count)

-- The tests after `sendto` in `tcp_send`.
send_status : Transfer → TcpStatus
send_status t =
    if eqb_ℤ t.count (pos 0)
    then connection_closed
    else if failed t.count && ((t.errno == epipe) || (t.errno == enotconn))
    then connection_closed
    else if failed t.count
    then sockop_error
    else no_error

-- `tcp_send`
pub tcp_send :
    Option Tcpsock → (has_buffer sized : Bool) → (size : ℤ) → Transfer → Option (TcpStatus × ℤ)
unfolding send_status
tcp_send none has_buffer sized size t = some (socket_error, size)
tcp_send (some s) has_buffer sized size t =
    if not (s.cookie == magic_cookie)
    then some (socket_error, size)
    else if not has_buffer || not sized
    then (if sized then some (no_error, pos 0) else none)
    else some (send_status t, t.count)

-- The system calls that open and close descriptors, in order.
pub data SysCall : Type 0 where
  socket_call : (sd : ℤ) → SysCall
  bind_call : (sd : ℤ) (port : ℕ) → SysCall
  listen_call : (sd : ℤ) (pending : ℕ) → SysCall
  shutdown_call : (sd : ℤ) → SysCall
  close_call : (sd : ℤ) → SysCall
  connect_call : (sd : ℤ) (address port : ℕ) → SysCall
  accept_call : (sd : ℤ) (accepted : ℤ) → SysCall

-- What a function returns, what it leaves in the socket pointer, and its system calls.
pub record Outcome : Type 0 where
  pub status : TcpStatus
  pub socket : Option Tcpsock
  pub calls : List SysCall

abbrev give_up : TcpStatus → List SysCall → Outcome
give_up e calls = record { status = e; socket = none; calls = calls }

-- Whether `malloc` succeeds, and what `socket`, `bind` and `listen` return.
pub record OpenResults : Type 0 where
  pub allocated : Bool
  pub socket_result : ℤ
  pub bind_result : ℤ
  pub listen_result : ℤ

-- The port that is bound: `htons` takes a `uint16_t`.
abbrev pub bound_port : ℤ → ℕ
bound_port port = pos_part port % u16_mod

-- `tcp_passive_open`
unfoldable pub tcp_passive_open : OpenResults → (port : ℤ) → Outcome
tcp_passive_open r port =
    let sd = r.socket_result in
    let opened = socket_call sd in
    let bound = bind_call sd (bound_port port) in
    let listening = listen_call sd max_pending in
    if ltb_ℤ port min_port || ltb_ℤ max_port port
    then give_up address_error []
    else if not r.allocated
    then give_up memory_error []
    else if failed sd
    then give_up sockop_error (opened ∷ [])
    else if not (eqb_ℤ r.bind_result (pos 0))
    then give_up sockop_error (opened ∷ bound ∷ [])
    else if not (eqb_ℤ r.listen_result (pos 0))
    then give_up sockop_error (opened ∷ bound ∷ listening ∷ [])
    else record {
      status = no_error;
      socket = some (record { cookie = magic_cookie; sd = sd; ip_addr = none; port = port });
      calls = opened ∷ bound ∷ listening ∷ [];
    }

-- The system calls of `tcp_close`, given what `shutdown` returns.
close_calls : Tcpsock → (shutdown_result : ℤ) → List SysCall
close_calls s shutdown_result =
    if (s.cookie == magic_cookie) && not (failed s.sd)
    then shutdown_call s.sd
      ∷ (if eqb_ℤ shutdown_result (negsuc 0) then [] else close_call s.sd ∷ [])
    else []

-- `tcp_close` of a `*socket`
unfoldable pub tcp_close : Option Tcpsock → (shutdown_result : ℤ) → Outcome
unfolding close_calls
tcp_close none shutdown_result = give_up socket_error []
tcp_close (some s) shutdown_result = give_up no_error (close_calls s shutdown_result)

-- ===== src/Tcpsock/Connecting/Connected.antt =====
-- lib/tcpsock.c: what the two ends of a connection leave, on every branch.
use osc_final_lab.Common.{
  ℕ, ◌≡◌, ap, ◌≢◌, refl, Bool, false, none, some, Option, List, ◌||◌, ◌&&◌, ◌⊎◌, if◌then◌else◌, ℤ,
  pos, negsuc, ltb_ℤ, eqb_ℤ, arith, Bool-cases, inl, inr, not, ◌==◌,
}
use osc_final_lab.Tcpsock.Connecting.{
  ConnectResults, AcceptResults, tcp_sock_create, connect_to, active_socket, tcp_active_open,
  accepted_socket, tcp_wait_for_connection, tcp_get_sd, tcp_get_port, tcp_get_ip_addr,
}
use osc_final_lab.Tcpsock.Opening.{left_open}
use osc_final_lab.Tcpsock.{
  TcpStatus, no_error, socket_error, failed, Tcpsock, min_port, max_port, magic_cookie, Outcome,
}

-- What `tcp_get_sd`, `tcp_get_ip_addr` and `tcp_get_port` answer for a socket.
abbrev pub Answers : Option Tcpsock → (sd : ℤ) (addr : ℕ) (port : ℕ) → Type 0
Answers s sd addr port =
    ((old : ℤ) → tcp_get_sd s old ≡ (no_error, sd))
    × ((old : Option ℕ) → tcp_get_ip_addr s old ≡ (no_error, some addr))
    × ((old : ℤ) → tcp_get_port s old ≡ (no_error, pos port))

-- An outcome that leaves a socket with these answers, or an error and no socket.
abbrev pub Settled : Outcome → (sd : ℤ) (addr port : ℕ) → Type 0
Settled o sd addr port =
    ((o.status ≡ no_error) × Answers o.socket sd addr port)
    ⊎ ((o.status ≢ no_error) × (o.socket ≡ none))

-- The port is out of the range that is accepted.
abbrev pub refused : ℤ → Bool
refused port = ltb_ℤ port min_port || ltb_ℤ max_port port

module _ (r : ConnectResults) (remote_port : ℤ) where
  connect_to-Settled :
      (s : Tcpsock) (addr : Option ℕ)
      → Settled (connect_to r remote_port s addr) r.socket_result r.local_addr r.local_port
  unfolding connect_to tcp_get_sd tcp_get_port tcp_get_ip_addr
  connect_to-Settled s none = inr (λ e. cc, refl)
  connect_to-Settled s (some addr) = elim (Bool-cases (eqb_ℤ r.connect_result (pos 0))) [
    | inr bad ↦ rw bad (inr (λ e. cc, refl))
    | inl connects ↦ elim (Bool-cases (eqb_ℤ r.getsockname_result (pos 0))) [
      | inr bad ↦ rw (connects, bad) (inr (λ e. cc, refl))
      | inl named ↦ elim (Bool-cases r.addr_allocated) [
        | inr bad ↦ rw (connects, named, bad) (inr (λ e. cc, refl))
        | inl got ↦ rw (connects, named, got) (inl (refl, (λ old. refl, λ old. refl, λ old. refl)))
      ]
    ]
  ]

  connect_to-left_open :
      (s : Tcpsock) (addr : Option ℕ)
      → failed r.socket_result ≡ false
      → left_open 0 (connect_to r remote_port s addr).calls ≡ 1
  unfolding connect_to left_open
  connect_to-left_open s none opened = rw opened refl
  connect_to-left_open s (some addr) opened = ground arith

  active_socket-Settled :
      (remote_ip : List ℕ) (s : Option Tcpsock)
      → Settled (active_socket r remote_port remote_ip s) r.socket_result r.local_addr r.local_port
  unfolding active_socket
  active_socket-Settled remote_ip none = inr (λ e. cc, refl)
  active_socket-Settled remote_ip (some s) = elim (Bool-cases (failed r.socket_result)) [
    | inl bad ↦ rw bad (inr (λ e. cc, refl))
    | inr opened ↦ rw opened (connect_to-Settled s (r.inet_aton remote_ip))
  ]

  -- Whatever the system calls return, `tcp_active_open` either returns TCP_NO_ERROR and leaves a
  -- socket for which the three getters return TCP_NO_ERROR and the descriptor of `socket` and the
  -- address and port of `getsockname`, or returns an error and leaves no socket.
  pub tcp_active_open-Settled :
      (remote_ip : Option (List ℕ))
      → Settled (tcp_active_open r remote_port remote_ip) r.socket_result r.local_addr r.local_port
  unfolding tcp_active_open
  tcp_active_open-Settled none = inr (λ e. cc, refl)
  tcp_active_open-Settled (some remote_ip) = elim (Bool-cases (refused remote_port)) [
    | inl bad ↦ rw bad (inr (λ e. cc, refl))
    | inr good ↦ rw good (active_socket-Settled remote_ip (tcp_sock_create r.allocated))
  ]

  -- For an address that is not NULL, `tcp_active_open` leaves one descriptor open if the port is
  -- in the accepted range, the socket structure is allocated and `socket` succeeds, and none
  -- otherwise: also when a later call fails and an error is returned.
  pub tcp_active_open-left_open :
      (remote_ip : List ℕ)
      → left_open 0 (tcp_active_open r remote_port (some remote_ip)).calls ≡ (
          if refused remote_port
          then 0
          else if r.allocated && not (failed r.socket_result)
          then 1
          else 0)
  unfolding tcp_active_open active_socket tcp_sock_create left_open
  tcp_active_open-left_open remote_ip = elim (Bool-cases (refused remote_port)) [
    | inl bad ↦ rw bad refl
    | inr good ↦ rw good (elim (Bool-cases r.allocated) [
      | inr bad ↦ rw bad refl
      | inl got ↦ rw got (elim (Bool-cases (failed r.socket_result)) [
        | inl bad ↦ rw bad (rw bad refl)
        | inr opened ↦ rw opened (
            connect_to-left_open
              (record { cookie = 0; sd = negsuc 0; ip_addr = none; port = negsuc 0 })
              (r.inet_aton remote_ip) opened)
      ])
    ])
  ]

accepted_socket-Settled :
    (r : AcceptResults) (sd : ℤ) (s : Option Tcpsock)
    → Settled (accepted_socket r sd s) r.accept_result r.peer_addr r.peer_port
unfolding accepted_socket tcp_get_sd tcp_get_port tcp_get_ip_addr
accepted_socket-Settled r sd none = inr (λ e. cc, refl)
accepted_socket-Settled r sd (some s) = elim (Bool-cases (eqb_ℤ r.accept_result (negsuc 0))) [
  | inl bad ↦ rw bad (inr (λ e. cc, refl))
  | inr accepts ↦ elim (Bool-cases r.addr_allocated) [
    | inr bad ↦ rw (accepts, bad) (inr (λ e. cc, refl))
    | inl got ↦ rw (accepts, got) (inl (refl, (λ old. refl, λ old. refl, λ old. refl)))
  ]
]

-- `tcp_wait_for_connection` leaves a socket that answers with what `accept` found, or returns an
-- error and leaves none.
pub tcp_wait_for_connection-Settled :
    (r : AcceptResults) (server : Option Tcpsock)
    → Settled (tcp_wait_for_connection r server) r.accept_result r.peer_addr r.peer_port
unfolding tcp_wait_for_connection
tcp_wait_for_connection-Settled r none = inr (λ e. cc, refl)
tcp_wait_for_connection-Settled r (some server) =
    elim (Bool-cases (server.cookie == magic_cookie)) [
      | inr bad ↦ rw bad (inr (λ e. cc, refl))
      | inl bound ↦ rw bound (accepted_socket-Settled r server.sd (tcp_sock_create r.allocated))
    ]

-- On a bound socket, `tcp_wait_for_connection` leaves one descriptor open if the new structure is
-- allocated and `accept` returns a valid one, and none otherwise: also when the memory for the
-- address is missing and an error is returned.
pub tcp_wait_for_connection-left_open :
    (r : AcceptResults) (server : Tcpsock)
    → server.cookie ≡ magic_cookie
    → left_open 0 (tcp_wait_for_connection r (some server)).calls
      ≡ (if r.allocated && not (failed r.accept_result) then 1 else 0)
unfolding tcp_wait_for_connection accepted_socket tcp_sock_create left_open
tcp_wait_for_connection-left_open r server bound = ground arith

-- A socket that answers is bound.
pub bound-Answers :
    (o : Option Tcpsock) (sd : ℤ) (addr port : ℕ)
    → Answers o sd addr port
    → (s : Tcpsock) × (o ≡ some s) × (s.cookie ≡ magic_cookie)
unfolding tcp_get_sd
bound-Answers none sd addr port (answers, _, _) =
    let no : socket_error ≡ no_error = ap (λ p. p.0) (answers (pos 0)) in absurd (cc)
bound-Answers (some s) sd addr port (answers, _, _) = elim (Bool-cases (s.cookie == magic_cookie)) [
  | inl bound ↦ (s, refl, ground arith)
  | inr unbound ↦
      let no : socket_error ≡ no_error =
        (rw unbound at (ap (λ (p : TcpStatus × ℤ). p.0) (answers (pos 0)))) in
      cc
]

-- ===== src/Tcpsock/Receiving.antt =====
-- lib/tcpsock.c: how the receive and send functions read what the system calls return.
use osc_final_lab.Common.{
  suc, Bool, false, ℕ, ◌≡◌, ◌≢◌, ◌&&◌, eqb_ℤ, if◌then◌else◌, ◌∙◌, ◌⊎◌, inl, inr, refl, ap, true,
  Option, some, none, not, ◌||◌, ◌==◌, ==_of_eq, ltb_of_le, Bool-cases, ℤ, pos, negsuc, arith,
}
use osc_final_lab.Tcpsock.{
  no_error, timeout_error, connection_closed, sockop_error, Tcpsock, Transfer, magic_cookie,
  enotconn, failed, receive_status, timeout_status, send_status, tcp_send, epipe, tcp_receive,
  tcp_receive_timeout,
}

abbrev transfer : ℤ → ℕ → Transfer
transfer n e = record { count = n; errno = e }

-- `recv` failed with EAGAIN, which is 11, or returned 11 bytes.
abbrev pub taken_as_timeout : (count : ℤ) → (errno : ℕ) → Bool
taken_as_timeout (pos n) errno = n == 11
taken_as_timeout (negsuc n) errno = errno == 11

timeout_status-receive_status :
    (n : ℤ) (e : ℕ)
    → timeout_status (transfer n e)
      ≡ (if taken_as_timeout n e then timeout_error else receive_status (transfer n e))
unfolding timeout_status receive_status
timeout_status-receive_status (pos n) e = elim (Bool-cases (n == 11)) [
  | inl eleven ↦ rw (ltb_of_le n 0 (omega arith), eleven) refl
  | inr other ↦ rw (ltb_of_le n 0 (omega arith), other) refl
]
timeout_status-receive_status (negsuc n) e = elim (Bool-cases (e == 11)) [
  | inl again ↦ rw again refl
  | inr other ↦ rw other refl
]

receive_status-ne : (t : Transfer) → receive_status t ≢ timeout_error
unfolding receive_status
receive_status-ne t e = elim (Bool-cases (eqb_ℤ t.count (pos 0))) [
  | inl ends ↦ let no : connection_closed ≡ timeout_error = (rw ends at e) in cc
  | inr some_bytes ↦ elim (Bool-cases (failed t.count && (t.errno == enotconn))) [
    | inl gone ↦ let no : connection_closed ≡ timeout_error = (rw (some_bytes, gone) at e) in cc
    | inr there ↦ elim (Bool-cases (failed t.count)) [
      | inl bad ↦ let no : sockop_error ≡ timeout_error = (rw (some_bytes, there, bad) at e) in cc
      | inr good ↦ let no : no_error ≡ timeout_error = (rw (some_bytes, there, good) at e) in cc
    ]
  ]
]

-- On a bound socket and given a buffer, `tcp_receive_timeout` returns TCP_TIMEOUT_ERROR and what
-- `recv` returned exactly if `recv` failed with EAGAIN or returned 11 bytes, and otherwise what
-- `tcp_receive` returns, which is never TCP_TIMEOUT_ERROR.
pub tcp_receive_timeout-tcp_receive :
    (s : Tcpsock) (size : ℤ) (t : Transfer)
    → s.cookie ≡ magic_cookie
    → (tcp_receive_timeout (some s) true true size t ≡ (
        if taken_as_timeout t.count t.errno
        then some (timeout_error, t.count)
        else tcp_receive (some s) true true size t))
      × ((n : ℤ) → tcp_receive (some s) true true size t ≢ some (timeout_error, n))
unfolding tcp_receive_timeout tcp_receive
tcp_receive_timeout-tcp_receive s size t bound = rw (==_of_eq s.cookie magic_cookie bound) (
  ap (λ r. some (r, t.count)) (timeout_status-receive_status t.count t.errno)
      ∙ (elim (Bool-cases (taken_as_timeout t.count t.errno)) [
        | inl late ↦ rw late refl
        | inr came ↦ rw came refl
      ]),
  λ n e. let same : receive_status t ≡ timeout_error = cc in receive_status-ne t same,
)

send_status-receive_status :
    (n : ℤ) (e : ℕ)
    → (send_status (transfer n e) ≡ receive_status (transfer n e))
      ⊎ ((failed n ≡ true)
          × (e ≡ epipe)
          × (send_status (transfer n e) ≡ connection_closed)
          × (receive_status (transfer n e) ≡ sockop_error))
unfolding send_status receive_status
send_status-receive_status (pos n) e = inl (rw (ltb_of_le n 0 (omega arith)) refl)
send_status-receive_status (negsuc n) e = elim (Bool-cases (e == 32)) [
  | inl broken ↦
      let not_unconnected : (e == 107) ≡ false = ground arith in
      inr (refl, ground arith, rw broken refl, rw not_unconnected refl)
  | inr other ↦ inl (rw other refl)
]

-- `tcp_send` returns for what `sendto` returned the status and the size that `tcp_receive` does
-- for the same from `recv`, faults included, or the call failed with EPIPE, which is
-- TCP_CONNECTION_CLOSED for `tcp_send` and TCP_SOCKOP_ERROR for `tcp_receive`.
pub tcp_send-tcp_receive :
    (socket : Option Tcpsock) (has_buffer sized : Bool) (size : ℤ) (t : Transfer)
    → (tcp_send socket has_buffer sized size t ≡ tcp_receive socket has_buffer sized size t)
      ⊎ ((failed t.count ≡ true)
          × (t.errno ≡ epipe)
          × (tcp_send socket has_buffer sized size t ≡ some (connection_closed, t.count))
          × (tcp_receive socket has_buffer sized size t ≡ some (sockop_error, t.count)))
unfolding tcp_send tcp_receive
tcp_send-tcp_receive none has_buffer sized size t = inl refl
tcp_send-tcp_receive (some s) has_buffer sized size t =
    elim (Bool-cases (s.cookie == magic_cookie)) [
      | inr unbound ↦ inl (rw unbound refl)
      | inl bound ↦ rw bound (elim (Bool-cases (not has_buffer || not sized)) [
        | inl nothing ↦ inl (rw nothing refl)
        | inr something ↦ rw something (elim (send_status-receive_status t.count t.errno) [
          | inl same ↦ inl (ap (λ r. some (r, t.count)) same)
          | inr (bad, pipe, closed, broken) ↦
              inr
                (bad, pipe, ap (λ r. some (r, t.count)) closed, ap (λ r. some (r, t.count)) broken)
        ])
      ])
    ]

-- A call of `tcp_send` on a bound socket that sends something succeeds.
pub tcp_send-pos :
    (s : Tcpsock) (size : ℤ) (t : Transfer) (n : ℕ)
    → s.cookie ≡ magic_cookie
    → t.count ≡ pos (suc n)
    → tcp_send (some s) true true size t ≡ some (no_error, t.count)
unfolding tcp_send send_status
tcp_send-pos s size t n bound sends = rw (bound, sends) (ground arith)

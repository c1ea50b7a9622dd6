-- ===== src/Tcpsock/Opening.antt =====
-- lib/tcpsock.c: which ports are bound, and which descriptors are left open.
use osc_final_lab.Common.{
  ℕ, ◌+◌, ◌-◌, ◌≤◌, ◌<◌, ◌≡◌, ◌≢◌, refl, sym, ap, true, false, ◌||◌, ◌&&◌, not, none, some, List,
  [], ◌∷◌, ◌++◌, ◌==◌, Bool-cases, inl, inr, ◌⊎◌, ◌%◌, if◌then◌else◌, ℤ, pos, negsuc, ltb_ℤ, eqb_ℤ,
  arith,
}
use native.Mathlib.Nat.{mod-eq_of_lt}
use osc_final_lab.Config.{u16_mod}
use osc_final_lab.Tcpsock.{
  no_error, sockop_error, address_error, memory_error, magic_cookie, min_port, max_port,
  max_pending, failed, Tcpsock, SysCall, socket_call, bind_call, listen_call, close_call,
  accept_call, Outcome, OpenResults, bound_port, tcp_passive_open, close_calls, tcp_close,
}

-- How many descriptors are open after the system calls, if `n` were before.
unfoldable pub left_open : ℕ → List SysCall → ℕ
left_open n [] = n
left_open n (socket_call sd ∷ calls) = left_open (if failed sd then n else n + 1) calls
left_open n (close_call sd ∷ calls) = left_open (n - 1) calls
left_open n (accept_call sd accepted ∷ calls) =
    left_open (if failed accepted then n else n + 1) calls
left_open n (c ∷ calls) = left_open n calls

closed : ℤ → List ℤ → List ℤ
closed sd [] = []
closed sd (d ∷ ds) = let rest = closed sd ds in if eqb_ℤ d sd then rest else d ∷ rest

-- Which descriptors are open after the system calls, if `ds` were before.
unfoldable pub open_after : List ℤ → List SysCall → List ℤ
unfolding closed
open_after ds [] = ds
open_after ds (socket_call sd ∷ calls) = open_after (if failed sd then ds else sd ∷ ds) calls
open_after ds (close_call sd ∷ calls) = open_after (closed sd ds) calls
open_after ds (accept_call sd accepted ∷ calls) =
    open_after (if failed accepted then ds else accepted ∷ ds) calls
open_after ds (c ∷ calls) = open_after ds calls

-- The calls of `bind` among the system calls: the descriptor and the port of each.
unfoldable pub binds : List SysCall → List (ℤ × ℕ)
binds [] = []
binds (bind_call sd port ∷ calls) = (sd, port) ∷ binds calls
binds (c ∷ calls) = binds calls

-- What an open that succeeds leaves.
abbrev pub listening : OpenResults → ℤ → Outcome
listening r port = record {
  status = no_error;
  socket =
      some (record { cookie = magic_cookie; sd = r.socket_result; ip_addr = none; port = port });
  calls =
      socket_call r.socket_result
      ∷ bind_call r.socket_result (bound_port port)
      ∷ listen_call r.socket_result max_pending
      ∷ [];
}

-- If `tcp_passive_open` returns TCP_NO_ERROR, its descriptor is valid, it has made the calls of
-- `socket`, `bind` and `listen` in this order, and it leaves a bound socket with that descriptor,
-- the port and no address.
pub tcp_passive_open-listening :
    (r : OpenResults) (port : ℤ)
    → (tcp_passive_open r port).status ≡ no_error
    → (failed r.socket_result ≡ false) × (tcp_passive_open r port ≡ listening r port)
unfolding tcp_passive_open
tcp_passive_open-listening r port done =
    elim (Bool-cases (ltb_ℤ port min_port || ltb_ℤ max_port port)) [
      | inl bad ↦ let no : address_error ≡ no_error = (rw bad at done) in cc
      | inr good ↦ elim (Bool-cases r.allocated) [
        | inr full ↦ let no : memory_error ≡ no_error = (rw (good, full) at done) in cc
        | inl got ↦ elim (Bool-cases (failed r.socket_result)) [
          | inl bad ↦ let no : sockop_error ≡ no_error = (rw (good, got, bad) at done) in cc
          | inr opened ↦ elim (Bool-cases (eqb_ℤ r.bind_result (pos 0))) [
            | inr bad ↦
                let no : sockop_error ≡ no_error = (rw (good, got, opened, bad) at done) in cc
            | inl bound ↦ elim (Bool-cases (eqb_ℤ r.listen_result (pos 0))) [
              | inr bad ↦
                  let no : sockop_error ≡ no_error = (rw (good, got, opened, bound, bad) at done) in
                  cc
              | inl listens ↦ (opened, rw (good, got, opened, bound, listens) refl)
            ]
          ]
        ]
      ]
    ]

in_range :
    (port : ℤ)
    → (ltb_ℤ port min_port || ltb_ℤ max_port port) ≡ false
    → (n : ℕ) × (port ≡ pos n) × (n ≤ 65536)
in_range (pos n) good = (n, refl, ground arith)
in_range (negsuc n) good = cc

==-eq : (a b : ℕ) → (a == b) ≡ true → a ≡ b
==-eq a b h = ground arith

below_top : (n : ℕ) → n ≤ 65536 → (n == 65536) ≡ false → n < 65536
below_top n le h = ground arith

-- One call of `bind` on a valid descriptor.
binds_once :
    (r : OpenResults) (port : ℤ)
    → (ltb_ℤ port min_port || ltb_ℤ max_port port) ≡ false
    → binds (tcp_passive_open r port).calls ≡ (
        if r.allocated && not (failed r.socket_result)
        then (r.socket_result, bound_port port) ∷ []
        else [])
unfolding tcp_passive_open binds
binds_once r port good = rw good (ground arith)

pub tcp_passive_open-bound_port :
    (r : OpenResults) (port : ℤ)
    → (tcp_passive_open r port).status ≢ address_error
    → (p : ℕ) × ((port ≡ pos p) ⊎ ((port ≡ pos 65536) × (p ≡ 0)))
      × (binds (tcp_passive_open r port).calls
          ≡ (if r.allocated && not (failed r.socket_result) then (r.socket_result, p) ∷ [] else []))
unfolding tcp_passive_open
tcp_passive_open-bound_port r port given =
    elim (Bool-cases (ltb_ℤ port min_port || ltb_ℤ max_port port)) [
      | inl bad ↦ absurd (given (rw bad refl))
      | inr good ↦
          let (n, same, le) = in_range port good in
          (
            bound_port port,
            rw same (elim (Bool-cases (n == 65536)) [
              | inl top ↦ inr (ap pos (ground arith), ap (λ k. k % u16_mod) (==-eq n 65536 top))
              | inr below ↦ inl (ap pos (sym (mod-eq_of_lt (below_top n le below))))
            ]),
            binds_once r port good,
          )
    ]

-- If `tcp_passive_open` returns TCP_SOCKOP_ERROR, the descriptor that `socket` returned is left
-- open, if it was a valid one.
pub tcp_passive_open-left_open :
    (r : OpenResults) (port : ℤ)
    → (tcp_passive_open r port).status ≡ sockop_error
    → left_open 0 (tcp_passive_open r port).calls ≡ (if failed r.socket_result then 0 else 1)
unfolding tcp_passive_open left_open
tcp_passive_open-left_open r port stopped =
    elim (Bool-cases (ltb_ℤ port min_port || ltb_ℤ max_port port)) [
      | inl bad ↦ let no : address_error ≡ sockop_error = (rw bad at stopped) in cc
      | inr good ↦ elim (Bool-cases r.allocated) [
        | inr full ↦ let no : memory_error ≡ sockop_error = (rw (good, full) at stopped) in cc
        | inl got ↦ elim (Bool-cases (failed r.socket_result)) [
          | inl bad ↦ rw (good, got, bad) (rw bad refl)
          | inr opened ↦ elim (Bool-cases (eqb_ℤ r.bind_result (pos 0))) [
            | inr bad ↦ rw (good, got, opened, bad) (rw opened refl)
            | inl bound ↦ elim (Bool-cases (eqb_ℤ r.listen_result (pos 0))) [
              | inr bad ↦ rw (good, got, opened, bound, bad) (rw opened refl)
              | inl listens ↦
                  let no : no_error ≡ sockop_error =
                    (rw (good, got, opened, bound, listens) at stopped) in
                  cc
            ]
          ]
        ]
      ]
    ]

eqb_ℤ-same : (n : ℤ) → eqb_ℤ n n ≡ true
eqb_ℤ-same (pos n) = ground arith
eqb_ℤ-same (negsuc n) = ground arith

-- If `tcp_passive_open` succeeds and its socket is then closed with `tcp_close`, the socket
-- pointer is NULL, and the descriptor that `socket` returned is open if `shutdown` returns -1,
-- and no descriptor is open otherwise.
pub tcp_close-tcp_passive_open :
    (r : OpenResults) (port shutdown_result : ℤ)
    → (tcp_passive_open r port).status ≡ no_error
    → ((tcp_close (tcp_passive_open r port).socket shutdown_result).socket ≡ none)
      × (open_after [] (
            (tcp_passive_open r port).calls
            ++ (tcp_close (tcp_passive_open r port).socket shutdown_result).calls)
          ≡ (if eqb_ℤ shutdown_result (negsuc 0) then r.socket_result ∷ [] else []))
unfolding tcp_close close_calls open_after closed
tcp_close-tcp_passive_open r port shutdown_result done =
    let (opened, listens) = tcp_passive_open-listening r port done in
    rw (listens, opened)
      (
        refl,
        (elim (Bool-cases (eqb_ℤ shutdown_result (negsuc 0))) [
          | inl stuck ↦ rw stuck (rw opened refl)
          | inr shut ↦ rw shut (rw opened (rw (eqb_ℤ-same r.socket_result) refl))
        ]),
      )

pub tcp_close-some :
    (s : Tcpsock) (shutdown_result : ℤ) → (tcp_close (some s) shutdown_result).status ≡ no_error
unfolding tcp_close
tcp_close-some s shutdown_result = refl

pub tcp_passive_open-in_range :
    (r : OpenResults) (port : ℤ)
    → (ltb_ℤ port min_port || ltb_ℤ max_port port) ≡ false
    → (tcp_passive_open r port).status ≢ address_error
unfolding tcp_passive_open
tcp_passive_open-in_range r port good e = elim (Bool-cases r.allocated) [
  | inr full ↦ let other : memory_error ≡ address_error = (rw (good, full) at e) in cc
  | inl got ↦ elim (Bool-cases (failed r.socket_result)) [
    | inl bad ↦ let other : sockop_error ≡ address_error = (rw (good, got, bad) at e) in cc
    | inr opened ↦ elim (Bool-cases (eqb_ℤ r.bind_result (pos 0))) [
      | inr bad ↦
          let other : sockop_error ≡ address_error = (rw (good, got, opened, bad) at e) in cc
      | inl bound ↦ elim (Bool-cases (eqb_ℤ r.listen_result (pos 0))) [
        | inr bad ↦
            let other : sockop_error ≡ address_error = (rw (good, got, opened, bound, bad) at e) in
            cc
        | inl listens ↦
            let other : no_error ≡ address_error = (rw (good, got, opened, bound, listens) at e) in
            cc
      ]
    ]
  ]
]

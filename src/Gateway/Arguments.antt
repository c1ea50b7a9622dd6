-- ===== src/Gateway/Arguments.antt =====
-- main.c: which arguments `main` accepts, and what becomes of them in the connection manager.
use osc_final_lab.Common.{
  Bool, true, false, ◌||◌, ◌&&◌, not, if◌then◌else◌, ℕ, ◌≡◌, ◌≢◌, ap, sym, ◌∙◌, Option, none, some,
  List, [], ◌∷◌, Bool-cases, inl, inr, ℤ, pos, negsuc, ltb_ℤ, leb_ℤ, arith,
}
use osc_final_lab.CString.{Chars, atoi}
use osc_final_lab.Tcpsock.Opening.{binds, tcp_passive_open-bound_port, tcp_passive_open-in_range}
use osc_final_lab.Tcpsock.{address_error, OpenResults, failed, tcp_passive_open, min_port, max_port}
use osc_final_lab.Connmgr.Manager.{Reachable, initial, opening}
use osc_final_lab.Gateway.{
  bad_port, bad_clients, no_map, refused, accepted, check_numbers, check_arguments,
}

-- The numbers are what the arguments say, and past the tests.
check_numbers-accepted :
    (p c : Option ℤ) (map_exists : Bool) (port clients : ℤ)
    → check_numbers p c map_exists ≡ accepted port clients
    → (p ≡ some port)
      × (c ≡ some clients)
      × (ltb_ℤ port (pos 1024) ≡ false)
      × (leb_ℤ clients (pos 0) ≡ false)
      × (map_exists ≡ true)
unfolding check_numbers
check_numbers-accepted none c map_exists port clients e = absurd (cc)
check_numbers-accepted (some p) none map_exists port clients e = absurd (cc)
check_numbers-accepted (some p) (some c) map_exists port clients e =
    elim (Bool-cases (ltb_ℤ p (pos 1024))) [
      | inl low ↦ let no_start : refused bad_port ≡ accepted port clients = (rw low at e) in cc
      | inr high ↦ elim (Bool-cases (leb_ℤ c (pos 0))) [
        | inl few ↦
            let no_start : refused bad_clients ≡ accepted port clients = (rw (high, few) at e) in cc
        | inr some_clients ↦ elim (Bool-cases map_exists) [
          | inr missing ↦
              let no_start : refused no_map ≡ accepted port clients =
                (rw (high, some_clients, missing) at e) in
              cc
          | inl found ↦
              let starts : accepted p c ≡ accepted port clients =
                (rw (high, some_clients, found) at e) in
              let ports : p ≡ port = cc in
              let numbers : c ≡ clients = cc in
              (
                ap some ports,
                ap some numbers,
                ap (λ k. ltb_ℤ k (pos 1024)) (sym ports) ∙ high,
                ap (λ k. leb_ℤ k (pos 0)) (sym numbers) ∙ some_clients,
                found,
              )
        ]
      ]
    ]

-- The third argument more or fewer is refused.
check_arguments-accepted :
    (argv : List Chars) (map_exists : Bool) (port clients : ℤ)
    → check_arguments argv map_exists ≡ accepted port clients
    → (ltb_ℤ port (pos 1024) ≡ false) × (leb_ℤ clients (pos 0) ≡ false)
unfolding check_arguments
check_arguments-accepted [] map_exists port clients e = absurd (cc)
check_arguments-accepted (a ∷ []) map_exists port clients e = absurd (cc)
check_arguments-accepted (a ∷ b ∷ []) map_exists port clients e = absurd (cc)
check_arguments-accepted (a ∷ b ∷ c ∷ []) map_exists port clients e =
    let facts = check_numbers-accepted (atoi b) (atoi c) map_exists port clients e in
    (facts.2, facts.3)
check_arguments-accepted (a ∷ b ∷ c ∷ d ∷ more) map_exists port clients e = absurd (cc)

some_positive : (c : ℤ) → leb_ℤ c (pos 0) ≡ false → ltb_ℤ (pos 0) c ≡ true
some_positive (pos n) e = ground arith
some_positive (negsuc n) e = cc

in_range :
    (port : ℤ)
    → ltb_ℤ port (pos 1024) ≡ false
    → leb_ℤ port (pos 65535) ≡ true
    → (ltb_ℤ port min_port || ltb_ℤ max_port port) ≡ false
in_range (pos n) low high = ground arith
in_range (negsuc n) low high = cc

not_top : (port : ℤ) → leb_ℤ port (pos 65535) ≡ true → port ≢ pos 65536
not_top port high e = let top : leb_ℤ (pos 65536) (pos 65535) ≡ true = (rw e at high) in cc

-- If `main` accepts its arguments and the port is at most 65535, the connection manager starts
-- with arrays of a positive size, `tcp_passive_open` does not return TCP_ADDRESS_ERROR for the
-- port, and it calls `bind` for the port that was given, once, if `malloc` succeeds and `socket`
-- returns a valid descriptor, and not at all otherwise.
pub check_arguments-opening :
    {V : Type 0} (argv : List Chars) (map_exists : Bool) (port clients : ℤ) (r : OpenResults)
    → check_arguments argv map_exists ≡ accepted port clients
    → leb_ℤ port (pos 65535) ≡ true
    → Reachable {V = V} clients port
        (record { phase = opening; server = none; threads = []; inserted = [] })
      × ((tcp_passive_open r port).status ≢ address_error)
      × (p : ℕ) × (port ≡ pos p)
      × (binds (tcp_passive_open r port).calls
          ≡ (if r.allocated && not (failed r.socket_result) then (r.socket_result, p) ∷ [] else []))
check_arguments-opening argv map_exists port clients r accepts high =
    let (low, clients_ok) = check_arguments-accepted argv map_exists port clients accepts in
    let opens = tcp_passive_open-in_range r port (in_range port low high) in
    let (p, asked, bound) = tcp_passive_open-bound_port r port opens in
    (
      initial (some_positive clients clients_ok),
      opens,
      p,
      (elim asked [ inl same ↦ same | inr (top, _) ↦ absurd (not_top port high top) ]),
      bound,
    )

-- ===== src/SensorNode/Sending.antt =====
-- sensor_node.c: what the node sends, and what the gateway (connmgr.c) makes of it.
use osc_final_lab.Common.{
  ℕ, zero, suc, ◌≤◌, ◌<◌, ◌≡◌, ◌≢◌, refl, ap, ◌∙◌, true, some, Option, List, [], ◌∷◌, length, ℤ,
  pos, arith, Bool-cases, inl, inr,
}
use osc_final_lab.Config.{SensorData}
use osc_final_lab.CString.{exit_success, exit_failure, Chars, atoi, to_u16, first_chars}
use osc_final_lab.Tcpsock.Connecting.{ConnectResults, tcp_active_open}
use osc_final_lab.Tcpsock.Connecting.Connected.{tcp_active_open-Settled, bound-Answers}
use osc_final_lab.Tcpsock.Opening.{tcp_close-some}
use osc_final_lab.Tcpsock.Receiving.{tcp_send-pos}
use osc_final_lab.Tcpsock.{no_error, magic_cookie, Tcpsock, Transfer, tcp_send}
use osc_final_lab.Connmgr.Stream.{round_of, rounds_of, delivered, handle_client-rounds_of}
use osc_final_lab.Connmgr.{Round, handle_client}
use osc_final_lab.SensorNode.{
  Payload, sensor_id, temperature, timestamp, size_of, NodeRound, NodeRun, succeeded, loops_of,
  update, send_then, node_loop, sensor_node,
}

module _ {V : Type 0} where
  -- the three payloads of each reading
  abbrev pub payloads_of : List (SensorData V) → List (Payload V)
  payloads_of [] = []
  payloads_of (x ∷ xs) = sensor_id x.id ∷ temperature x.value ∷ timestamp x.ts ∷ payloads_of xs

  -- The receive calls of the gateway when payloads arrive whole, three in each round.
  abbrev pub deliver : List (Payload V) → List (Round V) → List (Round V)
  deliver (sensor_id n ∷ temperature v ∷ timestamp t ∷ payloads) rounds =
      record {
        id_call = delivered (pos 2) n;
        value_call = delivered (pos 8) v;
        ts_call = delivered (pos 8) t;
      }
      ∷ deliver payloads rounds
  deliver payloads rounds = rounds

  deliver-payloads_of :
      (xs : List (SensorData V)) (rounds : List (Round V))
      → deliver (payloads_of xs) rounds ≡ rounds_of xs rounds
  deliver-payloads_of [] rounds = refl
  deliver-payloads_of (x ∷ xs) rounds = ap (round_of x ∷◌) (deliver-payloads_of xs rounds)

-- Each `sendto` sends all bytes.
abbrev pub AllSent : {D : Type 0} → List (NodeRound D) → Type 0
AllSent [] = Unit {0}
AllSent (r ∷ rounds) =
    ((r.id_transfer.count ≡ pos 2)
      × (r.value_transfer.count ≡ pos 8)
      × (r.ts_transfer.count ≡ pos 8))
    × AllSent rounds

module _ {V D : Type 0} (drift : D → V → V) where
  -- the readings of the first `n` rounds
  abbrev pub measured : ℕ → (id : ℕ) → V → List (NodeRound D) → List (SensorData V)
  measured zero id value rounds = []
  measured (suc n) id value [] = []
  measured (suc n) id value (r ∷ rounds) =
      record { id = id; value = drift r.draw value; ts = r.now }
      ∷ measured n id (drift r.draw value) rounds

  -- One round in which all is sent.
  node_loop-suc :
      (loops : ℕ) (s : Tcpsock) (shutdown_result : ℤ) (id : ℕ) (value : V) (i : ℕ) (r : NodeRound D)
      (rounds : List (NodeRound D))
      → s.cookie ≡ magic_cookie
      → (r.id_transfer.count ≡ pos 2)
        × (r.value_transfer.count ≡ pos 8)
        × (r.ts_transfer.count ≡ pos 8)
      → let rest =
          node_loop drift loops
            (some s)
            shutdown_result
            id
            (drift r.draw value)
            (update loops (suc i))
            rounds in
        node_loop drift loops (some s) shutdown_result id value (suc i) (r ∷ rounds) ≡ record rest {
          sent = sensor_id id ∷ temperature (drift r.draw value) ∷ timestamp r.now ∷ rest.sent;
        }
  unfolding node_loop
  node_loop-suc loops s shutdown_result id value i r rounds bound (two, eight, eight') =
      rw
        (
          tcp_send-pos s (pos 2) r.id_transfer 1 bound two,
          tcp_send-pos s (pos 8) r.value_transfer 7 bound eight,
          tcp_send-pos s (pos 8) r.ts_transfer 7 bound eight',
        )
        refl

  node_loop-zero :
      (loops : ℕ) (s : Tcpsock) (shutdown_result : ℤ) (id : ℕ) (value : V)
      (rounds : List (NodeRound D))
      → node_loop drift loops (some s) shutdown_result id value zero rounds
        ≡ record { sent = []; exit = some exit_success }
  unfolding node_loop
  node_loop-zero loops s shutdown_result id value rounds =
      rw (tcp_close-some s shutdown_result) refl

  -- If everything is sent, the loop sends the readings of its rounds and ends well.
  pub node_loop-measured :
      (loops : ℕ) (s : Tcpsock) (shutdown_result : ℤ) (id : ℕ) (value : V) (i : ℕ)
      (rounds : List (NodeRound D))
      → 1 < loops
      → s.cookie ≡ magic_cookie
      → i ≤ length rounds
      → AllSent rounds
      → node_loop drift loops (some s) shutdown_result id value i rounds
        ≡ record { sent = payloads_of (measured i id value rounds); exit = some exit_success }
  node_loop-measured loops s shutdown_result id value zero rounds many bound le all =
      node_loop-zero loops s shutdown_result id value rounds
  node_loop-measured loops s shutdown_result id value (suc i) [] many bound le all =
      absurd (omega arith)
  node_loop-measured loops s shutdown_result id value (suc i) (r ∷ rounds) many bound le
        (whole, all) =
      let later =
        node_loop-measured loops s shutdown_result id (drift r.draw value) i rounds many bound
          (omega arith) all in
      let counts : update loops (suc i) ≡ i = ground arith in
      node_loop-suc loops s shutdown_result id value i r rounds bound whole
      ∙ rw counts (rw later refl)

  -- If LOOPS is more than 1, the socket is bound and each `sendto` sends all bytes, then after
  -- `i` rounds of the node's loop, `handle_client` on what was sent, arriving whole and followed
  -- by a receive call for an id that does not succeed, inserts the readings of these rounds, in
  -- their order, and returns.
  pub handle_client-node_loop :
      (loops : ℕ) (s : Tcpsock) (shutdown_result : ℤ) (id : ℕ) (value : V) (i : ℕ)
      (rounds : List (NodeRound D)) (garbage : SensorData V) (last : Round V)
      (more : List (Round V))
      → 1 < loops
      → s.cookie ≡ magic_cookie
      → i ≤ length rounds
      → AllSent rounds
      → last.id_call.status ≢ no_error
      → let run = node_loop drift loops (some s) shutdown_result id value i rounds in
        let client = handle_client true garbage (deliver run.sent (last ∷ more)) in
        (client.inserted ≡ measured i id value rounds) × (client.returned ≡ true)
  handle_client-node_loop loops s shutdown_result id value i rounds garbage last more many bound le
        all ends =
      rw
        (
          node_loop-measured loops s shutdown_result id value i rounds many bound le all,
          deliver-payloads_of (measured i id value rounds) (last ∷ more),
        )
        (handle_client-rounds_of true garbage (measured i id value rounds) last more ends)

  -- If LOOPS is more than 1, the three numbers among the four arguments can be read, the
  -- connection is opened and each `sendto` sends all bytes, then the node sends the id, modulo 2
  -- ^ 16, the temperature and the time of LOOPS readings, in this order, and exits with
  -- EXIT_SUCCESS.
  pub sensor_node-measured :
      (connects : ConnectResults) (loops : ℕ) (initial : V) (shutdown_result : ℤ)
      (rounds : List (NodeRound D)) (name id sleep_time server_ip server_port : Chars)
      (n t port : ℤ)
      → 1 < loops
      → loops ≤ length rounds
      → AllSent rounds
      → atoi id ≡ some n
      → atoi sleep_time ≡ some t
      → atoi server_port ≡ some port
      → (tcp_active_open connects port (some (first_chars 15 server_ip))).status ≡ no_error
      → sensor_node drift connects loops initial shutdown_result rounds
          (name ∷ id ∷ sleep_time ∷ server_ip ∷ server_port ∷ [])
        ≡ some (record {
          sent = payloads_of (measured loops (to_u16 n) initial rounds);
          exit = some exit_success;
        })
  unfolding sensor_node
  sensor_node-measured connects loops initial shutdown_result rounds name id sleep_time server_ip
        server_port n t port many le all reads_id reads_time reads_port opens =
      elim (tcp_active_open-Settled connects port (some (first_chars 15 server_ip))) [
        | inr (fails, _) ↦ absurd (fails opens)
        | inl (_, answers) ↦
            let opened = tcp_active_open connects port (some (first_chars 15 server_ip)) in
            let (s, is, bound) =
              bound-Answers opened.socket connects.socket_result connects.local_addr
                connects.local_port answers in
            let counts : loops_of loops ≡ loops = ground arith in
            rw (reads_id, reads_time, reads_port, opens, is, counts)
              (ap some (
                node_loop-measured loops s shutdown_result (to_u16 n) initial loops rounds many
                  bound le all))
      ]

  send_then-exit :
      (client : Option Tcpsock) (payload : Payload V) (t : Transfer) (rest : NodeRun V)
      → rest.exit ≢ some exit_success
      → (send_then drift client payload t rest).exit ≢ some exit_success
  unfolding send_then
  send_then-exit client payload t rest goes_on e =
      elim (Bool-cases (succeeded (tcp_send client true true (size_of payload) t))) [
        | inl sends ↦ goes_on (rw sends at e)
        | inr fails ↦ let no : some exit_failure ≡ some exit_success = (rw fails at e) in cc
      ]

  -- If LOOPS is at most 1, the loop of the node never ends well: however many rounds there are,
  -- it still waits for the next one or has exited with EXIT_FAILURE.
  pub node_loop-endless :
      (loops : ℕ) (client : Option Tcpsock) (shutdown_result : ℤ) (id : ℕ) (i : ℕ) (value : V)
      (rounds : List (NodeRound D))
      → loops ≤ 1
      → (node_loop drift loops client shutdown_result id value (suc i) rounds).exit
        ≢ some exit_success
  unfolding node_loop
  node_loop-endless loops client shutdown_result id i value [] few = λ e. cc
  node_loop-endless loops client shutdown_result id i value (r ∷ rounds) few =
      let value' = drift r.draw value in
      let same : update loops (suc i) ≡ suc i = ground arith in
      let later : (node_loop drift loops client shutdown_result id value' (update loops (suc i))
            rounds).exit
          ≢ some exit_success =
        rw same (node_loop-endless loops client shutdown_result id i value' rounds few) in
      send_then-exit client (sensor_id id) r.id_transfer _ (
        send_then-exit client (temperature value') r.value_transfer _
          (send_then-exit client (timestamp r.now) r.ts_transfer _ later))

-- ===== src/Connmgr/Stream.antt =====
-- connmgr.c: what one client's stream of bytes becomes.
use osc_final_lab.Common.{
  ◌≡◌, ◌≢◌, refl, ap, Bool, true, false, none, some, List, [], ◌∷◌, ℕ, ℤ, pos,
}
use osc_final_lab.Config.{SensorData}
use osc_final_lab.Tcpsock.{
  TcpStatus, no_error, socket_error, address_error, sockop_error, connection_closed, memory_error,
  timeout_error,
}
use osc_final_lab.Connmgr.{
  Reception, Round, ClientMessage, received, farewell, timed_out, closed, erroneous, handle_client,
}

-- A receive call that delivers all bytes of `a`.
abbrev pub delivered : {A : Type 0} → ℤ → A → Reception A
delivered size a = record { status = no_error; bytes = size; content = some a }

farewell-some :
    (e : TcpStatus) (id : ℕ)
    → e ≢ no_error
    → (message : ClientMessage) × (farewell e id ≡ some message)
farewell-some no_error id ne = absurd (ne refl)
farewell-some socket_error id ne = (erroneous id, refl)
farewell-some address_error id ne = (erroneous id, refl)
farewell-some sockop_error id ne = (erroneous id, refl)
farewell-some connection_closed id ne = (closed id, refl)
farewell-some memory_error id ne = (erroneous id, refl)
farewell-some timeout_error id ne = (timed_out id, refl)

module _ {V : Type 0} where
  -- The round in which a reading arrives whole: 2 bytes, then 8, then 8.
  abbrev pub round_of : SensorData V → Round V
  round_of x = record {
    id_call = delivered (pos 2) x.id;
    value_call = delivered (pos 8) x.value;
    ts_call = delivered (pos 8) x.ts;
  }

  abbrev pub rounds_of : List (SensorData V) → List (Round V) → List (Round V)
  rounds_of [] rounds = rounds
  rounds_of (x ∷ xs) rounds = round_of x ∷ rounds_of xs rounds

  -- If readings arrive whole, one round each, and the first receive call of the next round does
  -- not succeed, then `handle_client` inserts exactly these readings, in their order, and
  -- returns, whatever would come after.
  pub handle_client-rounds_of :
      (first : Bool) (d : SensorData V) (xs : List (SensorData V)) (last : Round V)
      (rounds : List (Round V))
      → last.id_call.status ≢ no_error
      → ((handle_client first d (rounds_of xs (last ∷ rounds))).inserted ≡ xs)
        × ((handle_client first d (rounds_of xs (last ∷ rounds))).returned ≡ true)
  unfolding handle_client
  handle_client-rounds_of first d [] last rounds ends =
      let (message, says) =
        farewell-some last.id_call.status (received d.id last.id_call.content) ends in
      rw (says, handle_client) (refl, refl)
  handle_client-rounds_of first d (x ∷ xs) last rounds ends =
      let (all, back) = handle_client-rounds_of false x xs last rounds ends in (ap (x ∷◌) all, back)

  -- If the receive call for the value writes nothing, whatever its status, and the one for the
  -- timestamp succeeds, the reading is inserted with the value of the round before.
  pub handle_client-stale :
      (first : Bool) (d x : SensorData V) (value_status : TcpStatus) (rounds : List (Round V))
      → (handle_client first d (
          record (round_of x) {
            value_call = record { status = value_status; bytes = pos 0; content = none };
          }
          ∷ rounds)).inserted
        ≡ record x { value = d.value }
          ∷ (handle_client false (record x { value = d.value }) rounds).inserted
  unfolding handle_client
  handle_client-stale first d x value_status rounds = refl

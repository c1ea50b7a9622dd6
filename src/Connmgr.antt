-- ===== src/Connmgr.antt =====
-- connmgr.c: the thread of one client. What its receive calls return is a parameter, round by round.
pub mod Stream
pub mod Interleaving
pub mod Manager
mod Tests
use osc_final_lab.Common.{
  Bool, true, false, not, Option, none, some, List, [], ◌∷◌, ◌++◌, if◌then◌else◌, ℕ, ℤ, pos, eqb_ℤ,
}
use osc_final_lab.Config.{SensorData}
use osc_final_lab.Tcpsock.{
  TcpStatus, is_no_error, no_error, socket_error, address_error, sockop_error, connection_closed,
  memory_error, timeout_error,
}

-- One receive call: its status, what it leaves in `bytes`, and what it wrote to the buffer, if it did.
pub record Reception (A : Type 0) : Type 0 where
  pub status : TcpStatus
  pub bytes : ℤ
  pub content : Option A

-- The three receive calls of one round of the loop.
pub record Round (V : Type 0) : Type 0 where
  pub id_call : Reception ℕ
  pub value_call : Reception V
  pub ts_call : Reception ℤ

pub data ClientMessage : Type 0 where
  opened : (id : ℕ) → ClientMessage
  timed_out : (id : ℕ) → ClientMessage
  closed : (id : ℕ) → ClientMessage
  erroneous : (id : ℕ) → ClientMessage

-- What a client's thread does: the readings that it inserts, its messages, and whether it has closed
-- the connection and returned.
pub record ClientRun (V : Type 0) : Type 0 where
  pub inserted : List (SensorData V)
  pub log : List ClientMessage
  pub returned : Bool

-- The variable after a receive call into it.
abbrev pub received : {A : Type 0} → A → Option A → A
received old none = old
received old (some a) = a

-- The three tests after the first receive call: the message with which the thread returns, if it does.
abbrev pub farewell : TcpStatus → ℕ → Option ClientMessage
farewell no_error id = none
farewell timeout_error id = some (timed_out id)
farewell connection_closed id = some (closed id)
farewell socket_error id = some (erroneous id)
farewell address_error id = some (erroneous id)
farewell sockop_error id = some (erroneous id)
farewell memory_error id = some (erroneous id)

module _ {V : Type 0} where
  abbrev pub before : List (SensorData V) → List ClientMessage → ClientRun V → ClientRun V
  before xs log run = record {
    inserted = xs ++ run.inserted;
    log = log ++ run.log;
    returned = run.returned;
  }

  -- The variable `data` after a round whose first call succeeded.
  abbrev pub filled : SensorData V → Round V → SensorData V
  filled d r = record {
    id = received d.id r.id_call.content;
    value = received d.value r.value_call.content;
    ts = received d.ts r.ts_call.content;
  }

  -- The loop of `handle_client` with its variables `first_connection` and `data`. With no round left it
  -- waits in a receive call.
  pub handle_client : (first_connection : Bool) → SensorData V → List (Round V) → ClientRun V
  handle_client first_connection d [] = record { inserted = []; log = []; returned = false }
  handle_client first_connection d (r ∷ rounds) =
      let id = received d.id r.id_call.content in
      let log = if first_connection then opened id ∷ [] else [] in
      let d' = filled d r in
      let rest = handle_client false d' rounds in
      elim (farewell r.id_call.status id) [
        | some message ↦
            before [] log (record { inserted = []; log = message ∷ []; returned = true })
        | none ↦
            before
              (if is_no_error r.ts_call.status
                then (if eqb_ℤ r.ts_call.bytes (pos 0) then [] else d' ∷ [])
                else [])
              log
              (if is_no_error r.ts_call.status
                then rest
                else record { inserted = []; log = []; returned = true })
      ]

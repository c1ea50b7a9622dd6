-- ===== src/Connmgr/Tests.antt =====
-- connmgr.c: runs at concrete inputs.
use osc_final_lab.Common.{◌≡◌, true, false, none, [], ◌∷◌, ℕ, pos}
use osc_final_lab.Config.{SensorData}
use osc_final_lab.Tcpsock.{connection_closed, sockop_error}
use osc_final_lab.Connmgr.Stream.{round_of, rounds_of, handle_client-rounds_of, handle_client-stale}
use osc_final_lab.Connmgr.{Round, handle_client}

abbrev reading : ℕ → SensorData ℕ
reading v = record { id = 15; value = v; ts = pos 1000 }

-- The client has closed the connection.
abbrev hung_up : Round ℕ
hung_up = record {
  id_call = record { status = connection_closed; bytes = pos 0; content = none };
  value_call = record { status = connection_closed; bytes = pos 0; content = none };
  ts_call = record { status = connection_closed; bytes = pos 0; content = none };
}

-- Two readings arrive before the node hangs up.
two_readings :
    ((handle_client true
        (reading 0)
        (rounds_of (reading 18 ∷ reading 19 ∷ []) (hung_up ∷ []))).inserted
      ≡ reading 18 ∷ reading 19 ∷ [])
    × ((handle_client true
          (reading 0)
          (rounds_of (reading 18 ∷ reading 19 ∷ []) (hung_up ∷ []))).returned
        ≡ true)
two_readings =
    handle_client-rounds_of true (reading 0) (reading 18 ∷ reading 19 ∷ []) hung_up [] (λ e. cc)

-- The value of the second reading did not arrive, and the first one's is inserted again.
stale_value :
    (handle_client false (reading 18) (
      record (round_of (reading 19)) {
        value_call = record { status = sockop_error; bytes = pos 0; content = none };
      }
      ∷ [])).inserted
    ≡ reading 18 ∷ (handle_client false (reading 18) []).inserted
stale_value = handle_client-stale false (reading 18) (reading 19) sockop_error []

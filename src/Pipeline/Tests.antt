-- ===== src/Pipeline/Tests.antt =====
-- The whole gateway: one reading from a sensor node to the storage manager.
use osc_final_lab.Common.{
  ◌≡◌, ℕ, ◌+◌, ◌/◌, ltb, ℤ, List, some, none, inr, if◌then◌else◌, ◌∙◌, sym, arith, ◌≢◌, refl, [],
  ◌∷◌, pos,
}
use osc_final_lab.Sbuffer.System.Samples.{reading, ended as stored}
use osc_final_lab.Connmgr.Interleaving.{Interleaving}
use osc_final_lab.Connmgr.Manager.Samples.{at_end, finished, closed_round}
use osc_final_lab.Tcpsock.{connection_closed, no_error}
use osc_final_lab.Datamgr.{Values, insert_mappings, peek_loop}
use osc_final_lab.Datamgr.Window.{window}
use osc_final_lab.Datamgr.Mappings.{listed}
use osc_final_lab.Datamgr.Readings.{readings_of, of_sensor, peeked}
use osc_final_lab.Sbuffer.{Status, success, no_data}
use osc_final_lab.Pipeline.Sensors.{sent_by}
use osc_final_lab.Pipeline.Sent.{saved-sent_by, peek_loop-sent_by}
use osc_final_lab.Pipeline.{Arrives, no_clients, client, saved-Interleaving}

not_received : connection_closed ≢ no_error
not_received = λ e. cc

arrives : Arrives ((reading 15 ∷ []) ∷ []) at_end.0.threads
arrives =
    rw at_end.4 (client (reading 15 ∷ []) finished closed_round [] refl not_received no_clients)

saved-Interleaving_example : Interleaving ((reading 15 ∷ []) ∷ []) stored.0.saved
saved-Interleaving_example =
    saved-Interleaving 1 (pos 1) (pos 1234) stored.1 at_end.1 at_end.2 (stored.3 ∙ sym at_end.3)
      stored.2 arrives ((λ e. omega arith, tt), tt)

saved-sent_by_example : of_sensor 15 stored.0.saved ≡ sent_by 15 ((reading 15 ∷ []) ∷ [])
saved-sent_by_example =
    saved-sent_by 1 (pos 1) (pos 1234) stored.1 at_end.1 at_end.2 (stored.3 ∙ sym at_end.3) stored.2
      arrives ((λ e. omega arith, tt), tt) 15 (inr tt)

-- Whole degrees, with the limits of config.h.
abbrev degrees : Values ℕ
degrees = record {
  zero_value = 0;
  add = λ a b. a + b;
  divide = λ a. a / 5;
  is_too_hot = λ a. ltb 20 a;
  is_too_cold = λ a. ltb a 10;
}

-- Sensor 15 is in room 1.
abbrev lines : List (ℕ × ℕ × ℤ)
lines = (1, 15, pos 900) ∷ []

abbrev results : List (ℤ × Status ℕ)
results = (pos 1001, success (reading 15)) ∷ (pos 1002, no_data) ∷ []

peek_loop-sent_by_example :
    readings_of 15 (peek_loop degrees results (insert_mappings (some lines) []).0).0
    ≡ (if listed 15 lines then some (window (sent_by 15 ((reading 15 ∷ []) ∷ []))) else none)
unfolding peeked
peek_loop-sent_by_example =
    peek_loop-sent_by 1 (pos 1) (pos 1234) stored.1 at_end.1 at_end.2 (stored.3 ∙ sym at_end.3)
      stored.2 arrives ((λ e. omega arith, tt), tt) 15 (inr tt) degrees lines results (sym stored.4)

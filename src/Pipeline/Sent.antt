-- ===== src/Pipeline/Sent.antt =====
-- The whole gateway: what becomes of the readings that one sensor node sends.
use osc_final_lab.Common.{ℕ, ◌≡◌, ap, ◌∙◌, none, some, List, [], ◌++◌, if◌then◌else◌, ℤ}
use osc_final_lab.Config.{SensorData}
use osc_final_lab.Sbuffer.Memory.{Ptr}
use osc_final_lab.Sbuffer.System.Order.{seen_all}
use osc_final_lab.Sbuffer.System.Invariant.{pending}
use osc_final_lab.Sbuffer.System
use osc_final_lab.Sbuffer.{Status, returned, no_data}
use osc_final_lab.Connmgr.Manager.{Manager, ended, Reachable}
use osc_final_lab.Datamgr.Window.{window}
use osc_final_lab.Datamgr.Readings.{readings_of, of_sensor, peeked}
use osc_final_lab.Datamgr.Mappings.{listed, peek_loop-insert_mappings}
use osc_final_lab.Datamgr.{Values, insert_mappings, peek_loop}
use osc_final_lab.Pipeline.Sensors.{Single, sent_by, of_sensor-Interleaving}
use osc_final_lab.Pipeline.{SomeIds, Arrives, saved-Interleaving}

module _ {V : Type 0} (buffer : Ptr) (max_con port : ℤ) {s : System.System V} {m : Manager V}
    {sent : List (List (SensorData V))} (stored : System.Reachable buffer s)
    (managed : Reachable max_con port m) (at : m.phase ≡ ended) (shared : s.inserted ≡ m.inserted)
    (done : s.remover ≡ returned no_data) (arrives : Arrives sent m.threads) (ids : SomeIds sent)
    (j : ℕ) (single : Single j sent) where
  -- Under the conditions of `saved-Interleaving`, if at most one client sends readings with the
  -- id `j`, then the readings with this id that the storage manager has taken are exactly those,
  -- in the order in which they were sent.
  pub saved-sent_by : of_sensor j s.saved ≡ sent_by j sent
  saved-sent_by =
      of_sensor-Interleaving j
        (saved-Interleaving buffer max_con port stored managed at shared done arrives ids) single

  -- Under the conditions of `saved-Interleaving`, if at most one client sends readings with the
  -- id `j`, and `sbuffer_peek` has given the loop of `datamgr_init` all that it has returned,
  -- then what the data manager keeps of sensor `j` are the last five readings that were sent with
  -- this id, if the map file names the sensor, and nothing otherwise.
  pub peek_loop-sent_by :
      (values : Values V) (lines : List (ℕ × ℕ × ℤ)) (results : List (ℤ × Status V))
      → peeked results ≡ s.seen ++ pending s.peeker
      → readings_of j (peek_loop values results (insert_mappings (some lines) []).0).0
        ≡ (if listed j lines then some (window (sent_by j sent)) else none)
  peek_loop-sent_by values lines results given =
      let all : of_sensor j (peeked results) ≡ sent_by j sent =
        ap (of_sensor j) (given ∙ seen_all buffer stored done) ∙ saved-sent_by in
      peek_loop-insert_mappings values j lines results
      ∙ ap (λ xs. if listed j lines then some (window xs) else none) all

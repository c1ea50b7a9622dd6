-- ===== src/Connmgr/Manager/Tests.antt =====
-- connmgr.c: the theorems on the connection manager at concrete inputs.
use osc_final_lab.Common.{ℕ, ◌≡◌, true, List, [], ◌∷◌, ◌++◌, pos, length, ltb_ℤ}
use osc_final_lab.Config.{SensorData}
use osc_final_lab.Connmgr.Interleaving.{Interleaving}
use osc_final_lab.Connmgr.Manager.Samples.{before_accept, at_end}
use osc_final_lab.Connmgr.Manager.Ended.{insertions, Reachable-insertions, Reachable-accepting}

Reachable-insertions_example :
    (readings : List (SensorData ℕ)) × (mark : SensorData ℕ) × (mark.id ≡ 0)
    × (at_end.0.inserted ≡ readings ++ mark ∷ [])
    × Interleaving (insertions at_end.0.threads) readings
    × (pos (length at_end.0.threads) ≡ pos 1)
Reachable-insertions_example = Reachable-insertions at_end.1 at_end.2

Reachable-accepting_example : (length before_accept.0.threads ≡ 0) × (ltb_ℤ (pos 0) (pos 1) ≡ true)
Reachable-accepting_example = Reachable-accepting 0 before_accept.1 before_accept.2

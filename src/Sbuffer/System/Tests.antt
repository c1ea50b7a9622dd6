-- ===== src/Sbuffer/System/Tests.antt =====
-- sbuffer.c with its threads: runs at concrete inputs.
use osc_final_lab.Common.{
  inl, ℕ, ◌≡◌, ◌≢◌, ◌≤◌, ◌↔◌, refl, List, ◌∷◌, ◌++◌, length, arith, ok, fault,
}
use osc_final_lab.Config.{SensorData}
use osc_final_lab.Sbuffer.System.Samples.{reading, nothing, ended}
use osc_final_lab.Sbuffer.Memory.{Mem, load_node, load_buffer, store_node, store_buffer, free_node}
use osc_final_lab.Sbuffer.System.Invariant.{SomeId, pending}
use osc_final_lab.Sbuffer.System.Order.{saved-IsPrefix, seen-first, saved_all}
use osc_final_lab.Sbuffer.System.Progress.{Waits, waits-all_saved}
use osc_final_lab.Sbuffer.System.Faults.{sbuffer_remove-runs, sbuffer_peek-fault}
use osc_final_lab.Sbuffer.System.{
  System, inserts, removes, peeks, saves, sees, Reachable, initial, later,
}
use osc_final_lab.Sbuffer.{
  Stand, wait_filled, wait_turn, returned, success, sbuffer_init, sbuffer_insert, sbuffer_remove,
  sbuffer_peek, remove_check, remove_take, peek_check, peek_take,
}

-- One reading is inserted and processed, the data manager waits for the next one, and the storage
-- manager has stored it and called again.
abbrev drained :
    (s : System ℕ) × Reachable 1 s
    × (s.peeker ≡ wait_turn)
    × (s.inserted ≡ s.saved ++ pending s.remover)
    × (s.mem.condition ≢ 2)
unfolding sbuffer_init sbuffer_insert sbuffer_remove sbuffer_peek remove_check remove_take
    peek_check peek_take load_node load_buffer store_node store_buffer free_node
drained =
    let a = initial nothing _ refl in
    let b = later a (inserts 10 (reading 15) _ (omega arith) refl refl) in
    let c = later b (peeks (returned (success (reading 15))) _ refl) in
    let d = later c (sees (reading 15) refl) in
    let e = later d (peeks wait_turn _ refl) in
    let f = later e (removes (returned (success (reading 15))) _ refl) in
    let g = later f (saves (reading 15) refl) in
    let h = later g (removes wait_filled _ refl) in (_, h, refl, refl, omega arith)

saved-IsPrefix_example : (rest : List (SensorData ℕ)) × (ended.0.inserted ≡ ended.0.saved ++ rest)
saved-IsPrefix_example = saved-IsPrefix 1 ended.1

seen-first_example :
    (front : List (SensorData ℕ)) × (length front ≤ 1)
    × (drained.0.seen ++ pending drained.0.peeker
        ≡ (drained.0.saved ++ pending drained.0.remover) ++ front)
seen-first_example = seen-first 1 drained.1

saved_all_example :
    (x : SensorData ℕ) × (rest : List (SensorData ℕ)) × (x.id ≡ 0)
    × SomeId ended.0.saved
    × (ended.0.inserted ≡ ended.0.saved ++ x ∷ rest)
saved_all_example = saved_all 1 ended.1 ended.2

sbuffer_remove-runs_example :
    (t : Stand ℕ) × (g : Mem ℕ) × (sbuffer_remove 1 drained.0.remover drained.0.mem ≡ ok t g)
sbuffer_remove-runs_example = sbuffer_remove-runs 1 drained.1

sbuffer_peek-fault_example : (sbuffer_peek 1 drained.0.peeker drained.0.mem ≡ fault) ↔ (
    (drained.0.peeker ≡ wait_turn)
    × (drained.0.inserted ≡ drained.0.saved ++ pending drained.0.remover)
    × (drained.0.mem.condition ≢ 2))
sbuffer_peek-fault_example = sbuffer_peek-fault 1 drained.1

-- The data manager wakes without a signal and reads through NULL.
spurious_wakeup : sbuffer_peek 1 drained.0.peeker drained.0.mem ≡ fault
spurious_wakeup = (sbuffer_peek-fault 1 drained.1).1 (drained.2, drained.3, drained.4)

-- Nothing was inserted, and both threads wait.
abbrev idle :
    (s : System ℕ) × Reachable 1 s
    × Waits 1 s.remover s.mem.condition
    × Waits 2 s.peeker s.mem.condition
unfolding sbuffer_init sbuffer_remove sbuffer_peek load_node load_buffer store_buffer
idle =
    let a = initial nothing _ refl in
    let b = later a (removes wait_filled _ refl) in
    let c = later b (peeks wait_filled _ refl) in (_, c, inl (refl, refl), inl (refl, refl))

waits-all_saved_example : idle.0.inserted ≡ idle.0.saved
waits-all_saved_example = waits-all_saved 1 idle.1 idle.2 idle.3

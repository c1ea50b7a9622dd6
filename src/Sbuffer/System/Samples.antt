-- ===== src/Sbuffer/System/Samples.antt =====
-- sbuffer.c with its threads: a run to the end of the stream.
use osc_final_lab.Common.{◌∷◌, ◌++◌, [], ℕ, ◌≡◌, refl, none, arith, pos}
use osc_final_lab.Config.{SensorData}
use osc_final_lab.Sbuffer.Memory.{Mem, load_node, load_buffer, store_node, store_buffer, free_node}
use osc_final_lab.Sbuffer.System.Invariant.{pending}
use osc_final_lab.Sbuffer.System.{System, inserts, removes, peeks, saves, Reachable, initial, later}
use osc_final_lab.Sbuffer.{
  ending, returned, success, no_data, sbuffer_init, sbuffer_insert, sbuffer_remove, sbuffer_peek,
  remove_check, remove_take, peek_check, peek_take,
}

abbrev pub reading : ℕ → SensorData ℕ
reading i = record { id = i; value = 20; ts = pos 1000 }

abbrev pub nothing : Mem ℕ
nothing = record { nodes = λ a. none; buffers = λ a. none; condition = 0 }

-- A reading and the end of the stream are inserted. The storage manager has stored the reading and
-- is told of the end.
abbrev pub ended :
    (s : System ℕ) × Reachable 1 s
    × (s.remover ≡ returned no_data)
    × (s.inserted ≡ reading 15 ∷ reading 0 ∷ [])
    × (s.seen ++ pending s.peeker ≡ reading 15 ∷ [])
unfolding sbuffer_init sbuffer_insert sbuffer_remove sbuffer_peek remove_check remove_take
    peek_check peek_take load_node load_buffer store_node store_buffer free_node
ended =
    let a = initial nothing _ refl in
    let b = later a (inserts 10 (reading 15) _ (omega arith) refl refl) in
    let c = later b (peeks (returned (success (reading 15))) _ refl) in
    let d = later c (inserts 20 (reading 0) _ (omega arith) refl refl) in
    let e = later d (removes (returned (success (reading 15))) _ refl) in
    let f = later e (saves (reading 15) refl) in
    let g = later f (removes (ending 1) _ refl) in
    let h = later g (removes (returned no_data) _ refl) in (_, h, refl, refl, refl)

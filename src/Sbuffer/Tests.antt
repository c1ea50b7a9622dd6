-- ===== src/Sbuffer/Tests.antt =====
-- sbuffer.c: runs at concrete inputs.
use osc_final_lab.Common.{
  ℕ, refl, true, false, Option, none, some, [], ◌∷◌, arith, pos, Returns, ◌==◌, if◌then◌else◌,
}
use osc_final_lab.Config.{SensorData}
use osc_final_lab.Sbuffer.Memory.{Ptr, null, SbufferNode, Mem}
use osc_final_lab.Sbuffer.Queue.{Queue, queue, remove, peek}
use osc_final_lab.Sbuffer.Chain.{Represents}
use osc_final_lab.Sbuffer.Refine.{Refines}
use osc_final_lab.Sbuffer.Remove.{sbuffer_remove-Refines}
use osc_final_lab.Sbuffer.Peek.{sbuffer_peek-Refines}
use osc_final_lab.Sbuffer.Insert.{Inserted, sbuffer_insert-insert}
use osc_final_lab.Sbuffer.Free.{Freed, sbuffer_free-Freed}
use osc_final_lab.Sbuffer.{start, sbuffer_remove, sbuffer_peek, sbuffer_insert, sbuffer_free}

abbrev reading : ℕ → SensorData ℕ
reading i = record { id = i; value = 20; ts = pos 1000 }

-- A buffer at address 1 whose nodes, at 10 and 20, hold a processed and an unprocessed reading.
abbrev two_nodes : Ptr → Option (SbufferNode ℕ)
two_nodes a =
    if a == 10
    then some (record { next = 20; is_processed = true; content = reading 15 })
    else if a == 20
    then some (record { next = null; is_processed = false; content = reading 21 })
    else none

abbrev memory : Mem ℕ
memory = record {
  nodes = two_nodes;
  buffers = λ a. if a == 1 then some (record { head = 10; tail = 20 }) else none;
  condition = 2;
}

abbrev two : Queue ℕ
two = queue ((reading 15, true) ∷ (reading 21, false) ∷ []) 2

abbrev two-Represents : Represents 1 memory two
two-Represents = record {
  cells = (10, reading 15, true) ∷ (20, reading 21, false) ∷ [];
  held = record {
    not_null = omega arith;
    buffer_at = refl;
    chain = (omega arith, refl, refl, (omega arith, refl, refl, tt));
  };
  items = refl;
  condition = refl;
}

sbuffer_remove-Refines_example : Refines 1 (sbuffer_remove 1 start memory) (remove start two)
sbuffer_remove-Refines_example = sbuffer_remove-Refines 1 memory start two two-Represents

sbuffer_peek-Refines_example : Refines 1 (sbuffer_peek 1 start memory) (peek start two)
sbuffer_peek-Refines_example = sbuffer_peek-Refines 1 memory start two two-Represents

sbuffer_insert-insert_example :
    Returns (Inserted 1 (reading 37) two) (sbuffer_insert 30 1 (reading 37) memory)
sbuffer_insert-insert_example =
    sbuffer_insert-insert 1 30 (reading 37) memory two two-Represents (omega arith) refl

sbuffer_free-Freed_example :
    Returns
      (Freed 1 ((10, reading 15, true) ∷ (20, reading 21, false) ∷ []) memory)
      (sbuffer_free 3 1 memory)
sbuffer_free-Freed_example = sbuffer_free-Freed 3 1 memory two two-Represents (omega arith)

-- ===== src/Datamgr/Store/MapLines.antt =====
-- datamgr.c: `insert_mappings` and `datamgr_init` on the nodes and blocks in memory.
pub mod Adding
pub mod Added
pub mod Mapping
pub mod Starting
pub mod Missing
mod Tests
use osc_final_lab.Common.{
  pos, true, false, Option, ℕ, none, some, List, [], ◌∷◌, ◌++◌, Bool, ℤ, Cmd, ok, fault, pure,
  ◌>>=◌, ◌>>◌, ◌==◌, if◌then◌else◌,
}
use osc_final_lab.Config.{SensorData}
use osc_final_lab.Sbuffer.{success, no_data}
use osc_final_lab.Dplist.Memory.{Ptr, null, Mem, update}
use osc_final_lab.Dplist.{dpl_create, dpl_size, dpl_insert_at_index}
use osc_final_lab.Datamgr.Store.{
  MapBlock, MapStore, Machine, data_callbacks, map_callbacks, close_datamgr,
}
use osc_final_lab.Datamgr.{Values, Message, invalid_file}
use osc_final_lab.Datamgr.Store.Points.{within}
use osc_final_lab.Datamgr.Store.Rounds.{Round, peek_points, free_point}

-- What one round of the loop gets: the addresses for the list of readings and for the node, the
-- numbers of the room and the sensor, and the time.
pub record MapLine : Type 0 where
  pub fresh_list : Ptr
  pub fresh_node : Ptr
  pub room : ℕ
  pub sensor : ℕ
  pub now : ℤ

abbrev pub dummy_block : MapLine → (readings : Ptr) → MapBlock
dummy_block l readings = record {
  sensor_id = l.sensor;
  room_id = l.room;
  readings = readings;
  last_modified = l.now;
}

module _ {V : Type 0} where
  -- The writes to the local variable `dummy`, whose address is `dummy`.
  unfoldable pub put_dummy : (dummy : Ptr) → MapBlock → Cmd (Mem (MapStore V)) (Unit {0})
  put_dummy dummy b m =
      ok tt (record m { elems = record m.elems { maps = update m.elems.maps dummy (some b) } })

  -- The end of the call: `dummy` is gone.
  unfoldable pub drop_dummy : (dummy : Ptr) → Cmd (Mem (MapStore V)) (Unit {0})
  drop_dummy dummy m =
      ok tt (record m { elems = record m.elems { maps = update m.elems.maps dummy none } })

  -- `malloc(sizeof(sensor_data_t))`; what stands in the block before the first write is arbitrary
  unfoldable pub malloc_point : Ptr → SensorData V → Cmd (Mem (MapStore V)) (Unit {0})
  malloc_point p x m =
      if p == null
      then fault
      else ok tt (record m {
        elems = record m.elems {
          inner = record m.elems.inner { elems = update m.elems.inner.elems p (some x) };
        };
      })

-- The rounds of the loop for the readings that `sbuffer_peek` returns until it returns
-- SBUFFER_NO_DATA; SBUFFER_FAILURE would end the loop in the same way.
abbrev pub rounds_of : {V : Type 0} → List (Ptr × ℤ × SensorData V) → List (Round V)
rounds_of [] = (null, pos 0, no_data) ∷ []
rounds_of ((fresh, now, x) ∷ readings) = (fresh, now, success x) ∷ rounds_of readings

-- Whether the map file could be opened.
abbrev pub is_open : Option (List MapLine) → Bool
is_open none = false
is_open (some ls) = true

module _ {V : Type 0} (machine : Machine V) where
  -- The body of the `while` of `insert_mappings`.
  pub add_mapping : (dummy list : Ptr) → MapLine → Cmd (Mem (MapStore V)) Ptr
  add_mapping dummy list l = do
    readings ← within (dpl_create l.fresh_list (data_callbacks machine))
    put_dummy dummy (dummy_block l readings)
    size ← dpl_size list
    dpl_insert_at_index l.fresh_node list dummy size true

  -- The `while` of `insert_mappings`.
  pub add_mappings : (dummy list : Ptr) → List MapLine → Cmd (Mem (MapStore V)) Ptr
  add_mappings dummy list [] = pure list
  add_mappings dummy list (l ∷ ls) = do
    list' ← add_mapping dummy list l
    add_mappings dummy list' ls

  -- `insert_mappings`, with what it writes to the log process.
  pub insert_lines :
      (dummy list : Ptr) → Option (List MapLine) → Cmd (Mem (MapStore V)) (Ptr × List (Message V))
  insert_lines dummy list none = pure (list, invalid_file ∷ [])
  insert_lines dummy list (some ls) = do
    list' ← add_mappings dummy list ls
    drop_dummy dummy
    pure (list', [])

  -- `datamgr_init` up to its call of `fclose`, on the map file if it can be opened, and on the
  -- readings that `sbuffer_peek` returns, with the address for a new node and the time of each:
  -- the list and what it writes to the log process.
  pub until_fclose :
      Values V
      → (fresh dummy data_ptr : Ptr) → SensorData V
      → Option (List MapLine)
      → List (Ptr × ℤ × SensorData V)
      → Cmd (Mem (MapStore V)) (Ptr × List (Message V))
  until_fclose values fresh dummy data_ptr x lines readings = do
    list ← dpl_create fresh (map_callbacks machine)
    r ← insert_lines dummy list lines
    malloc_point data_ptr x
    log ← peek_points values r.0 data_ptr (rounds_of readings)
    free_point data_ptr
    pure (r.0, r.1 ++ log)

  -- `datamgr_init`
  pub datamgr_init :
      Values V
      → (fresh dummy data_ptr : Ptr) → SensorData V
      → Option (List MapLine)
      → List (Ptr × ℤ × SensorData V)
      → Cmd (Mem (MapStore V)) (List (Message V))
  datamgr_init values fresh dummy data_ptr x lines readings = do
    r ← until_fclose values fresh dummy data_ptr x lines readings
    close_datamgr (is_open lines) r.0
    pure r.1

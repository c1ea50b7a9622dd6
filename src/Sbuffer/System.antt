-- ===== src/Sbuffer/System.antt =====
-- sbuffer.c with its threads: the connection managers insert, the storage manager calls
-- `sbuffer_remove` until it returns something else than SBUFFER_SUCCESS (sensor_db.c), and the data
-- manager calls `sbuffer_peek` likewise (datamgr.c). Any thread may run next, and a waiting thread
-- may wake at any time.
pub mod Invariant
pub mod Removing
pub mod Peeking
pub mod Inserting
pub mod Safety
pub mod Order
pub mod Faults
pub mod Progress
pub mod Samples
mod Tests
use osc_final_lab.Common.{◌≡◌, ◌≢◌, Bool, true, none, List, [], ◌∷◌, ◌++◌, ok}
use osc_final_lab.Config.{SensorData}
use osc_final_lab.Sbuffer.Memory.{Ptr, null, Mem}
use osc_final_lab.Sbuffer.{
  Stand, start, returned, success, sbuffer_init, sbuffer_remove, sbuffer_peek, sbuffer_insert,
}

pub record System (V : Type 0) : Type 0 where
  pub mem : Mem V
  pub remover : Stand V
  pub peeker : Stand V
  -- the readings that were given to `sbuffer_insert`, that `sbuffer_remove` gave to the storage
  -- manager, and that `sbuffer_peek` gave to the data manager
  pub inserted : List (SensorData V)
  pub saved : List (SensorData V)
  pub seen : List (SensorData V)

pub data Step {V : Type 0} (buffer : Ptr) : System V → System V → Type 0 where
  inserts :
      {s : System V} (fresh : Ptr) (x : SensorData V) (g : Mem V)
      → fresh ≢ null
      → s.mem.nodes fresh ≡ none
      → sbuffer_insert fresh buffer x s.mem ≡ ok true g
      → Step buffer s (record s { mem = g; inserted = s.inserted ++ x ∷ [] })
  removes :
      {s : System V} (t : Stand V) (g : Mem V)
      → sbuffer_remove buffer s.remover s.mem ≡ ok t g
      → Step buffer s (record s { mem = g; remover = t })
  peeks :
      {s : System V} (t : Stand V) (g : Mem V)
      → sbuffer_peek buffer s.peeker s.mem ≡ ok t g
      → Step buffer s (record s { mem = g; peeker = t })
  -- the storage manager takes the reading and calls again
  saves :
      {s : System V} (x : SensorData V)
      → s.remover ≡ returned (success x)
      → Step buffer s (record s { remover = start; saved = s.saved ++ x ∷ [] })
  -- the data manager takes the reading and calls again
  sees :
      {s : System V} (x : SensorData V)
      → s.peeker ≡ returned (success x)
      → Step buffer s (record s { peeker = start; seen = s.seen ++ x ∷ [] })

pub data Reachable {V : Type 0} (buffer : Ptr) : System V → Type 0 where
  initial :
      (m g : Mem V)
      → sbuffer_init buffer m ≡ ok (true, buffer) g
      → Reachable buffer (record {
        mem = g;
        remover = start;
        peeker = start;
        inserted = [];
        saved = [];
        seen = [];
      })
  later : {s t : System V} → Reachable buffer s → Step buffer s t → Reachable buffer t

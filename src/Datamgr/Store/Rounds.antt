-- ===== src/Datamgr/Store/Rounds.antt =====
-- datamgr.c: the loop of `datamgr_init` on the nodes and blocks in memory.
pub mod Following
pub mod Ending
use osc_final_lab.Common.{
  ℕ, none, some, List, [], ◌∷◌, ◌++◌, Bool, ℤ, Cmd, ok, fault, pure, ◌>>=◌, ◌>>◌, ◌==◌,
  if◌then◌else◌,
}
use osc_final_lab.Config.{SensorData}
use osc_final_lab.Sbuffer.{Status, success, failure, no_data}
use osc_final_lab.Dplist.Memory.{Ptr, Mem, update}
use osc_final_lab.Datamgr.{Values, Message, parsed, closing}
use osc_final_lab.Datamgr.Store.{MapStore, release, close_datamgr}
use osc_final_lab.Datamgr.Store.Points.{load_data, insert_point}
use osc_final_lab.Datamgr.Store.Averages.{average_sensor}

-- What one round of the loop gets: the address for a new node, the time, and the result of
-- `sbuffer_peek`.
abbrev pub Round : Type 0 → Type 0
Round V = Ptr × ℤ × Status V

module _ {V : Type 0} where
  abbrev pub with_point : Ptr → SensorData V → Mem (MapStore V) → Mem (MapStore V)
  with_point p x m = record m {
    elems = record m.elems {
      inner = record m.elems.inner { elems = update m.elems.inner.elems p (some x) };
    };
  }

  -- The write of `sbuffer_peek` to `*data`.
  unfoldable pub write_point : Ptr → SensorData V → Cmd (Mem (MapStore V)) (Unit {0})
  write_point p x = do load_data p; λ m. ok tt (with_point p x m)

  -- `free(data_ptr)`
  unfoldable pub free_point : Ptr → Cmd (Mem (MapStore V)) (Unit {0})
  free_point p m = elim (release m.elems.inner.elems p) [
    | none ↦ fault
    | some h ↦
        ok tt (record m { elems = record m.elems { inner = record m.elems.inner { elems = h } } })
  ]

module _ {V : Type 0} (values : Values V) (list data_ptr : Ptr) where
  -- One round of the loop, from the write to `*data` on.
  pub point_round : (fresh : Ptr) → ℤ → SensorData V → Cmd (Mem (MapStore V)) (List (Message V))
  point_round fresh now x = do
    write_point data_ptr x
    log ← insert_point fresh now list data_ptr
    point ← load_data data_ptr
    complaints ← average_sensor values list point.id
    pure (log ++ complaints ++ parsed point.id ∷ [])

  pub peek_points : List (Round V) → Cmd (Mem (MapStore V)) (List (Message V))
  peek_points [] = pure []
  peek_points ((fresh, now, success x) ∷ rounds) = do
    log ← point_round fresh now x
    later ← peek_points rounds
    pure (log ++ later)
  peek_points ((fresh, now, failure) ∷ rounds) = pure (closing ∷ [])
  peek_points ((fresh, now, no_data) ∷ rounds) = pure (closing ∷ [])

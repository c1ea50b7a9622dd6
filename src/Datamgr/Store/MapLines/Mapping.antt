-- ===== src/Datamgr/Store/MapLines/Mapping.antt =====
-- datamgr.c: what `insert_mappings` leaves in memory, and that the loop of `datamgr_init` can start there.
use osc_final_lab.Common.{
  ℕ, ◌+◌, ◌≡◌, ◌≢◌, refl, sym, ap, ◌∙◌, none, some, List, [], ◌∷◌, ◌++◌, length, map, arith, ◌≤◌, ℤ,
  Returns, returns, Returns-bind, Returns-mono, ok,
}
use mathlib.Core.List.{append_assoc, append-nil}
use native.Mathlib.Decide.{ℕ_discrete}
use osc_final_lab.Config.{SensorData}
use osc_final_lab.Dplist.Memory.{Ptr, null, Mem, update}
use osc_final_lab.Dplist.Chain.{Cells}
use osc_final_lab.Dplist.{int_max}
use osc_final_lab.Datamgr.{Maps, Values}
use osc_final_lab.Datamgr.Mappings.{entries}
use osc_final_lab.Datamgr.Store.{MapStore, Machine, map_callbacks}
use osc_final_lab.Datamgr.Store.Owned.{Sensor, owns_map}
use osc_final_lab.Datamgr.Store.Agreeing.{Agrees, Owned-Agrees, Stored-Agrees}
use osc_final_lab.Datamgr.Store.Points.Changing.{ne_of_owned, owns_data-eq-false_of_none}
use osc_final_lab.Dplist.Free.{true_ne_false}
use osc_final_lab.Datamgr.Readings.{Bounded}
use osc_final_lab.Datamgr.Store.Rounds.Following.{Returns-with, Ready}
use osc_final_lab.Datamgr.Store.Rounds.Ending.{AllFree}
use osc_final_lab.Datamgr.Store.MapLines.{MapLine, add_mapping, add_mappings}
use osc_final_lab.Datamgr.Store.MapLines.Added.{entry_of, Mapped, LineRoom, add_mapping-Mapped}

-- What the abstract `insert_mappings` gets of a line.
abbrev pub numbers_of : MapLine → ℕ × ℕ × ℤ
numbers_of l = (l.room, l.sensor, l.now)

module _ {V : Type 0} (machine : Machine V) (dummy list : Ptr) where
  -- In each round of `insert_mappings`, `malloc` returns addresses of free blocks.
  abbrev pub LinesRoom : List MapLine → Mem (MapStore V) → Type 0
  LinesRoom [] m = Unit {0}
  LinesRoom (l ∷ ls) m =
      LineRoom machine dummy l m
      × ((r : Ptr) (g : Mem (MapStore V))
          → add_mapping machine dummy list l m ≡ ok r g
          → LinesRoom ls g)

  pub add_mappings-Mapped :
      (ls : List MapLine) (m : Mem (MapStore V)) (cs : Cells) (xs : List Sensor) (ms : Maps V)
      → dummy ≢ null
      → Mapped machine m dummy list cs xs ms
      → LinesRoom ls m
      → length cs + length ls ≤ int_max
      → Returns
          (λ r g.
            (r ≡ list)
            × (ws : Cells) × (ys : List Sensor) × Mapped machine g dummy list ws ys
                (ms ++ map entry_of ls))
          (add_mappings machine dummy list ls m)
  unfolding add_mappings
  add_mappings-Mapped [] m cs xs ms ne mapped room fits =
      returns (refl, cs, xs, rw (append-nil ms) mapped)
  add_mappings-Mapped (l ∷ ls) m cs xs ms ne mapped (room, after) fits =
      Returns-bind
        (Returns-with
          (add_mapping-Mapped machine m dummy list l cs xs ms ne mapped room (omega arith)))
        λ r g ((same, ws, ys, mapped', grown), run). rw same (
          Returns-mono
            (add_mappings-Mapped ls g ws ys (ms ++ entry_of l ∷ []) ne mapped' (after r g run)
              (omega arith))
            λ r' h (same', ws', ys', mapped''). (
              same',
              ws',
              ys',
              rw (sym (append_assoc ms (entry_of l ∷ []) (map entry_of ls))) mapped'',
            ))

pub numbers_of-entries :
    {V : Type 0} (ls : List MapLine) → map entry_of ls ≡ entries {V = V} (map numbers_of ls)
unfolding entries
numbers_of-entries [] = refl
numbers_of-entries (l ∷ ls) = ap (entry_of l ∷◌) (numbers_of-entries ls)

module _ {V : Type 0} (machine : Machine V) where
  -- The list that `dpl_create` makes when nothing is allocated.
  abbrev pub with_list : Ptr → Mem (MapStore V) → Mem (MapStore V)
  with_list fresh m = record m {
    lists = update m.lists fresh (some (record { head = null; callbacks = map_callbacks machine }));
  }

  pub Mapped-nil :
      (m : Mem (MapStore V)) (fresh dummy : Ptr)
      → fresh ≢ null
      → AllFree m
      → Mapped machine (with_list fresh m) dummy fresh [] [] []
  unfolding Bounded
  Mapped-nil m fresh dummy ne free = record {
    represents = record {
      head = null;
      is_list = record { not_null = ne; struct_at = ground arith; head_first = refl; chain = tt };
      fits = omega arith;
      elements = tt;
      owned = tt;
      stored = tt;
      bounded = tt;
    };
    dummy_apart = refl;
    nodes = λ a off. free.nodes a;
    lists = λ a apart. ground (arith, free.lists a);
    maps = λ a off apart. free.maps a;
    inner_lists = λ a off. free.inner_lists a;
    inner_nodes = free.inner_nodes;
    data_blocks = free.data_blocks;
  }

  -- The memory after `insert_mappings` and the `malloc` for `data_ptr`.
  abbrev pub with_data : (dummy data_ptr : Ptr) → SensorData V → Mem (MapStore V) → Mem (MapStore V)
  with_data dummy data_ptr x m = record m {
    elems = record {
      maps = update m.elems.maps dummy none;
      inner = record m.elems.inner { elems = update m.elems.inner.elems data_ptr (some x) };
    };
  }

  Agrees-with_data :
      (m : Mem (MapStore V)) (dummy list data_ptr : Ptr) (x : SensorData V) (cs : Cells)
      (xs : List Sensor) (ms : Maps V)
      → Mapped machine m dummy list cs xs ms
      → Agrees m.elems xs (with_data dummy data_ptr x m).elems
  Agrees-with_data m dummy list data_ptr x cs xs ms mapped = record {
    maps = λ a on. ground (arith, ne_of_owned (λ p. owns_map p xs) a dummy on mapped.dummy_apart);
    lists = λ a on. refl;
    nodes = λ a on. refl;
    data_blocks = λ a on. absurd (
        true_ne_false (
          sym on
          ∙ owns_data-eq-false_of_none machine m.elems xs a mapped.represents.owned
              (mapped.data_blocks a)));
  }

  pub Mapped-Ready :
      (values : Values V) (m : Mem (MapStore V)) (dummy list data_ptr : Ptr) (x : SensorData V)
      (cs : Cells) (xs : List Sensor) (ms : Maps V)
      → data_ptr ≢ null
      → Mapped machine m dummy list cs xs ms
      → Ready machine values list data_ptr cs ms (with_data dummy data_ptr x m)
  Mapped-Ready values m dummy list data_ptr x cs xs ms ne mapped =
      let rep = mapped.represents in
      let agrees = Agrees-with_data m dummy list data_ptr x cs xs ms mapped in
      let s' : MapStore V = (with_data dummy data_ptr x m).elems in
      record {
        sensors = xs;
        represents = record {
          head = rep.head;
          is_list = record {
            not_null = rep.is_list.not_null;
            struct_at = rep.is_list.struct_at;
            head_first = rep.is_list.head_first;
            chain = rep.is_list.chain;
          };
          fits = rep.fits;
          elements = rep.elements;
          owned = Owned-Agrees m.elems s' machine xs agrees rep.owned;
          stored = Stored-Agrees m.elems s' xs ms agrees rep.stored;
          bounded = rep.bounded;
        };
        old_point = x;
        is_point = record {
          not_null = ne;
          holds_it = ground arith;
          apart =
              owns_data-eq-false_of_none machine m.elems xs data_ptr rep.owned
                (mapped.data_blocks data_ptr);
        };
        tight = record {
          nodes = mapped.nodes;
          lists = mapped.lists;
          maps = λ a off. elim (ℕ_discrete a dummy) [
            | yes here ↦ ground arith
            | no other ↦ ground (arith, mapped.maps a off other)
          ];
          inner_lists = mapped.inner_lists;
          inner_nodes = λ a off. mapped.inner_nodes a;
          data_blocks = λ a off other. ground (arith, mapped.data_blocks a);
        };
      }

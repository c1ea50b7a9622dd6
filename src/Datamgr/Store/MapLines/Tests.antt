-- ===== src/Datamgr/Store/MapLines/Tests.antt =====
-- datamgr.c: a run of `datamgr_init` in memory, with one line in the map file and one reading.
use osc_final_lab.Common.{
  fault, true, ℤ, Returns-ok, ok, map, ◌++◌, ◌/◌, ◌+◌, ℕ, ◌≡◌, refl, none, some, List, [], ◌∷◌,
  arith, Returns, pos, ltb, ◌==◌,
}
use osc_final_lab.Config.{SensorData}
use osc_final_lab.Datamgr.{Values, invalid_file, insert_mappings, peek_loop}
use osc_final_lab.Datamgr.Store.Rounds.Following.{result_of, Roomy}
use osc_final_lab.Datamgr.Store.Rounds.Ending.{AllFree}
use osc_final_lab.Datamgr.Store.MapLines.{
  rounds_of, MapLine, add_mappings, until_fclose, datamgr_init,
}
use osc_final_lab.Datamgr.Store.MapLines.Missing.{datamgr_init-fault}
use osc_final_lab.Datamgr.Store.MapLines.Mapping.{
  numbers_of, LinesRoom, with_list, with_data, Mapped-nil, add_mappings-Mapped,
}
use osc_final_lab.Datamgr.Store.MapLines.Starting.{datamgr_init-peek_loop}
use osc_final_lab.Dplist.Memory.{Ptr, null, Mem}
use osc_final_lab.Datamgr.Store.{MapStore, Machine, close_datamgr}

abbrev machine : Machine ℕ
machine = record {
  malloc_data = λ h. 900;
  malloc_map = λ s. 800;
  is_less = ltb;
  is_equal = λ a b. a == b;
}

abbrev point : SensorData ℕ
point = record { id = 15; value = 20; ts = pos 3 }

abbrev empty : Mem (MapStore ℕ)
empty = record {
  nodes = λ a. none;
  lists = λ a. none;
  elems = record {
    maps = λ a. none;
    inner = record { nodes = λ a. none; lists = λ a. none; elems = λ a. none };
  };
}

abbrev degrees : Values ℕ
degrees = record {
  zero_value = 0;
  add = λ a b. a + b;
  divide = λ a. a / 5;
  is_too_hot = λ a. ltb 20 a;
  is_too_cold = λ a. ltb a 10;
}

abbrev map_lines : List MapLine
map_lines = record { fresh_list = 5; fresh_node = 10; room = 1; sensor = 15; now = pos 1 } ∷ []

abbrev given : List (Ptr × ℤ × SensorData ℕ)
given = (60, pos 11, point) ∷ []

empty-AllFree : AllFree empty
empty-AllFree = record {
  nodes = λ a. refl;
  lists = λ a. refl;
  maps = λ a. refl;
  inner_lists = λ a. refl;
  inner_nodes = λ a. refl;
  data_blocks = λ a. refl;
}

line-LinesRoom : LinesRoom machine 400 1 map_lines (with_list machine 1 empty)
line-LinesRoom = (
  record { node = (omega arith, refl); list = (omega arith, refl); element = (omega arith, refl) },
  λ r g ran. tt,
)

after_lines-Roomy :
    (r : Ptr) (g : Mem (MapStore ℕ))
    → add_mappings machine 400 1 map_lines (with_list machine 1 empty) ≡ ok r g
    → Roomy machine degrees 1 700 (rounds_of given) (with_data machine 400 700 point g)
after_lines-Roomy r g ran =
    let (same, ws, ys, mapped) =
      Returns-ok
        (add_mappings-Mapped machine 400 1 map_lines (with_list machine 1 empty) [] [] []
          (omega arith) (Mapped-nil machine empty 1 400 (omega arith) empty-AllFree) line-LinesRoom
          (omega arith))
        ran in
    (
      record {
        now = (omega arith, ground (arith, mapped.data_blocks 900));
        later = λ e. (omega arith, ground (arith, mapped.data_blocks 900));
      },
      (omega arith, mapped.inner_nodes 60),
      λ log h ran'. tt,
    )

datamgr_init-peek_loop_example :
    Returns
      (λ log g.
        (log
          ≡ (insert_mappings (some (map numbers_of map_lines)) []).1
            ++ (peek_loop degrees
                (map result_of (rounds_of given))
                (insert_mappings (some (map numbers_of map_lines)) []).0).1)
        × AllFree g)
      (datamgr_init machine degrees 1 400 700 point (some map_lines) given empty)
datamgr_init-peek_loop_example =
    datamgr_init-peek_loop machine degrees 1 400 700 point map_lines given empty empty-AllFree
      (record {
        list_ne = omega arith;
        dummy_ne = omega arith;
        data_ne = omega arith;
        lines = line-LinesRoom;
        few = omega arith;
        rounds = after_lines-Roomy;
      })

datamgr_init-fault_example :
    Returns
      (λ r g.
        (r ≡ (1, invalid_file ∷ (peek_loop degrees (map result_of (rounds_of given)) []).1))
        × Returns (λ end h. (end ≡ null) × AllFree h) (close_datamgr true r.0 g))
      (until_fclose machine degrees 1 400 700 point none given empty)
    × (datamgr_init machine degrees 1 400 700 point none given empty ≡ fault)
datamgr_init-fault_example =
    datamgr_init-fault machine degrees 1 400 700 point given empty empty-AllFree (omega arith)
      (omega arith)
      (
        record { now = (omega arith, refl); later = λ e. (omega arith, ground arith) },
        (omega arith, refl),
        λ log g ran. tt,
      )

-- ===== src/Datamgr/Store/MapLines/Missing.antt =====
-- datamgr.c: `datamgr_init` in memory when the map file cannot be opened.
use osc_final_lab.Common.{
  ℤ, ◌≡◌, ◌≢◌, refl, true, none, some, List, [], ◌∷◌, map, arith, Returns, Returns-mono, returns,
  Run, Cmd, fault, and_then, ==_of_ne,
}
use osc_final_lab.Config.{SensorData}
use osc_final_lab.Dplist.Memory.{Ptr, null, Mem}
use osc_final_lab.Dplist.RoundTrip.{dpl_create-ok}
use osc_final_lab.Datamgr.{Values, invalid_file, peek_loop}
use osc_final_lab.Datamgr.Store.{MapStore, Machine, map_callbacks, fclose_map, close_datamgr}
use osc_final_lab.Datamgr.Store.Rounds.{with_point}
use osc_final_lab.Datamgr.Store.Rounds.Following.{Represents-other, Roomy, Ready, result_of}
use osc_final_lab.Datamgr.Store.Rounds.Ending.{AllFree, peek_points-Closes}
use osc_final_lab.Datamgr.Store.MapLines.{
  rounds_of, insert_lines, malloc_point, until_fclose, datamgr_init,
}
use osc_final_lab.Datamgr.Store.MapLines.Mapping.{with_list, Mapped-nil}

-- What follows a run that ends normally may still fault.
fault_after :
    {S A B : Type 0} {P : A → S → Type 0} {r : Run S A} {k : A → Cmd S B}
    → Returns P r
    → ((a : A) (s : S) → P a s → k a s ≡ fault)
    → and_then r k ≡ fault
fault_after (returns p) next = next _ _ p

module _ {V : Type 0} (machine : Machine V) where
  empty-Ready :
      (values : Values V) (fresh data_ptr : Ptr) (x : SensorData V) (m : Mem (MapStore V))
      → fresh ≢ null
      → data_ptr ≢ null
      → AllFree m
      → Ready machine values fresh data_ptr [] []
          (with_point data_ptr x (with_list machine fresh m))
  empty-Ready values fresh data_ptr x m ne data_ne free =
      let mapped = Mapped-nil machine m fresh null ne free in
      record {
        sensors = [];
        represents =
            Represents-other machine (with_list machine fresh m) fresh [] [] [] data_ptr (some x)
              mapped.represents refl;
        old_point = x;
        is_point = record { not_null = data_ne; holds_it = ground arith; apart = refl };
        tight = record {
          nodes = λ a off. free.nodes a;
          lists = mapped.lists;
          maps = λ a off. free.maps a;
          inner_lists = λ a off. free.inner_lists a;
          inner_nodes = λ a off. free.inner_nodes a;
          data_blocks = λ a off other. ground (arith, free.data_blocks a);
        };
      }

  until_fclose-missing :
      (values : Values V) (fresh dummy data_ptr : Ptr) (x : SensorData V)
      (readings : List (Ptr × ℤ × SensorData V)) (m : Mem (MapStore V))
      → AllFree m
      → fresh ≢ null
      → data_ptr ≢ null
      → Roomy machine values fresh data_ptr
          (rounds_of readings)
          (with_point data_ptr x (with_list machine fresh m))
      → Returns
          (λ r g.
            (r ≡ (
              fresh,
              invalid_file ∷ (peek_loop values (map result_of (rounds_of readings)) []).1,
            ))
            × Returns (λ end h. (end ≡ null) × AllFree h) (close_datamgr true r.0 g))
          (until_fclose machine values fresh dummy data_ptr x none readings m)
  unfolding until_fclose insert_lines malloc_point
  until_fclose-missing values fresh dummy data_ptr x readings m free ne data_ne roomy =
      rw (dpl_create-ok m fresh (map_callbacks machine) ne, ==_of_ne data_ptr null data_ne)
        (Returns-mono
          (peek_points-Closes machine values fresh data_ptr [] (λ log. (fresh, invalid_file ∷ log))
            (rounds_of readings) [] (with_point data_ptr x (with_list machine fresh m))
            (empty-Ready values fresh data_ptr x m ne data_ne free) roomy)
          λ r g (same, closes). (same, rw same closes))

  -- If the map file cannot be opened, nothing is allocated before, and `malloc` returns addresses
  -- of free blocks, then `datamgr_init` reaches its call of `fclose` without a fault, whatever
  -- readings `sbuffer_peek` returns before SBUFFER_NO_DATA: it has written that the file is
  -- invalid and then the messages of `peek_loop` without a sensor. It then passes NULL to
  -- `fclose`, a fault; with an open stream the rest would not fault and leave nothing allocated.
  pub datamgr_init-fault :
      (values : Values V) (fresh dummy data_ptr : Ptr) (x : SensorData V)
      (readings : List (Ptr × ℤ × SensorData V)) (m : Mem (MapStore V))
      → AllFree m
      → fresh ≢ null
      → data_ptr ≢ null
      → Roomy machine values fresh data_ptr
          (rounds_of readings)
          (with_point data_ptr x (with_list machine fresh m))
      → Returns
          (λ r g.
            (r ≡ (
              fresh,
              invalid_file ∷ (peek_loop values (map result_of (rounds_of readings)) []).1,
            ))
            × Returns (λ end h. (end ≡ null) × AllFree h) (close_datamgr true r.0 g))
          (until_fclose machine values fresh dummy data_ptr x none readings m)
        × (datamgr_init machine values fresh dummy data_ptr x none readings m ≡ fault)
  unfolding datamgr_init close_datamgr fclose_map
  datamgr_init-fault values fresh dummy data_ptr x readings m free ne data_ne roomy =
      let reaches =
        until_fclose-missing values fresh dummy data_ptr x readings m free ne data_ne roomy in
      (reaches, fault_after reaches (λ r g ends. refl))

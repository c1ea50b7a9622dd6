-- ===== src/Datamgr/Store/MapLines/Starting.antt =====
-- datamgr.c: `datamgr_init` in memory, from its beginning to its end.
use osc_final_lab.Common.{
  ◌≡◌, ◌≢◌, refl, sym, ap, ◌∙◌, none, some, List, [], ◌++◌, length, map, arith, ◌≤◌, ℤ, Returns,
  returns, Returns-bind, Returns-mono, ok, ==_of_ne,
}
use osc_final_lab.Config.{SensorData}
use osc_final_lab.Dplist.Memory.{Ptr, null, Mem, update}
use osc_final_lab.Dplist.Chain.{Cells}
use osc_final_lab.Dplist.RoundTrip.{dpl_create-ok}
use osc_final_lab.Dplist.{int_max}
use osc_final_lab.Datamgr.{Values, insert_mappings, peek_loop}
use osc_final_lab.Datamgr.Mappings.{insert_mappings-entries}
use osc_final_lab.Datamgr.Store.{MapStore, Machine, map_callbacks}
use osc_final_lab.Datamgr.Store.Owned.{Sensor}
use osc_final_lab.Datamgr.Store.Rounds.Following.{result_of, Returns-with, Roomy}
use osc_final_lab.Datamgr.Store.Rounds.Ending.{AllFree, Closes, peek_points-Closes}
use osc_final_lab.Datamgr.Store.MapLines.{
  rounds_of, MapLine, add_mappings, drop_dummy, malloc_point, insert_lines, until_fclose,
  datamgr_init,
}
use osc_final_lab.Datamgr.Store.MapLines.Added.{entry_of, Mapped}
use osc_final_lab.Datamgr.Store.MapLines.Mapping.{
  numbers_of, LinesRoom, add_mappings-Mapped, numbers_of-entries, with_list, Mapped-nil, with_data,
  Mapped-Ready,
}

module _ {V : Type 0} (machine : Machine V) where
  -- The addresses that `malloc` returns in a run are those of free blocks, and there is no overflow.
  pub record RunRoom (values : Values V) (fresh dummy data_ptr : Ptr) (x : SensorData V)
      (ls : List MapLine) (readings : List (Ptr × ℤ × SensorData V)) (m : Mem (MapStore V))
      : Type 0 where
    pub list_ne : fresh ≢ null
    pub dummy_ne : dummy ≢ null
    pub data_ne : data_ptr ≢ null
    pub lines : LinesRoom machine dummy fresh ls (with_list machine fresh m)
    pub few : length ls ≤ int_max
    pub rounds :
        (r : Ptr) (g : Mem (MapStore V))
        → add_mappings machine dummy fresh ls (with_list machine fresh m) ≡ ok r g
        → Roomy machine values fresh data_ptr
            (rounds_of readings)
            (with_data machine dummy data_ptr x g)

  insert_lines-Mapped :
      (list dummy : Ptr) (ls : List MapLine) (m : Mem (MapStore V))
      → dummy ≢ null
      → Mapped machine m dummy list [] [] []
      → LinesRoom machine dummy list ls m
      → length ls ≤ int_max
      → Returns
          (λ r g.
            (r ≡ (list, []))
            × (h : Mem (MapStore V)) × (add_mappings machine dummy list ls m ≡ ok list h)
            × (ws : Cells) × (ys : List Sensor) × Mapped machine h dummy list ws ys
                (map entry_of ls)
            × (g ≡ record h { elems = record h.elems { maps = update h.elems.maps dummy none } }))
          (insert_lines machine dummy list (some ls) m)
  unfolding insert_lines drop_dummy
  insert_lines-Mapped list dummy ls m ne mapped room few =
      Returns-bind
        (Returns-with
          (add_mappings-Mapped machine dummy list ls m [] [] [] ne mapped room (omega arith)))
        λ r h ((same, ws, ys, mapped'), ran).
          returns (ap (λ l. (l, [])) same, h, ran ∙ ap (λ l. ok l h) same, ws, ys, mapped', refl)

  until_fclose-peek_loop :
      (values : Values V) (fresh dummy data_ptr : Ptr) (x : SensorData V) (ls : List MapLine)
      (readings : List (Ptr × ℤ × SensorData V)) (m : Mem (MapStore V))
      → AllFree m
      → RunRoom values fresh dummy data_ptr x ls readings m
      → Returns
          (λ r g.
            (r ≡ (
              fresh,
              (insert_mappings (some (map numbers_of ls)) []).1
                  ++ (peek_loop values
                      (map result_of (rounds_of readings))
                      (insert_mappings (some (map numbers_of ls)) []).0).1,
            ))
            × (cs : Cells) × Closes machine values fresh data_ptr cs g)
          (until_fclose machine values fresh dummy data_ptr x (some ls) readings m)
  unfolding until_fclose insert_lines drop_dummy malloc_point
  until_fclose-peek_loop values fresh dummy data_ptr x ls readings m free room =
      rw (dpl_create-ok m fresh (map_callbacks machine) room.list_ne) (
        Returns-bind
          (insert_lines-Mapped fresh dummy ls (with_list machine fresh m) room.dummy_ne
            (Mapped-nil machine m fresh dummy room.list_ne free) room.lines room.few)
          λ r g (same, h, ran, ws, ys, mapped, at).
            rw
              (
                same,
                at,
                ==_of_ne data_ptr null room.data_ne,
                insert_mappings-entries {V = V} (map numbers_of ls) [],
                sym (numbers_of-entries {V = V} ls),
              )
              (Returns-mono
                (peek_points-Closes machine values fresh data_ptr ws (λ log. (fresh, log))
                  (rounds_of readings) (map entry_of ls) (with_data machine dummy data_ptr x h)
                  (Mapped-Ready machine values h dummy fresh data_ptr x ws ys (map entry_of ls)
                    room.data_ne mapped)
                  (room.rounds fresh h ran))
                λ r' g' (result, closes). (result, ws, closes)))

  -- If nothing is allocated before, and `malloc` returns addresses of free blocks, then
  -- `datamgr_init` with an open map file of at most `int_max` lines does not fault, whatever
  -- readings `sbuffer_peek` returns before SBUFFER_NO_DATA: it writes the messages that
  -- `insert_mappings` and `peek_loop` on the abstract lists give, and at its end no block, node
  -- or list is allocated.
  pub datamgr_init-peek_loop :
      (values : Values V) (fresh dummy data_ptr : Ptr) (x : SensorData V) (ls : List MapLine)
      (readings : List (Ptr × ℤ × SensorData V)) (m : Mem (MapStore V))
      → AllFree m
      → RunRoom values fresh dummy data_ptr x ls readings m
      → Returns
          (λ log g.
            (log
              ≡ (insert_mappings (some (map numbers_of ls)) []).1
                ++ (peek_loop values
                    (map result_of (rounds_of readings))
                    (insert_mappings (some (map numbers_of ls)) []).0).1)
            × AllFree g)
          (datamgr_init machine values fresh dummy data_ptr x (some ls) readings m)
  unfolding datamgr_init
  datamgr_init-peek_loop values fresh dummy data_ptr x ls readings m free room =
      Returns-bind (until_fclose-peek_loop values fresh dummy data_ptr x ls readings m free room)
        λ r g (same, cs, closes).
          rw same (Returns-bind closes λ r' h (is_null, free'). returns (refl, free'))

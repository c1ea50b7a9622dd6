-- ===== src/Datamgr/Store/Clearing.antt =====
-- datamgr.c: the calls of `dpl_free` at the end of `datamgr_init`, on all sensors.
use osc_final_lab.Common.{
  ◌≤◌, ◌≡◌, ◌≢◌, refl, ◌∙◌, true, false, none, List, [], ◌∷◌, length, ◌==◌, arith, if◌then◌else◌,
  Returns, Returns-mono, fault,
}
use osc_final_lab.Dplist.Memory.{Ptr, null, Dplist, Mem}
use osc_final_lab.Dplist.Chain.{Cells, has, IsList, SameOutside}
use osc_final_lab.Dplist.Free.{ReleasedAll, dpl_free-freed}
use osc_final_lab.Dplist.{int_max}
use osc_final_lab.Datamgr.Store.{
  MapStore, Machine, map_callbacks, sensor_map_free, datamgr_free, fclose_map, close_datamgr,
}
use osc_final_lab.Datamgr.Store.Owned.{Sensor, Holds, Apart, Owned, Elements, Cleared}
use osc_final_lab.Datamgr.Store.Agreeing.{Holds-Agrees}
use osc_final_lab.Datamgr.Store.Freeing.{Emptied, sensor_map_free-Emptied}

module _ {V : Type 0} where
  -- Freeing the other sensors leaves `x` as it was.
  Holds-frame :
      (machine : Machine V) (s t : MapStore V) (x : Sensor) (xs : List Sensor)
      → Holds machine s x
      → Apart x xs
      → Cleared s xs t
      → Holds machine t x
  Holds-frame machine s t x xs held apart cleared =
      Holds-Agrees s t machine x []
        (record {
          maps = λ a on. cleared.maps a ∙ ground (arith, apart.maps);
          lists = λ a on. cleared.lists a ∙ ground (arith, apart.lists);
          nodes = λ a on. cleared.nodes a ∙ ground (arith, apart.nodes a);
          data_blocks = λ a on. cleared.data_blocks a ∙ ground (arith, apart.data_blocks a);
        })
        held

  Cleared-cons :
      (s t s' : MapStore V) (x : Sensor) (xs : List Sensor)
      → Cleared s xs t
      → ((a : Ptr) → s'.maps a ≡ (if a == x.element then none else t.maps a))
      → Emptied t.inner x s'.inner
      → Cleared s (x ∷ xs) s'
  Cleared-cons s t s' x xs cleared maps emptied = record {
    maps = λ a. maps a ∙ ground (arith, cleared.maps a);
    lists = λ a. emptied.lists a ∙ ground (arith, cleared.lists a);
    nodes = λ a. emptied.nodes a ∙ ground (arith, cleared.nodes a);
    data_blocks = λ a. emptied.data_blocks a ∙ ground (arith, cleared.data_blocks a);
  }

  module _ (machine : Machine V) where
    ReleasedAll-Cleared :
        (d : Dplist (MapStore V)) (s : MapStore V) (cs : Cells) (xs : List Sensor)
        → d.callbacks.element_free ≡ sensor_map_free
        → Elements cs xs
        → Owned machine s xs
        → (s' : MapStore V) × ReleasedAll d true cs s s' × Cleared s xs s'
    ReleasedAll-Cleared d s [] [] callback elements owned = (
      s,
      refl,
      record { maps = λ a. refl; lists = λ a. refl; nodes = λ a. refl; data_blocks = λ a. refl },
    )
    ReleasedAll-Cleared d s [] (x ∷ xs) callback elements owned = absurd elements
    ReleasedAll-Cleared d s (c ∷ cs) [] callback elements owned = absurd elements
    ReleasedAll-Cleared d s ((p, e) ∷ cs) (x ∷ xs) callback (same, elements) (held, apart, owned) =
        let (t, released, cleared) = ReleasedAll-Cleared d s cs xs callback elements owned in
        let (s', freed, maps, emptied) =
          sensor_map_free-Emptied machine t x (Holds-frame machine s t x xs held apart cleared) in
        (
          s',
          (t, released, (null, rw (callback, same) freed)),
          Cleared-cons s t s' x xs cleared maps emptied,
        )

    -- If the elements of the list `list`, of at most `int_max` nodes, are allocated sensors, each
    -- with its own list of readings, of at most `int_max` readings that are allocated and its
    -- own, then the end of `datamgr_init` with an open map file returns without a fault and
    -- leaves NULL. It has freed the list and its nodes, and exactly the sensors' blocks, their
    -- lists of readings, the nodes of those and the readings, and changed no other list; without
    -- an open map file it faults.
    pub close_datamgr-Cleared :
        (m : Mem (MapStore V)) (list head : Ptr) (cs : Cells) (xs : List Sensor)
        → IsList m list (record { head = head; callbacks = map_callbacks machine }) cs
        → length cs ≤ int_max
        → Elements cs xs
        → Owned machine m.elems xs
        → Returns
            (λ r g.
              (r ≡ null)
              × (g.lists list ≡ none)
              × ((a : Ptr) → has a cs ≡ true → g.nodes a ≡ none)
              × SameOutside cs m.nodes g.nodes
              × ((a : Ptr) → a ≢ list → g.lists a ≡ m.lists a)
              × Cleared m.elems xs g.elems)
            (close_datamgr true list m)
          × (close_datamgr false list m ≡ fault)
    unfolding close_datamgr datamgr_free fclose_map
    close_datamgr-Cleared m list head cs xs is fits elements owned =
        let d : Dplist (MapStore V) = record { head = head; callbacks = map_callbacks machine } in
        let (s, released, cleared) = ReleasedAll-Cleared d m.elems cs xs refl elements owned in
        (
          Returns-mono (dpl_free-freed list true m d cs s is fits released)
              λ r g (is_null, gone, freed, outside, other, same).
                (is_null, gone, freed, outside, other, rw same cleared),
          refl,
        )

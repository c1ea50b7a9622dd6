-- ===== src/Datamgr/Store/Freeing.antt =====
-- datamgr.c: what `sensor_data_free` and `sensor_map_free` do to what they own.
use osc_final_lab.Common.{
  ◌≡◌, ◌≢◌, refl, ap, ◌∙◌, true, Option, none, some, [], ◌∷◌, ◌==◌, arith, if◌then◌else◌,
  Bool-cases, inl, inr, ==_of_ne, Run, ok, fault, Returns, returns, Returns-mono,
}
use osc_final_lab.Config.{SensorData}
use osc_final_lab.Dplist.Memory.{Ptr, null, Dplist, Mem, update}
use osc_final_lab.Dplist.Chain.{Cells, has}
use osc_final_lab.Dplist.Free.{ReleasedAll, dpl_free-freed}
use osc_final_lab.Dplist.{dpl_free}
use osc_final_lab.Datamgr.Store.{
  DataStore, MapStore, Machine, data_callbacks, sensor_data_free, load, release, sensor_map_free,
  free_map,
}
use osc_final_lab.Datamgr.Store.Owned.{holds, Sensor, Allocated, Holds}

-- The blocks without those of the elements.
abbrev pub without : {V : Type 0} → DataStore V → Cells → DataStore V
without h [] = h
without h ((_, e) ∷ cs) = update (without h cs) e none

pub without-holds :
    {V : Type 0} (h : DataStore V) (cs : Cells) (a : Ptr)
    → without h cs a ≡ (if holds a cs then none else h a)
without-holds h [] a = refl
without-holds h ((p, e) ∷ cs) a = ground (arith, without-holds h cs a)

pub load-some :
    {A : Type 0} (h : Ptr → Option A) (p : Ptr) {x : A}
    → p ≢ null
    → h p ≡ some x
    → load h p ≡ some x
unfolding load
load-some h p ne at = rw (==_of_ne p null ne, at)

pub release-some :
    {A : Type 0} (h : Ptr → Option A) (p : Ptr) {x : A}
    → p ≢ null
    → h p ≡ some x
    → release h p ≡ some (update h p none)
unfolding release
release-some h p ne at = rw (==_of_ne p null ne, at)

module _ {V : Type 0} where
  pub sensor_data_free-some :
      (h : DataStore V) (e : Ptr) {x : SensorData V}
      → e ≢ null
      → h e ≡ some x
      → sensor_data_free e h ≡ some (null, update h e none)
  unfolding sensor_data_free
  sensor_data_free-some h e ne at = rw (sensor_data_free, release-some h e ne at)

  -- The callback frees the elements of a list of readings, from the last one to the first.
  ReleasedAll-without :
      (d : Dplist (DataStore V)) (h : DataStore V) (cs : Cells)
      → d.callbacks.element_free ≡ sensor_data_free
      → Allocated h cs
      → ReleasedAll d true cs h (without h cs)
  ReleasedAll-without d h [] callback allocated = refl
  ReleasedAll-without d h ((p, e) ∷ cs) callback (ne, out, (x, at), rest) = (
    without h cs,
    ReleasedAll-without d h cs callback rest,
    (
      null,
      rw callback
          (sensor_data_free-some (without h cs) e {x = x} ne (without-holds h cs e ∙ rw (out, at))),
    ),
  )

  -- What the readings of one sensor become.
  pub record Emptied (m : Mem (DataStore V)) (x : Sensor) (g : Mem (DataStore V)) : Type 0 where
    pub lists : (a : Ptr) → g.lists a ≡ (if a == x.list then none else m.lists a)
    pub nodes : (a : Ptr) → g.nodes a ≡ (if has a x.cells then none else m.nodes a)
    pub data_blocks : (a : Ptr) → g.elems a ≡ (if holds a x.cells then none else m.elems a)

  module _ (machine : Machine V) (s : MapStore V) (x : Sensor) (held : Holds machine s x) where
    dpl_free-Emptied :
        Returns (λ r g. (r ≡ null) × Emptied s.inner x g) (dpl_free x.list true s.inner)
    dpl_free-Emptied =
        Returns-mono
          (dpl_free-freed x.list true s.inner
            (record { head = held.head; callbacks = data_callbacks machine }) x.cells
            (without s.inner.elems x.cells) held.is_list held.fits
            (ReleasedAll-without (record { head = held.head; callbacks = data_callbacks machine })
              s.inner.elems x.cells refl held.allocated))
          λ r g (is_null, gone, freed, outside, other, elems). (
            is_null,
            record {
              lists = λ a. ground (arith, other a);
              nodes = λ a. elim (Bool-cases (has a x.cells)) [
                | inl on ↦ rw on (freed a on)
                | inr off ↦ rw off (outside a off)
              ];
              data_blocks = λ a. ap (λ h. h a) elems ∙ without-holds s.inner.elems x.cells a;
            },
          )

    free_map-some :
        (r : Run (Mem (DataStore V)) Ptr)
        → Returns (λ l g. (l ≡ null) × Emptied s.inner x g) r
        → (s' : MapStore V) × (free_map x.element held.block s.maps r ≡ some (null, s'))
          × ((a : Ptr) → s'.maps a ≡ (if a == x.element then none else s.maps a))
          × Emptied s.inner x s'.inner
    unfolding free_map
    free_map-some fault r = elim r [ ]
    free_map-some (ok l g) (returns (is_null, emptied)) = (
      record {
        maps =
            update (update s.maps x.element (some (record held.block { readings = l }))) x.element
              none;
        inner = g;
      },
      rw (
        free_map,
        release-some (update s.maps x.element (some (record held.block { readings = l }))) x.element
            {x = record held.block { readings = l }} held.not_null (ground arith),
      ),
      λ a. ground arith,
      emptied,
    )

    -- `sensor_map_free` frees the element, its list of readings and all that is in it.
    pub sensor_map_free-Emptied :
        (s' : MapStore V) × (sensor_map_free x.element s ≡ some (null, s'))
        × ((a : Ptr) → s'.maps a ≡ (if a == x.element then none else s.maps a))
        × Emptied s.inner x s'.inner
    unfolding sensor_map_free
    sensor_map_free-Emptied =
        rw (sensor_map_free, load-some s.maps x.element held.not_null held.block_at, held.same_list)
          (free_map-some (dpl_free x.list true s.inner) dpl_free-Emptied)

-- ===== src/Datamgr/Store.antt =====
-- datamgr.c: the elements of the data manager's two kinds of list as blocks of memory, with the
-- callbacks on them and `datamgr_free`. What `malloc` returns is a parameter.
pub mod Owned
pub mod Points
pub mod Averages
pub mod Rounds
pub mod MapLines
pub mod Contents
pub mod Agreeing
pub mod Freeing
pub mod Clearing
mod Tests
use osc_final_lab.Common.{
  ℕ, Bool, true, false, Option, none, some, ◌==◌, ltb, if◌then◌else◌, ℤ, pos, negsuc, Cmd, Run, ok,
  fault, stop, pure, ◌>>◌,
}
use osc_final_lab.Config.{SensorData}
use osc_final_lab.Dplist.Memory.{Ptr, null, Callbacks, Mem, update}
use osc_final_lab.Dplist.{dpl_free}

-- `sensor_map_t` in memory: its readings are a list of lib/dplist.c.
pub record MapBlock : Type 0 where
  pub sensor_id : ℕ
  pub room_id : ℕ
  pub readings : Ptr
  pub last_modified : ℤ

-- The memory of the `sensor_data_t`, and of the `sensor_map_t` with the lists of readings.
abbrev pub DataStore : Type 0 → Type 0
DataStore V = Ptr → Option (SensorData V)

pub record MapStore (V : Type 0) : Type 0 where
  pub maps : Ptr → Option MapBlock
  pub inner : Mem (DataStore V)

-- A read through `p`; NULL and what is not allocated fault.
unfoldable pub load : {A : Type 0} → (Ptr → Option A) → Ptr → Option A
load h p = if p == null then none else h p

-- `free(p)`, which does nothing on NULL.
unfoldable pub release : {A : Type 0} → (Ptr → Option A) → Ptr → Option (Ptr → Option A)
release h p =
    if p == null then some h else elim (h p) [ none ↦ none | some _ ↦ some (update h p none) ]

-- The callbacks' order, for a type with tests for less and for equal.
abbrev pub order : Bool → Bool → ℤ
order less equal = if less then negsuc 0 else if equal then pos 0 else pos 1

-- `fresh` is the address that `malloc` returns.
pub sensor_map_copy : {V : Type 0} → (fresh : Ptr) → Ptr → MapStore V → Option (Ptr × MapStore V)
sensor_map_copy fresh e s = elim (load s.maps e) [
  | none ↦ none
  | some m ↦
      if fresh == null then none else some (fresh, record s { maps = update s.maps fresh (some m) })
]

pub sensor_map_compare : {V : Type 0} → Ptr → Ptr → MapStore V → Option ℤ
sensor_map_compare x y s = elim (load s.maps x) [
  | none ↦ none
  | some m ↦ elim (load s.maps y) [
    | none ↦ none
    | some n ↦ some (order (ltb m.sensor_id n.sensor_id) (m.sensor_id == n.sensor_id))
  ]
]

-- The end of `sensor_map_free`, from what `dpl_free` on the readings does.
pub free_map :
    {V : Type 0}
    → Ptr
    → MapBlock
    → (Ptr → Option MapBlock)
    → Run (Mem (DataStore V)) Ptr
    → Option (Ptr × MapStore V)
free_map e m maps fault = none
free_map e m maps (ok left g) =
    elim (release (update maps e (some (record m { readings = left }))) e) [
      | none ↦ none
      | some maps' ↦ some (null, record { maps = maps'; inner = g })
    ]

pub sensor_map_free : {V : Type 0} → Ptr → MapStore V → Option (Ptr × MapStore V)
unfolding free_map
sensor_map_free e s = elim (load s.maps e) [
  | none ↦ none
  | some m ↦ free_map e m s.maps (dpl_free m.readings true s.inner)
]

pub sensor_data_free : {V : Type 0} → Ptr → DataStore V → Option (Ptr × DataStore V)
sensor_data_free e h = elim (release h e) [ none ↦ none | some h' ↦ some (null, h') ]

pub sensor_data_copy : {V : Type 0} → (fresh : Ptr) → Ptr → DataStore V → Option (Ptr × DataStore V)
sensor_data_copy fresh e h = elim (load h e) [
  | none ↦ none
  | some x ↦ if fresh == null then none else some (fresh, update h fresh (some x))
]

-- The results of `malloc`, and the comparisons of two `double`.
pub record Machine (V : Type 0) : Type 0 where
  pub malloc_data : DataStore V → Ptr
  pub malloc_map : MapStore V → Ptr
  pub is_less : V → V → Bool
  pub is_equal : V → V → Bool

module _ {V : Type 0} (machine : Machine V) where
  pub sensor_data_compare : Ptr → Ptr → DataStore V → Option ℤ
  sensor_data_compare x y h = elim (load h x) [
    | none ↦ none
    | some a ↦ elim (load h y) [
      | none ↦ none
      | some b ↦ some (order (machine.is_less a.value b.value) (machine.is_equal a.value b.value))
    ]
  ]

  -- The arguments of the two calls of `dpl_create`.
  abbrev pub data_callbacks : Callbacks (DataStore V)
  data_callbacks = record {
    element_copy = λ e h. sensor_data_copy (machine.malloc_data h) e h;
    element_free = sensor_data_free;
    element_compare = sensor_data_compare;
  }

  abbrev pub map_callbacks : Callbacks (MapStore V)
  map_callbacks = record {
    element_copy = λ e s. sensor_map_copy (machine.malloc_map s) e s;
    element_free = sensor_map_free;
    element_compare = sensor_map_compare;
  }

-- `datamgr_free`
pub datamgr_free : {V : Type 0} → Ptr → Cmd (Mem (MapStore V)) Ptr
datamgr_free list = dpl_free list true

-- `fclose` of the map file; of NULL, when the file could not be opened, it is undefined.
pub fclose_map : {V : Type 0} → (opened : Bool) → Cmd (Mem (MapStore V)) (Unit {0})
fclose_map true = pure tt
fclose_map false = stop

-- The end of `datamgr_init`, from `fclose` on.
pub close_datamgr : {V : Type 0} → (opened : Bool) → Ptr → Cmd (Mem (MapStore V)) Ptr
unfolding datamgr_free fclose_map
close_datamgr opened list = do fclose_map opened; datamgr_free list

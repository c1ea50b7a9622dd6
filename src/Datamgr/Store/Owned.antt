-- ===== src/Datamgr/Store/Owned.antt =====
-- datamgr.c: what the elements of the data manager's list own.
use osc_final_lab.Common.{
  ◌≤◌, ◌≡◌, ◌≢◌, Bool, true, false, ◌||◌, none, some, List, [], ◌∷◌, length, ◌==◌, if◌then◌else◌,
}
use osc_final_lab.Config.{SensorData}
use osc_final_lab.Dplist.Memory.{Ptr, null}
use osc_final_lab.Dplist.Chain.{Cells, has, IsList}
use osc_final_lab.Dplist.{int_max}
use osc_final_lab.Datamgr.Store.{MapBlock, DataStore, MapStore, Machine, data_callbacks}

-- `a` is the element of one of the nodes.
abbrev pub holds : Ptr → Cells → Bool
holds a [] = false
holds a ((_, e) ∷ cs) = (a == e) || holds a cs

-- What the element of a sensor leads to: its list of readings and the nodes of that.
pub record Sensor : Type 0 where
  pub element : Ptr
  pub list : Ptr
  pub cells : Cells

abbrev pub owns_map : Ptr → List Sensor → Bool
owns_map a [] = false
owns_map a (x ∷ xs) = (a == x.element) || owns_map a xs

abbrev pub owns_list : Ptr → List Sensor → Bool
owns_list a [] = false
owns_list a (x ∷ xs) = (a == x.list) || owns_list a xs

abbrev pub owns_node : Ptr → List Sensor → Bool
owns_node a [] = false
owns_node a (x ∷ xs) = has a x.cells || owns_node a xs

abbrev pub owns_data : Ptr → List Sensor → Bool
owns_data a [] = false
owns_data a (x ∷ xs) = holds a x.cells || owns_data a xs

-- The elements of the nodes are allocated and distinct.
abbrev pub Allocated : {V : Type 0} → DataStore V → Cells → Type 0
Allocated h [] = Unit {0}
Allocated {V} h ((_, e) ∷ cs) =
    (e ≢ null) × (holds e cs ≡ false) × ((x : SensorData V) × (h e ≡ some x)) × Allocated h cs

-- The element of the sensor `x` is allocated, with a list of readings of its own.
pub record Holds {V : Type 0} (machine : Machine V) (s : MapStore V) (x : Sensor) : Type 0 where
  pub not_null : x.element ≢ null
  pub block : MapBlock
  pub block_at : s.maps x.element ≡ some block
  pub same_list : block.readings ≡ x.list
  pub head : Ptr
  pub is_list :
      IsList s.inner x.list (record { head = head; callbacks = data_callbacks machine }) x.cells
  pub fits : length x.cells ≤ int_max
  pub allocated : Allocated s.inner.elems x.cells

-- Nothing of the sensor `x` is shared with the sensors `xs`.
pub record Apart (x : Sensor) (xs : List Sensor) : Type 0 where
  pub maps : owns_map x.element xs ≡ false
  pub lists : owns_list x.list xs ≡ false
  pub nodes : (a : Ptr) → has a x.cells ≡ true → owns_node a xs ≡ false
  pub data_blocks : (a : Ptr) → holds a x.cells ≡ true → owns_data a xs ≡ false

abbrev pub Owned : {V : Type 0} → Machine V → MapStore V → List Sensor → Type 0
Owned machine s [] = Unit {0}
Owned machine s (x ∷ xs) = Holds machine s x × Apart x xs × Owned machine s xs

-- The sensors are the elements of the nodes `cs`, in order.
abbrev pub Elements : Cells → List Sensor → Type 0
Elements [] [] = Unit {0}
Elements [] (x ∷ xs) = ⊥
Elements (c ∷ cs) [] = ⊥
Elements ((_, e) ∷ cs) (x ∷ xs) = (e ≡ x.element) × Elements cs xs

-- All that the sensors `xs` own is freed and nothing else is changed.
pub record Cleared {V : Type 0} (s : MapStore V) (xs : List Sensor) (s' : MapStore V) : Type 0 where
  pub maps : (a : Ptr) → s'.maps a ≡ (if owns_map a xs then none else s.maps a)
  pub lists : (a : Ptr) → s'.inner.lists a ≡ (if owns_list a xs then none else s.inner.lists a)
  pub nodes : (a : Ptr) → s'.inner.nodes a ≡ (if owns_node a xs then none else s.inner.nodes a)
  pub data_blocks :
      (a : Ptr) → s'.inner.elems a ≡ (if owns_data a xs then none else s.inner.elems a)

-- ===== src/Datamgr/Store/Agreeing.antt =====
-- datamgr.c: what the sensors own in two memories, and what their blocks hold.
use osc_final_lab.Common.{◌≡◌, ◌∙◌, true, some, List, [], ◌∷◌, arith}
use osc_final_lab.Dplist.Memory.{Ptr, null}
use osc_final_lab.Dplist.Chain.{Chain-frame}
use osc_final_lab.Datamgr.{SensorMap, Maps}
use osc_final_lab.Datamgr.Store.{MapBlock, MapStore, Machine}
use osc_final_lab.Datamgr.Store.Owned.{
  Sensor, owns_map, owns_list, owns_node, owns_data, Holds, Owned,
}
use osc_final_lab.Datamgr.Store.Contents.{Contents, Allocated-frame, Contents-frame}

-- The two memories agree on what the sensors `xs` own.
pub record Agrees {V : Type 0} (s : MapStore V) (xs : List Sensor) (s' : MapStore V) : Type 0 where
  pub maps : (a : Ptr) → owns_map a xs ≡ true → s'.maps a ≡ s.maps a
  pub lists : (a : Ptr) → owns_list a xs ≡ true → s'.inner.lists a ≡ s.inner.lists a
  pub nodes : (a : Ptr) → owns_node a xs ≡ true → s'.inner.nodes a ≡ s.inner.nodes a
  pub data_blocks : (a : Ptr) → owns_data a xs ≡ true → s'.inner.elems a ≡ s.inner.elems a

-- The block of a sensor whose list of readings is at `list`.
abbrev pub block_of : {V : Type 0} → SensorMap V → (list : Ptr) → MapBlock
block_of m list = record {
  sensor_id = m.sensor_id;
  room_id = m.room_id;
  readings = list;
  last_modified = m.last_modified;
}

-- The sensors' blocks and lists of readings hold `ms`.
abbrev pub Stored : {V : Type 0} → MapStore V → List Sensor → Maps V → Type 0
Stored s [] [] = Unit {0}
Stored s [] (m ∷ ms) = ⊥
Stored s (x ∷ xs) [] = ⊥
Stored s (x ∷ xs) (m ∷ ms) =
    (s.maps x.element ≡ some (block_of m x.list))
    × Contents s.inner.elems x.cells m.readings
    × Stored s xs ms

module _ {V : Type 0} (s s' : MapStore V) where
  Agrees-tail : (x : Sensor) (xs : List Sensor) → Agrees s (x ∷ xs) s' → Agrees s xs s'
  Agrees-tail x xs same = record {
    maps = λ a on. same.maps a (ground arith);
    lists = λ a on. same.lists a (ground arith);
    nodes = λ a on. same.nodes a (ground arith);
    data_blocks = λ a on. same.data_blocks a (ground arith);
  }

  pub Holds-Agrees :
      (machine : Machine V) (x : Sensor) (xs : List Sensor)
      → Agrees s (x ∷ xs) s'
      → Holds machine s x
      → Holds machine s' x
  Holds-Agrees machine x xs same held = record {
    not_null = held.not_null;
    block = held.block;
    block_at = same.maps x.element (ground arith) ∙ held.block_at;
    same_list = held.same_list;
    head = held.head;
    is_list = record {
      not_null = held.is_list.not_null;
      struct_at = same.lists x.list (ground arith) ∙ held.is_list.struct_at;
      head_first = held.is_list.head_first;
      chain =
          Chain-frame s.inner.nodes s'.inner.nodes null x.cells
            (λ a on. same.nodes a (ground arith)) held.is_list.chain;
    };
    fits = held.fits;
    allocated =
        Allocated-frame s.inner.elems s'.inner.elems x.cells
          (λ a on. same.data_blocks a (ground arith)) held.allocated;
  }

  pub Owned-Agrees :
      (machine : Machine V) (xs : List Sensor)
      → Agrees s xs s'
      → Owned machine s xs
      → Owned machine s' xs
  Owned-Agrees machine [] same owned = tt
  Owned-Agrees machine (x ∷ xs) same (held, apart, owned) = (
    Holds-Agrees machine x xs same held,
    apart,
    Owned-Agrees machine xs (Agrees-tail x xs same) owned,
  )

  pub Stored-Agrees :
      (xs : List Sensor) (ms : Maps V) → Agrees s xs s' → Stored s xs ms → Stored s' xs ms
  Stored-Agrees [] [] same stored = tt
  Stored-Agrees [] (m ∷ ms) same stored = absurd stored
  Stored-Agrees (x ∷ xs) [] same stored = absurd stored
  Stored-Agrees (x ∷ xs) (m ∷ ms) same (at, contents, stored) = (
    same.maps x.element (ground arith) ∙ at,
    Contents-frame s.inner.elems s'.inner.elems x.cells m.readings
        (λ a on. same.data_blocks a (ground arith)) contents,
    Stored-Agrees xs ms (Agrees-tail x xs same) stored,
  )

-- ===== src/Datamgr/Store/MapLines/Adding.antt =====
-- datamgr.c: the sensors with one more at the end.
use osc_final_lab.Common.{
  ◌≡◌, ◌≢◌, refl, ◌∙◌, false, ◌||◌, some, List, [], ◌∷◌, ◌++◌, length, ◌==◌, arith, ◌≤◌,
}
use osc_final_lab.Dplist.Memory.{Ptr}
use osc_final_lab.Dplist.Chain.{Cells}
use osc_final_lab.Config.{run_avg_length}
use osc_final_lab.Datamgr.{SensorMap, Maps}
use osc_final_lab.Datamgr.Readings.{Bounded}
use osc_final_lab.Datamgr.Store.{MapStore, Machine}
use osc_final_lab.Datamgr.Store.Owned.{
  Sensor, owns_map, owns_list, owns_node, owns_data, Holds, Apart, Owned, Elements,
}
use osc_final_lab.Datamgr.Store.Agreeing.{Stored, block_of}

-- A sensor without readings.
abbrev pub new_sensor : (element list : Ptr) → Sensor
new_sensor e l = record { element = e; list = l; cells = [] }

module _ (a e l : Ptr) where
  pub owns_map-append :
      (xs : List Sensor) → owns_map a (xs ++ new_sensor e l ∷ []) ≡ (owns_map a xs || (a == e))
  owns_map-append [] = ground arith
  owns_map-append (x ∷ xs) = ground (arith, owns_map-append xs)

  pub owns_list-append :
      (xs : List Sensor) → owns_list a (xs ++ new_sensor e l ∷ []) ≡ (owns_list a xs || (a == l))
  owns_list-append [] = ground arith
  owns_list-append (x ∷ xs) = ground (arith, owns_list-append xs)

  pub owns_node-append :
      (xs : List Sensor) → owns_node a (xs ++ new_sensor e l ∷ []) ≡ owns_node a xs
  owns_node-append [] = refl
  owns_node-append (x ∷ xs) = rw (owns_node-append xs) refl

  pub owns_data-append :
      (xs : List Sensor) → owns_data a (xs ++ new_sensor e l ∷ []) ≡ owns_data a xs
  owns_data-append [] = refl
  owns_data-append (x ∷ xs) = rw (owns_data-append xs) refl

Apart-append :
    (e l : Ptr) (x : Sensor) (xs : List Sensor)
    → x.element ≢ e
    → x.list ≢ l
    → Apart x xs
    → Apart x (xs ++ new_sensor e l ∷ [])
Apart-append e l x xs ne_e ne_l apart = record {
  maps = ground (arith, owns_map-append x.element e l xs, apart.maps);
  lists = ground (arith, owns_list-append x.list e l xs, apart.lists);
  nodes = λ a on. owns_node-append a e l xs ∙ apart.nodes a on;
  data_blocks = λ a on. owns_data-append a e l xs ∙ apart.data_blocks a on;
}

module _ {V : Type 0} (machine : Machine V) (s : MapStore V) (e l : Ptr) where
  pub Owned-append :
      (xs : List Sensor)
      → owns_map e xs ≡ false
      → owns_list l xs ≡ false
      → Owned machine s xs
      → Holds machine s (new_sensor e l)
      → Owned machine s (xs ++ new_sensor e l ∷ [])
  Owned-append [] off_e off_l owned new = (
    new,
    record { maps = refl; lists = refl; nodes = λ a on. refl; data_blocks = λ a on. refl },
    tt,
  )
  Owned-append (x ∷ xs) off_e off_l (held, apart, owned) new = (
    held,
    Apart-append e l x xs (λ same. ground arith) (λ same. ground arith) apart,
    Owned-append xs (ground arith) (ground arith) owned new,
  )

  pub Stored-append :
      (xs : List Sensor) (ms : Maps V) (n : SensorMap V)
      → Stored s xs ms
      → s.maps e ≡ some (block_of n l)
      → n.readings ≡ []
      → Stored s (xs ++ new_sensor e l ∷ []) (ms ++ n ∷ [])
  Stored-append [] [] n stored at empty = (at, rw empty tt, tt)
  Stored-append [] (m ∷ ms) n stored at empty = absurd stored
  Stored-append (x ∷ xs) [] n stored at empty = absurd stored
  Stored-append (x ∷ xs) (m ∷ ms) n (block_at, contents, stored) at empty =
      (block_at, contents, Stored-append xs ms n stored at empty)

pub Elements-append :
    (p e l : Ptr) (cs : Cells) (xs : List Sensor)
    → Elements cs xs
    → Elements (cs ++ (p, e) ∷ []) (xs ++ new_sensor e l ∷ [])
Elements-append p e l [] [] el = (refl, tt)
Elements-append p e l [] (x ∷ xs) el = absurd el
Elements-append p e l (c ∷ cs) [] el = absurd el
Elements-append p e l (c ∷ cs) (x ∷ xs) (same, el) = (same, Elements-append p e l cs xs el)

pub Bounded-append :
    {V : Type 0} (ms : Maps V) (n : SensorMap V)
    → Bounded ms
    → length n.readings ≤ run_avg_length
    → Bounded (ms ++ n ∷ [])
unfolding Bounded
Bounded-append [] n bounded short = (short, tt)
Bounded-append (m ∷ ms) n (fits, bounded) short = (fits, Bounded-append ms n bounded short)

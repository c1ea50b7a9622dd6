-- ===== src/Datamgr/Store/Tests.antt =====
-- datamgr.c: runs in memory, on a list of one sensor with two readings.
use osc_final_lab.Common.{
  ℕ, ◌≡◌, refl, none, some, List, [], ◌∷◌, arith, Returns, pos, ltb, ◌==◌, if◌then◌else◌,
}
use osc_final_lab.Config.{SensorData}
use osc_final_lab.Datamgr.{Maps, insert_data_point}
use osc_final_lab.Datamgr.Readings.{Bounded}
use osc_final_lab.Datamgr.Store.Points.{insert_point}
use osc_final_lab.Datamgr.Store.Points.DataPoint.{
  Represents, IsPoint, Tight, insert_point-insert_data_point,
}
use osc_final_lab.Datamgr.Store.Rounds.{with_point}
use osc_final_lab.Datamgr.Store.Rounds.Following.{Represents-other}
use osc_final_lab.Dplist.Memory.{null, Mem}
use osc_final_lab.Datamgr.Store.{DataStore, MapStore, Machine, data_callbacks, map_callbacks}
use osc_final_lab.Datamgr.Store.Owned.{Sensor, Owned}

abbrev machine : Machine ℕ
machine = record {
  malloc_data = λ h. 900;
  malloc_map = λ s. 800;
  is_less = ltb;
  is_equal = λ a b. a == b;
}

abbrev blocks : DataStore ℕ
blocks a =
    if a == 500
    then some (record { id = 15; value = 18; ts = pos 1 })
    else if a == 501
    then some (record { id = 15; value = 19; ts = pos 2 })
    else none

abbrev readings : Mem (DataStore ℕ)
readings = record {
  nodes = λ a.
      if a == 50
      then some (record { prev = null; next = 51; element = 500 })
      else if a == 51
      then some (record { prev = 50; next = null; element = 501 })
      else none;
  lists =
      λ a. if a == 5 then some (record { head = 50; callbacks = data_callbacks machine }) else none;
  elems = blocks;
}

abbrev store : MapStore ℕ
store = record {
  maps = λ a.
      if a == 100
      then some (record { sensor_id = 15; room_id = 1; readings = 5; last_modified = pos 2 })
      else none;
  inner = readings;
}

abbrev memory : Mem (MapStore ℕ)
memory = record {
  nodes = λ a. if a == 10 then some (record { prev = null; next = null; element = 100 }) else none;
  lists =
      λ a. if a == 1 then some (record { head = 10; callbacks = map_callbacks machine }) else none;
  elems = store;
}

abbrev sensors : List Sensor
sensors = record { element = 100; list = 5; cells = (50, 500) ∷ (51, 501) ∷ [] } ∷ []

sensors-Owned : Owned machine store sensors
sensors-Owned = (
  record {
    not_null = omega arith;
    block = _;
    block_at = refl;
    same_list = refl;
    head = 50;
    is_list = record {
      not_null = omega arith;
      struct_at = refl;
      head_first = refl;
      chain = (omega arith, refl, refl, (omega arith, refl, refl, tt));
    };
    fits = omega arith;
    allocated = (omega arith, refl, (_, refl), (omega arith, refl, (_, refl), tt));
  },
  record { maps = refl; lists = refl; nodes = λ a on. refl; data_blocks = λ a on. refl },
  tt,
)

-- The same sensor, and a data point at the address 700.
abbrev point : SensorData ℕ
point = record { id = 15; value = 20; ts = pos 3 }

abbrev with_point_700 : Mem (MapStore ℕ)
with_point_700 = with_point 700 point memory

abbrev sensor_15 : Maps ℕ
sensor_15 =
    record {
      sensor_id = 15;
      room_id = 1;
      readings =
          record { id = 15; value = 18; ts = pos 1 }
          ∷ record { id = 15; value = 19; ts = pos 2 }
          ∷ [];
      last_modified = pos 2;
    }
    ∷ []

with_point-Represents : Represents machine with_point_700 1 ((10, 100) ∷ []) sensors sensor_15
unfolding Bounded
with_point-Represents =
    Represents-other machine memory 1 ((10, 100) ∷ []) sensors sensor_15 700 (some point)
      (record {
        head = 10;
        is_list = record {
          not_null = omega arith;
          struct_at = refl;
          head_first = refl;
          chain = (omega arith, refl, refl, tt);
        };
        fits = omega arith;
        elements = (refl, tt);
        owned = sensors-Owned;
        stored = (refl, (refl, (refl, tt)), tt);
        bounded = (omega arith, tt);
      })
      refl

insert_point-insert_data_point_example :
    Returns
      (λ log g.
        (log ≡ (insert_data_point (pos 9) point sensor_15).1)
        × (ys : List Sensor) × Represents machine g 1
            ((10, 100) ∷ [])
            ys
            (insert_data_point (pos 9) point sensor_15).0
        × IsPoint g 700 point ys
        × Tight g 1 700 ((10, 100) ∷ []) ys)
      (insert_point 60 (pos 9) 1 700 with_point_700)
insert_point-insert_data_point_example =
    insert_point-insert_data_point machine with_point_700 60 1 700 (pos 9) point ((10, 100) ∷ [])
      sensors sensor_15 with_point-Represents
      (record { not_null = omega arith; holds_it = refl; apart = refl })
      (record {
        nodes = λ a off. ground arith;
        lists = λ a ne. ground arith;
        maps = λ a off. ground arith;
        inner_lists = λ a off. ground arith;
        inner_nodes = λ a off. ground arith;
        data_blocks = λ a off ne. ground arith;
      })
      (record { now = (omega arith, refl); later = λ e. (omega arith, ground arith) })
      (omega arith, refl)

-- ===== src/Datamgr/Store/Rounds/Following.antt =====
-- datamgr.c: the loop of `datamgr_init` in memory beside the one on the abstract lists.
use osc_final_lab.Common.{
  ◌≡◌, refl, false, Option, some, List, [], ◌∷◌, map, arith, Returns, returns, Returns-bind, ok,
  Run, ℤ,
}
use osc_final_lab.Config.{SensorData}
use osc_final_lab.Sbuffer.{Status, success, failure, no_data}
use osc_final_lab.Dplist.Memory.{Ptr, Mem, update}
use osc_final_lab.Dplist.Chain.{Cells}
use osc_final_lab.Datamgr.{Values, Message, Maps, insert_data_point, handle_reading, peek_loop}
use osc_final_lab.Datamgr.Store.{MapStore, Machine}
use osc_final_lab.Datamgr.Store.Owned.{Sensor, owns_data}
use osc_final_lab.Datamgr.Store.Agreeing.{Agrees, Owned-Agrees, Stored-Agrees}
use osc_final_lab.Datamgr.Store.Points.Evicting.{Fresh, Mallocs}
use osc_final_lab.Datamgr.Store.Points.Changing.{ne_of_owned}
use osc_final_lab.Datamgr.Store.Points.Access.{load_data-some}
use osc_final_lab.Datamgr.Store.Points.DataPoint.{
  Represents, IsPoint, Tight, insert_point-insert_data_point,
}
use osc_final_lab.Datamgr.Store.Averages.Reading.{average_sensor-calculate_average_sensor}
use osc_final_lab.Datamgr.Store.Rounds.{Round, with_point, write_point, point_round, peek_points}

-- What the abstract loop gets of a round.
abbrev pub result_of : {V : Type 0} → Round V → ℤ × Status V
result_of (fresh, now, status) = (now, status)

pub Returns-with :
    {S A : Type 0} {P : A → S → Type 0} {r : Run S A}
    → Returns P r
    → Returns (λ a s. P a s × (r ≡ ok a s)) r
Returns-with (returns p) = returns (p, refl)

module _ {V : Type 0} (machine : Machine V) where
  -- A block that no sensor owns can be written or freed.
  pub Represents-other :
      (m : Mem (MapStore V)) (list : Ptr) (cs : Cells) (xs : List Sensor) (ms : Maps V) (p : Ptr)
      (o : Option (SensorData V))
      → Represents machine m list cs xs ms
      → owns_data p xs ≡ false
      → Represents machine
          (record m {
            elems = record m.elems {
              inner = record m.elems.inner { elems = update m.elems.inner.elems p o };
            };
          })
          list
          cs
          xs
          ms
  Represents-other m list cs xs ms p o rep off =
      let s' : MapStore V = record m.elems {
        inner = record m.elems.inner { elems = update m.elems.inner.elems p o };
      } in
      let agrees : Agrees m.elems xs s' = record {
        maps = λ a on. refl;
        lists = λ a on. refl;
        nodes = λ a on. refl;
        data_blocks = λ a on. ground (arith, ne_of_owned (λ q. owns_data q xs) a p on off);
      } in
      record {
        head = rep.head;
        is_list = record {
          not_null = rep.is_list.not_null;
          struct_at = rep.is_list.struct_at;
          head_first = rep.is_list.head_first;
          chain = rep.is_list.chain;
        };
        fits = rep.fits;
        elements = rep.elements;
        owned = Owned-Agrees m.elems s' machine xs agrees rep.owned;
        stored = Stored-Agrees m.elems s' xs ms agrees rep.stored;
        bounded = rep.bounded;
      }

  pub Tight-other :
      (m : Mem (MapStore V)) (list p : Ptr) (cs : Cells) (xs : List Sensor)
      (o : Option (SensorData V))
      → Tight m list p cs xs
      → Tight
          (record m {
            elems = record m.elems {
              inner = record m.elems.inner { elems = update m.elems.inner.elems p o };
            };
          })
          list
          p
          cs
          xs
  Tight-other m list p cs xs o tight = record {
    nodes = tight.nodes;
    lists = tight.lists;
    maps = tight.maps;
    inner_lists = tight.inner_lists;
    inner_nodes = tight.inner_nodes;
    data_blocks = λ a off ne. ground (arith, tight.data_blocks a off ne);
  }

  module _ (values : Values V) (list data_ptr : Ptr) where
    -- In each round `malloc` returns addresses of free blocks.
    abbrev pub Roomy : List (Round V) → Mem (MapStore V) → Type 0
    Roomy [] m = Unit {0}
    Roomy ((fresh, now, success x) ∷ rounds) m =
        Mallocs machine (update m.elems.inner.elems data_ptr (some x))
        × Fresh m.elems.inner.nodes fresh
        × ((log : List (Message V)) (g : Mem (MapStore V))
            → point_round values list data_ptr fresh now x m ≡ ok log g
            → Roomy rounds g)
    Roomy ((fresh, now, failure) ∷ rounds) m = Unit {0}
    Roomy ((fresh, now, no_data) ∷ rounds) m = Unit {0}

  module _ (values : Values V) (list data_ptr : Ptr) (cs : Cells) where
    -- The nodes represent `ms`, there is a block for the data point, and nothing else is allocated.
    pub record Ready (ms : Maps V) (m : Mem (MapStore V)) : Type 0 where
      pub sensors : List Sensor
      pub represents : Represents machine m list cs sensors ms
      pub old_point : SensorData V
      pub is_point : IsPoint m data_ptr old_point sensors
      pub tight : Tight m list data_ptr cs sensors

    point_round-handle_reading :
        (fresh : Ptr) (now : ℤ) (x : SensorData V) (ms : Maps V) (m : Mem (MapStore V))
        → Ready ms m
        → Mallocs machine (update m.elems.inner.elems data_ptr (some x))
        → Fresh m.elems.inner.nodes fresh
        → Returns
            (λ log g.
              (log ≡ (handle_reading values now x ms).1)
              × Ready (handle_reading values now x ms).0 g)
            (point_round values list data_ptr fresh now x m)
    unfolding point_round write_point handle_reading
    point_round-handle_reading fresh now x ms m ready mallocs room =
        let m1 = with_point data_ptr x m in
        rw
          (load_data-some m data_ptr {x = ready.old_point} ready.is_point.not_null
            ready.is_point.holds_it)
          (Returns-bind
            (insert_point-insert_data_point machine m1 fresh list data_ptr now x cs ready.sensors ms
              (Represents-other m list cs ready.sensors ms data_ptr (some x) ready.represents
                ready.is_point.apart)
              (record {
                not_null = ready.is_point.not_null;
                holds_it = ground arith;
                apart = ready.is_point.apart;
              })
              (Tight-other m list data_ptr cs ready.sensors (some x) ready.tight) mallocs room)
            λ log g (same, ys, rep, point, tight).
              rw
                (
                  same,
                  load_data-some g data_ptr {x = x} point.not_null point.holds_it,
                  average_sensor-calculate_average_sensor values machine g x.id list cs ys
                      (insert_data_point now x ms).0 rep,
                )
                (returns (
                  refl,
                  record {
                    sensors = ys;
                    represents = rep;
                    old_point = x;
                    is_point = point;
                    tight = tight;
                  },
                )))

    -- If the nodes and blocks represent the sensors `ms`, there is a block for `*data_ptr` that no
    -- sensor owns, and `malloc` returns addresses of free blocks in each round, then the loop of
    -- `datamgr_init` does not fault, whatever `sbuffer_peek` returns: it writes the messages that
    -- `peek_loop` gives, and the same nodes then represent the sensors that `peek_loop` gives.
    pub peek_points-peek_loop :
        (rounds : List (Round V)) (ms : Maps V) (m : Mem (MapStore V))
        → Ready ms m
        → Roomy values list data_ptr rounds m
        → Returns
            (λ log g.
              (log ≡ (peek_loop values (map result_of rounds) ms).1)
              × Ready (peek_loop values (map result_of rounds) ms).0 g)
            (peek_points values list data_ptr rounds m)
    unfolding peek_points peek_loop
    peek_points-peek_loop [] ms m ready roomy = returns (refl, ready)
    peek_points-peek_loop ((fresh, now, failure) ∷ rounds) ms m ready roomy = returns (refl, ready)
    peek_points-peek_loop ((fresh, now, no_data) ∷ rounds) ms m ready roomy = returns (refl, ready)
    peek_points-peek_loop ((fresh, now, success x) ∷ rounds) ms m ready (mallocs, room, after) =
        Returns-bind (Returns-with (point_round-handle_reading fresh now x ms m ready mallocs room))
          λ log g ((same, ready'), run).
            Returns-bind
              (peek_points-peek_loop rounds (handle_reading values now x ms).0 g ready'
                (after log g run))
              λ later h (same', ready''). returns (rw (same, same') refl, ready'')

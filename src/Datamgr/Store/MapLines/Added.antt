-- ===== src/Datamgr/Store/MapLines/Added.antt =====
-- datamgr.c: one round of `insert_mappings` in memory beside the abstract one.
use osc_final_lab.Common.{
  suc, ◌≡◌, ◌≢◌, refl, sym, ap, ◌∙◌, true, false, none, some, List, [], ◌∷◌, ◌++◌, length, ◌==◌,
  arith, ◌≤◌, Returns, Returns-mono, pos, ==_of_ne, length-append,
}
use mathlib.Core.Path.{subst}
use osc_final_lab.Dplist.Spec.{insert_at, insert_at-append}
use osc_final_lab.Dplist.Memory.{Ptr, null, Mem, update}
use osc_final_lab.Dplist.Chain.{Cells, first, has, IsList}
use osc_final_lab.Dplist.Read.{dpl_size-length}
use osc_final_lab.Dplist.RoundTrip.{dpl_create-ok}
use osc_final_lab.Dplist.InsertAt.{Inserted, dpl_insert_at_index-insert_at}
use osc_final_lab.Dplist.{int_max, dpl_create}
use osc_final_lab.Datamgr.{SensorMap, Maps}
use osc_final_lab.Datamgr.Store.{
  MapBlock, MapStore, Machine, data_callbacks, map_callbacks, sensor_map_copy,
}
use osc_final_lab.Datamgr.Store.Owned.{Sensor, owns_map, owns_list, Holds, Owned}
use osc_final_lab.Datamgr.Store.Freeing.{load-some}
use osc_final_lab.Datamgr.Store.Agreeing.{Agrees, Owned-Agrees, Stored-Agrees}
use osc_final_lab.Datamgr.Store.Points.Evicting.{Fresh}
use osc_final_lab.Datamgr.Store.Points.Updating.{both_false, off_either}
use osc_final_lab.Datamgr.Store.Contents.{has-append}
use osc_final_lab.Datamgr.Store.Points.Changing.{ne_of_owned}
use osc_final_lab.Datamgr.Store.Points.Access.{within-ok}
use osc_final_lab.Datamgr.Store.Points.DataPoint.{Represents}
use osc_final_lab.Datamgr.Store.MapLines.{MapLine, dummy_block, put_dummy, add_mapping}
use osc_final_lab.Datamgr.Store.MapLines.Adding.{
  new_sensor, owns_map-append, owns_list-append, Owned-append, Stored-append, Elements-append,
  Bounded-append,
}

-- The abstract element of a line.
abbrev pub entry_of : {V : Type 0} → MapLine → SensorMap V
entry_of l = record { sensor_id = l.sensor; room_id = l.room; readings = []; last_modified = l.now }

module _ {V : Type 0} (machine : Machine V) where
  -- The nodes represent `ms`, there are no readings yet, and nothing but `dummy` is allocated
  -- besides.
  pub record Mapped (m : Mem (MapStore V)) (dummy list : Ptr) (cs : Cells) (xs : List Sensor)
      (ms : Maps V) : Type 0 where
    pub represents : Represents machine m list cs xs ms
    pub dummy_apart : owns_map dummy xs ≡ false
    pub nodes : (a : Ptr) → has a cs ≡ false → m.nodes a ≡ none
    pub lists : (a : Ptr) → a ≢ list → m.lists a ≡ none
    pub maps : (a : Ptr) → owns_map a xs ≡ false → a ≢ dummy → m.elems.maps a ≡ none
    pub inner_lists : (a : Ptr) → owns_list a xs ≡ false → m.elems.inner.lists a ≡ none
    pub inner_nodes : (a : Ptr) → m.elems.inner.nodes a ≡ none
    pub data_blocks : (a : Ptr) → m.elems.inner.elems a ≡ none

  owns_map-eq-false_of_none :
      (s : MapStore V) (xs : List Sensor) (a : Ptr)
      → Owned machine s xs
      → s.maps a ≡ none
      → owns_map a xs ≡ false
  owns_map-eq-false_of_none s [] a owned unused = refl
  owns_map-eq-false_of_none s (x ∷ xs) a (held, apart, owned) unused =
      ground (arith, held.block_at, owns_map-eq-false_of_none s xs a owned unused)

  owns_list-eq-false_of_none :
      (s : MapStore V) (xs : List Sensor) (a : Ptr)
      → Owned machine s xs
      → s.inner.lists a ≡ none
      → owns_list a xs ≡ false
  owns_list-eq-false_of_none s [] a owned unused = refl
  owns_list-eq-false_of_none s (x ∷ xs) a (held, apart, owned) unused =
      ground (arith, held.is_list.struct_at, owns_list-eq-false_of_none s xs a owned unused)

  sensor_map_copy-some :
      (s : MapStore V) (fresh e : Ptr) {b : MapBlock}
      → e ≢ null
      → s.maps e ≡ some b
      → fresh ≢ null
      → sensor_map_copy fresh e s ≡ some (fresh, record s { maps = update s.maps fresh (some b) })
  unfolding sensor_map_copy
  sensor_map_copy-some s fresh e ne at fresh_ne =
      rw (sensor_map_copy, load-some s.maps e ne at, ==_of_ne fresh null fresh_ne)

  -- The memory of the sensors when the new element is copied.
  abbrev pub before_copy : Ptr → MapLine → MapStore V → MapStore V
  before_copy dummy l s = record {
    maps = update s.maps dummy (some (dummy_block l l.fresh_list));
    inner = record s.inner {
      lists =
          update s.inner.lists l.fresh_list
            (some (record { head = null; callbacks = data_callbacks machine }));
    };
  }

  -- The addresses from `malloc` are those of free blocks.
  pub record LineRoom (dummy : Ptr) (l : MapLine) (m : Mem (MapStore V)) : Type 0 where
    pub node : Fresh m.nodes l.fresh_node
    pub list : Fresh m.elems.inner.lists l.fresh_list
    pub element :
        Fresh (before_copy dummy l m.elems).maps (machine.malloc_map (before_copy dummy l m.elems))

  -- The memory of the sensors when the new element is at `q`.
  abbrev pub after_copy : Ptr → MapLine → Ptr → MapStore V → MapStore V
  after_copy dummy l q s = record (before_copy dummy l s) {
    maps = update (before_copy dummy l s).maps q (some (dummy_block l l.fresh_list));
  }

  module _ (m : Mem (MapStore V)) (dummy list : Ptr) (l : MapLine) (cs : Cells) (xs : List Sensor)
      (ms : Maps V) (mapped : Mapped m dummy list cs xs ms) (q : Ptr)
      (q_room : Fresh (before_copy dummy l m.elems).maps q)
      (list_room : Fresh m.elems.inner.lists l.fresh_list) where
    q_free : m.elems.maps q ≡ none
    q_free = ground (arith, q_room.1)

    q_ne_dummy : q ≢ dummy
    q_ne_dummy same = ground (arith, q_room.1)

    q_apart : owns_map q xs ≡ false
    q_apart = owns_map-eq-false_of_none m.elems xs q mapped.represents.owned q_free

    list_apart : owns_list l.fresh_list xs ≡ false
    list_apart =
        owns_list-eq-false_of_none m.elems xs l.fresh_list mapped.represents.owned list_room.1

    Agrees-copy : Agrees m.elems xs (after_copy dummy l q m.elems)
    Agrees-copy = record {
      maps = λ a on. ground (
        arith,
        ne_of_owned (λ p. owns_map p xs) a q on q_apart,
        ne_of_owned (λ p. owns_map p xs) a dummy on mapped.dummy_apart,
      );
      lists =
          λ a on. ground (arith, ne_of_owned (λ p. owns_list p xs) a l.fresh_list on list_apart);
      nodes = λ a on. refl;
      data_blocks = λ a on. refl;
    }

    Holds-copy : Holds machine (after_copy dummy l q m.elems) (new_sensor q l.fresh_list)
    Holds-copy = record {
      not_null = q_room.0;
      block = dummy_block l l.fresh_list;
      block_at = ground arith;
      same_list = refl;
      head = null;
      is_list = record {
        not_null = list_room.0;
        struct_at = ground arith;
        head_first = refl;
        chain = tt;
      };
      fits = omega arith;
      allocated = tt;
    }

    Mapped-append :
        (g : Mem (MapStore V))
        → suc (length cs) ≤ int_max
        → Inserted
            (record m { elems = before_copy dummy l m.elems })
            list
            (record { head = mapped.represents.head; callbacks = map_callbacks machine })
            cs
            (length cs)
            l.fresh_node
            q
            (after_copy dummy l q m.elems)
            g
        → Mapped g dummy list
            (cs ++ (l.fresh_node, q) ∷ [])
            (xs ++ new_sensor q l.fresh_list ∷ [])
            (ms ++ entry_of l ∷ [])
    Mapped-append g fits done =
        let rep = mapped.represents in
        let cs' : Cells = cs ++ (l.fresh_node, q) ∷ [] in
        let at_end : insert_at (length cs) (l.fresh_node, q) cs ≡ cs' =
          insert_at-append (length cs) (l.fresh_node, q) cs (omega arith) in
        record {
          represents = record {
            head = first cs';
            is_list =
                subst
                  (λ z.
                    IsList g list (record { head = first z; callbacks = map_callbacks machine }) z)
                  at_end done.is_list;
            fits = omega (arith, length-append cs ((l.fresh_node, q) ∷ []));
            elements = Elements-append l.fresh_node q l.fresh_list cs xs rep.elements;
            owned = rw done.elems (
                Owned-append machine (after_copy dummy l q m.elems) q l.fresh_list xs q_apart
                  list_apart
                  (Owned-Agrees m.elems (after_copy dummy l q m.elems) machine xs Agrees-copy
                    rep.owned)
                  Holds-copy);
            stored = rw done.elems (
                Stored-append machine (after_copy dummy l q m.elems) q l.fresh_list xs ms
                  (entry_of l)
                  (Stored-Agrees m.elems (after_copy dummy l q m.elems) xs ms Agrees-copy
                    rep.stored)
                  (ground arith) refl);
            bounded = Bounded-append ms (entry_of l) rep.bounded (omega arith);
          };
          dummy_apart =
              ground
                (arith, owns_map-append dummy q l.fresh_list xs, mapped.dummy_apart, q_ne_dummy);
          nodes = λ a off.
              let off' = sym (has-append a l.fresh_node q cs) ∙ off in
              done.outside a (off_either a l.fresh_node q cs off')
              ∙ mapped.nodes a (both_false _ _ off').0;
          lists = λ a ne. done.other_lists a ne ∙ mapped.lists a ne;
          maps = λ a off ne.
              let (off_xs, off_q) =
                both_false (owns_map a xs) (a == q)
                  (sym (owns_map-append a q l.fresh_list xs) ∙ off) in
              ap (λ s. s.maps a) done.elems ∙ ground (arith, mapped.maps a off_xs ne);
          inner_lists = λ a off.
              let (off_xs, off_l) =
                both_false (owns_list a xs) (a == l.fresh_list)
                  (sym (owns_list-append a q l.fresh_list xs) ∙ off) in
              ap (λ s. s.inner.lists a) done.elems ∙ ground (arith, mapped.inner_lists a off_xs);
          inner_nodes = λ a. ap (λ s. s.inner.nodes a) done.elems ∙ mapped.inner_nodes a;
          data_blocks = λ a. ap (λ s. s.inner.elems a) done.elems ∙ mapped.data_blocks a;
        }

  -- After a round the sensors are those that the abstract loop gives.
  pub add_mapping-Mapped :
      (m : Mem (MapStore V)) (dummy list : Ptr) (l : MapLine) (cs : Cells) (xs : List Sensor)
      (ms : Maps V)
      → dummy ≢ null
      → Mapped m dummy list cs xs ms
      → LineRoom dummy l m
      → suc (length cs) ≤ int_max
      → Returns
          (λ r g.
            (r ≡ list)
            × (ws : Cells) × (ys : List Sensor) × Mapped g dummy list ws ys (ms ++ entry_of l ∷ [])
            × (length ws ≡ suc (length cs)))
          (add_mapping machine dummy list l m)
  unfolding add_mapping put_dummy
  add_mapping-Mapped m dummy list l cs xs ms dummy_ne mapped room fits =
      let rep = mapped.represents in
      let m1 : Mem (MapStore V) = record m { elems = before_copy dummy l m.elems } in
      let q : Ptr = machine.malloc_map (before_copy dummy l m.elems) in
      let is1 : IsList m1 list (record { head = rep.head; callbacks = map_callbacks machine }) cs =
        record {
          not_null = rep.is_list.not_null;
          struct_at = rep.is_list.struct_at;
          head_first = rep.is_list.head_first;
          chain = rep.is_list.chain;
        } in
      rw
        (
          within-ok m (dpl_create l.fresh_list (data_callbacks machine))
              (dpl_create-ok m.elems.inner l.fresh_list (data_callbacks machine) room.list.0),
          dpl_size-length m1 list is1 rep.fits,
        )
        (Returns-mono
          (dpl_insert_at_index-insert_at m1 l.fresh_node list dummy q (pos (length cs))
            (after_copy dummy l q m.elems)
            (record { head = rep.head; callbacks = map_callbacks machine }) cs true room.node.0
            room.node.1 is1 rep.fits
            (sensor_map_copy-some (before_copy dummy l m.elems) q dummy dummy_ne (ground arith)
              room.element.0))
          λ r g (same, done). (
            same,
            cs ++ (l.fresh_node, q) ∷ [],
            xs ++ new_sensor q l.fresh_list ∷ [],
            Mapped-append m dummy list l cs xs ms mapped q room.element room.list g fits done,
            omega (arith, length-append cs ((l.fresh_node, q) ∷ [])),
          ))

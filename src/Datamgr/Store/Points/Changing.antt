-- ===== src/Datamgr/Store/Points/Changing.antt =====
-- datamgr.c: the sensors and the memory before and after a data point.
use osc_final_lab.Common.{
  ◌≡◌, ◌≢◌, ◌⊎◌, refl, sym, ap, ◌∙◌, Bool, true, false, ◌||◌, Option, none, some, List, [], ◌∷◌,
  arith, Bool-cases, inl, inr,
}
use osc_final_lab.Config.{SensorData}
use osc_final_lab.Dplist.Memory.{Ptr, null, Mem, update}
use osc_final_lab.Dplist.Chain.{has, has-eq-false_of_none}
use osc_final_lab.Dplist.Free.{true_ne_false}
use osc_final_lab.Datamgr.Store.{MapBlock, DataStore, MapStore, Machine}
use osc_final_lab.Datamgr.Store.Owned.{
  holds, Sensor, owns_map, owns_list, owns_node, owns_data, Holds, Apart, Owned,
}
use osc_final_lab.Datamgr.Store.Contents.{holds-eq-false_of_none}
use osc_final_lab.Datamgr.Store.Agreeing.{Agrees}
use osc_final_lab.Datamgr.Store.Points.Updating.{Updated, both_false}

-- From the sensors `xs` in `s` to `xs'` in `s'`: nothing else that was allocated has changed, and
-- what `xs'` own was owned by `xs` or free.
pub record Changed {V : Type 0} (s : MapStore V) (xs : List Sensor) (s' : MapStore V)
    (xs' : List Sensor) : Type 0 where
  pub maps : (a : Ptr) → owns_map a xs ≡ false → s'.maps a ≡ s.maps a
  pub lists : (a : Ptr) → owns_list a xs ≡ false → s'.inner.lists a ≡ s.inner.lists a
  pub nodes :
      (a : Ptr)
      → owns_node a xs ≡ false
      → s.inner.nodes a ≢ none
      → s'.inner.nodes a ≡ s.inner.nodes a
  pub data_blocks :
      (a : Ptr)
      → owns_data a xs ≡ false
      → s.inner.elems a ≢ none
      → s'.inner.elems a ≡ s.inner.elems a
  pub same_maps : (a : Ptr) → owns_map a xs' ≡ owns_map a xs
  pub same_lists : (a : Ptr) → owns_list a xs' ≡ owns_list a xs
  pub only_nodes :
      (a : Ptr) → owns_node a xs' ≡ true → (owns_node a xs ≡ true) ⊎ (s.inner.nodes a ≡ none)
  pub only_data :
      (a : Ptr) → owns_data a xs' ≡ true → (owns_data a xs ≡ true) ⊎ (s.inner.elems a ≡ none)
  pub tight_nodes :
      (a : Ptr)
      → (owns_node a xs ≡ false → s.inner.nodes a ≡ none)
      → owns_node a xs' ≡ false
      → s'.inner.nodes a ≡ none
  pub tight_data :
      (a : Ptr)
      → (owns_data a xs ≡ false → s.inner.elems a ≡ none)
      → owns_data a xs' ≡ false
      → s'.inner.elems a ≡ none

-- Where nothing stands is not an address with a property of what stands somewhere.
some_of_true : {A : Type 0} {o : Option A} {b : Bool} → b ≡ true → (o ≡ none → b ≡ false) → o ≢ none
some_of_true on off unused = absurd (true_ne_false (sym on ∙ off unused))

pub ne_of_owned : (f : Ptr → Bool) (a e : Ptr) → f a ≡ true → f e ≡ false → a ≢ e
ne_of_owned f a e on off same = absurd (true_ne_false (sym on ∙ ap f same ∙ off))

not_of_owned : {b c : Bool} → c ≡ true → (b ≡ true → c ≡ false) → b ≡ false
not_of_owned {b} on off = elim (Bool-cases b) [
  | inl on' ↦ absurd (true_ne_false (sym on ∙ off on'))
  | inr off' ↦ off'
]

pub false_of_either :
    {A : Type 0} {o : Option A} {b c : Bool}
    → (b ≡ true → (c ≡ true) ⊎ (o ≡ none))
    → c ≡ false
    → o ≢ none
    → b ≡ false
false_of_either {b} either off used = elim (Bool-cases b) [
  | inl on ↦ elim (either on) [
    | inl on' ↦ absurd (true_ne_false (sym on' ∙ off))
    | inr unused ↦ absurd (used unused)
  ]
  | inr off' ↦ off'
]

either_false : {b c : Bool} → b ≡ false → c ≡ false → (b || c) ≡ false
either_false {b} {c} l r = rw l r

-- Two alternatives side by side.
either_or :
    {P : Type 0} (b c c' : Bool)
    → (c ≡ true → (c' ≡ true) ⊎ P)
    → (b || c) ≡ true
    → ((b || c') ≡ true) ⊎ P
either_or true c c' either on = inl refl
either_or false c c' either on = either on

or_either :
    {P : Type 0} (b b' c : Bool)
    → (b ≡ true → (b' ≡ true) ⊎ P)
    → (b || c) ≡ true
    → ((b' || c) ≡ true) ⊎ P
or_either true b' c either on = elim (either refl) [ inl on' ↦ inl (rw on' refl) | inr p ↦ inr p ]
or_either false true c either on = inl refl
or_either false false c either on = inl on

module _ {V : Type 0} (machine : Machine V) (s : MapStore V) where
  node_of_Holds :
      (x : Sensor) (a : Ptr) → Holds machine s x → has a x.cells ≡ true → s.inner.nodes a ≢ none
  node_of_Holds x a held on =
      some_of_true on
        (λ unused. has-eq-false_of_none s.inner.nodes null a x.cells unused held.is_list.chain)

  data_of_Holds :
      (x : Sensor) (a : Ptr) → Holds machine s x → holds a x.cells ≡ true → s.inner.elems a ≢ none
  data_of_Holds x a held on =
      some_of_true on
        (λ unused. holds-eq-false_of_none s.inner.elems a x.cells unused held.allocated)

  owns_node-eq-false_of_none :
      (xs : List Sensor) (a : Ptr)
      → Owned machine s xs
      → s.inner.nodes a ≡ none
      → owns_node a xs ≡ false
  owns_node-eq-false_of_none [] a owned unused = refl
  owns_node-eq-false_of_none (x ∷ xs) a (held, apart, owned) unused =
      rw
        (
          has-eq-false_of_none s.inner.nodes null a x.cells unused held.is_list.chain,
          owns_node-eq-false_of_none xs a owned unused,
        )
        refl

  pub owns_data-eq-false_of_none :
      (xs : List Sensor) (a : Ptr)
      → Owned machine s xs
      → s.inner.elems a ≡ none
      → owns_data a xs ≡ false
  owns_data-eq-false_of_none [] a owned unused = refl
  owns_data-eq-false_of_none (x ∷ xs) a (held, apart, owned) unused =
      rw
        (
          holds-eq-false_of_none s.inner.elems a x.cells unused held.allocated,
          owns_data-eq-false_of_none xs a owned unused,
        )
        refl

  -- A sensor that is apart from the changed ones stays as it was, and apart.
  pub Agrees-Changed :
      (s' : MapStore V) (x : Sensor) (xs xs' : List Sensor)
      → Holds machine s x
      → Apart x xs
      → Changed s xs s' xs'
      → Agrees s (x ∷ []) s'
  Agrees-Changed s' x xs xs' held apart changed = record {
    maps = λ a on. changed.maps a (ground (arith, apart.maps));
    lists = λ a on. changed.lists a (ground (arith, apart.lists));
    nodes = λ a on.
        let on' : has a x.cells ≡ true = ground arith in
        changed.nodes a (apart.nodes a on') (node_of_Holds x a held on');
    data_blocks = λ a on.
        let on' : holds a x.cells ≡ true = ground arith in
        changed.data_blocks a (apart.data_blocks a on') (data_of_Holds x a held on');
  }

  pub Apart-Changed :
      (s' : MapStore V) (x : Sensor) (xs xs' : List Sensor)
      → Holds machine s x
      → Apart x xs
      → Changed s xs s' xs'
      → Apart x xs'
  Apart-Changed s' x xs xs' held apart changed = record {
    maps = changed.same_maps x.element ∙ apart.maps;
    lists = changed.same_lists x.list ∙ apart.lists;
    nodes = λ a on.
        false_of_either (changed.only_nodes a) (apart.nodes a on) (node_of_Holds x a held on);
    data_blocks = λ a on.
        false_of_either (changed.only_data a) (apart.data_blocks a on) (data_of_Holds x a held on);
  }

  pub Changed-cons :
      (s' : MapStore V) (x : Sensor) (xs xs' : List Sensor)
      → Changed s xs s' xs'
      → Changed s (x ∷ xs) s' (x ∷ xs')
  Changed-cons s' x xs xs' changed = record {
    maps = λ a off. changed.maps a (ground arith);
    lists = λ a off. changed.lists a (ground arith);
    nodes = λ a off. changed.nodes a (ground arith);
    data_blocks = λ a off. changed.data_blocks a (ground arith);
    same_maps = λ a. rw (changed.same_maps a) refl;
    same_lists = λ a. rw (changed.same_lists a) refl;
    only_nodes = λ a on.
        either_or (has a x.cells) (owns_node a xs') (owns_node a xs) (changed.only_nodes a) on;
    only_data = λ a on.
        either_or (holds a x.cells) (owns_data a xs') (owns_data a xs) (changed.only_data a) on;
    tight_nodes = λ a tight off.
        changed.tight_nodes a (λ o. tight (either_false (both_false _ _ off).0 o))
          (both_false _ _ off).1;
    tight_data = λ a tight off.
        changed.tight_data a (λ o. tight (either_false (both_false _ _ off).0 o))
          (both_false _ _ off).1;
  }

  module _ (x : Sensor) (xs : List Sensor) (b : MapBlock) (ys : List (SensorData V))
      (g : Mem (DataStore V)) (u : Updated machine s.inner x.list x.cells ys g) where
    -- The memory and the sensor after its readings have changed.
    abbrev pub changed_store : MapStore V
    changed_store = record { maps = update s.maps x.element (some b); inner = g }

    abbrev pub changed_sensor : Sensor
    changed_sensor = record x { cells = u.cells }

    pub Changed-here : Changed s (x ∷ xs) changed_store (changed_sensor ∷ xs)
    Changed-here = record {
      maps = λ a off. ground arith;
      lists = λ a off. u.lists a (ground arith);
      nodes = λ a off. u.nodes a (ground arith);
      data_blocks = λ a off. u.data_blocks a (ground arith);
      same_maps = λ a. refl;
      same_lists = λ a. refl;
      only_nodes =
          λ a on. or_either (has a u.cells) (has a x.cells) (owns_node a xs) (u.only_nodes a) on;
      only_data =
          λ a on. or_either (holds a u.cells) (holds a x.cells) (owns_data a xs) (u.only_data a) on;
      tight_nodes = λ a tight off.
          u.tight_nodes a (λ o. tight (either_false o (both_false _ _ off).1))
            (both_false _ _ off).0;
      tight_data = λ a tight off.
          u.tight_data a (λ o. tight (either_false o (both_false _ _ off).1))
            (both_false _ _ off).0;
    }

    pub Agrees-here : Apart x xs → Owned machine s xs → Agrees s xs changed_store
    Agrees-here apart owned = record {
      maps = λ a on. ground (arith, apart.maps, ne_of_owned (λ p. owns_map p xs) a x.element on);
      lists = λ a on. u.lists a (ne_of_owned (λ p. owns_list p xs) a x.list on apart.lists);
      nodes = λ a on.
          u.nodes a (not_of_owned on (apart.nodes a))
            (some_of_true on (owns_node-eq-false_of_none xs a owned));
      data_blocks = λ a on.
          u.data_blocks a (not_of_owned on (apart.data_blocks a))
            (some_of_true on (owns_data-eq-false_of_none xs a owned));
    }

    pub Apart-here : Apart x xs → Owned machine s xs → Apart changed_sensor xs
    Apart-here apart owned = record {
      maps = apart.maps;
      lists = apart.lists;
      nodes = λ a on. elim (u.only_nodes a on) [
        | inl on' ↦ apart.nodes a on'
        | inr unused ↦ owns_node-eq-false_of_none xs a owned unused
      ];
      data_blocks = λ a on. elim (u.only_data a on) [
        | inl on' ↦ apart.data_blocks a on'
        | inr unused ↦ owns_data-eq-false_of_none xs a owned unused
      ];
    }

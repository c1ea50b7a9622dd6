-- ===== src/Dplist/Free.antt =====
-- lib/dplist.c: `dpl_free` frees every node and the list itself.
use osc_final_lab.Common.{
  ℕ, zero, suc, ◌≤◌, ◌≡◌, ◌≢◌, refl, sym, ◌∙◌, ap, Bool, true, false, none, some, [], ◌∷◌, length,
  arith, ok, ◌==◌, Bool-cases, Returns, returns, Returns-mono, Returns-bind, ==_of_ne, pos, inl,
  inr,
}
use mathlib.Core.Path.{subst}
use native.Mathlib.Decide.{ℕ_discrete}
use osc_final_lab.Dplist.Spec.{remove_at, elem_at, length-remove_at}
use osc_final_lab.Dplist.Memory.{Ptr, null, Dplist, Mem}
use osc_final_lab.Dplist.Chain.{has, Cells, first, IsList, SameOutside}
use osc_final_lab.Dplist.Locate.{ref_at}
use osc_final_lab.Dplist.Unlink.{not-has-remove_at}
use osc_final_lab.Dplist.Access.{free_list-ok}
use osc_final_lab.Dplist.Read.{dpl_size-length}
use osc_final_lab.Dplist.Discard.{Released}
use osc_final_lab.Dplist.RemoveAt.{Removed}
use osc_final_lab.Dplist.Removal.{dpl_remove_at_index-remove_at}
use osc_final_lab.Dplist.{int_max, free_loop, dpl_free}

-- The callback is called on every element, from the last one to the first.
abbrev pub ReleasedAll : {S : Type 0} → Dplist S → Bool → Cells → S → S → Type 0
ReleasedAll d free_element [] s s' = s' ≡ s
ReleasedAll {S} d free_element ((p, e) ∷ cs) s s' =
    (t : S) × ReleasedAll d free_element cs s t × Released d free_element e t s'

Released_any_head :
    {S : Type 0} (d : Dplist S) (p : Ptr) (free_element : Bool) (cs : Cells) (s s' : S)
    → ReleasedAll d free_element cs s s'
    → ReleasedAll (record d { head = p }) free_element cs s s'
Released_any_head d p free_element [] s s' r = r
Released_any_head d p true ((q, e) ∷ cs) s s' (t, before, now) =
    (t, Released_any_head d p true cs s t before, now)
Released_any_head d p false ((q, e) ∷ cs) s s' (t, before, now) =
    (t, Released_any_head d p false cs s t before, now)

-- The last element is released first.
record Last {S : Type 0} (d : Dplist S) (free_element : Bool) (cs : Cells) (i : ℕ) (s s' : S)
    : Type 0 where
  element : Ptr
  next_elems : S
  is_last : elem_at i cs ≡ some (ref_at i cs, element)
  released : Released d free_element element s next_elems
  others : ReleasedAll d free_element (remove_at i cs) next_elems s'

ReleasedAll-Last :
    {S : Type 0} (d : Dplist S) (free_element : Bool) (c : Ptr × Ptr) (cs : Cells) (s s' : S)
    → ReleasedAll d free_element (c ∷ cs) s s'
    → Last d free_element (c ∷ cs) (length cs) s s'
unfolding elem_at ref_at remove_at
ReleasedAll-Last d free_element (p, e) [] s s' (t, before, now) = record {
  element = e;
  next_elems = s';
  is_last = refl;
  released = subst (λ x. Released d free_element e x s') before now;
  others = refl;
}
ReleasedAll-Last d free_element (p, e) (k ∷ cs) s s' (t, before, now) =
    let l = ReleasedAll-Last d free_element k cs s t before in
    record {
      element = l.element;
      next_elems = l.next_elems;
      is_last = l.is_last;
      released = l.released;
      others = (t, l.others, now);
    }

-- After the loop the list is empty, and its nodes are free.
record Emptied {S : Type 0} (m : Mem S) (list : Ptr) (d : Dplist S) (cs : Cells) (s : S) (g : Mem S)
    : Type 0 where
  is_list : IsList g list (record d { head = null }) []
  freed : (a : Ptr) → has a cs ≡ true → g.nodes a ≡ none
  outside : SameOutside cs m.nodes g.nodes
  other_lists : (a : Ptr) → a ≢ list → g.lists a ≡ m.lists a
  elems : g.elems ≡ s

pub true_ne_false : true ≡ false → ⊥
true_ne_false e = cc

-- What is on the chain and is not the removed node stays on it.
has-remove_at :
    (a : Ptr) (i : ℕ) (c : Ptr × Ptr) (cs : Cells)
    → has a (c ∷ cs) ≡ true
    → a ≢ ref_at i (c ∷ cs)
    → has a (remove_at i (c ∷ cs)) ≡ true
unfolding remove_at ref_at
has-remove_at a i (p, e) [] on ne = absurd (ground arith)
has-remove_at a zero (p, e) (k ∷ cs) on ne = ground arith
has-remove_at a (suc i) (p, e) (k ∷ cs) on ne = elim (Bool-cases (a == p)) [
  | inl here ↦ ground arith
  | inr there ↦ ground (arith, has-remove_at a i k cs)
]

module _ {S : Type 0} (list : Ptr) (free_element : Bool) where
  Emptied-after :
      (m g h : Mem S) (d : Dplist S) (c : Ptr × Ptr) (cs : Cells) (i : ℕ) {s t : S}
      → Removed m list d (c ∷ cs) i s g
      → Emptied g list (record d { head = first (remove_at i (c ∷ cs)) }) (remove_at i (c ∷ cs)) t h
      → Emptied m list d (c ∷ cs) t h
  Emptied-after m g h d c cs i r e = record {
    is_list = e.is_list;
    freed = λ a on. elim (Bool-cases (has a (remove_at i (c ∷ cs)))) [
      | inl still ↦ e.freed a still
      | inr off ↦ e.outside a off ∙ elim (ℕ_discrete a (ref_at i (c ∷ cs))) [
        | yes here ↦ rw here r.freed
        | no other ↦ absurd (true_ne_false (sym (has-remove_at a i c cs on other) ∙ off))
      ]
    ];
    outside = λ a o. e.outside a (not-has-remove_at a i (c ∷ cs) o) ∙ r.outside a o;
    other_lists = λ a x. e.other_lists a x ∙ r.other_lists a x;
    elems = e.elems;
  }

  free_loop-Emptied :
      (n : ℕ) (m : Mem S) (d : Dplist S) (cs : Cells) (s : S)
      → n ≡ length cs
      → IsList m list d cs
      → length cs ≤ int_max
      → ReleasedAll d free_element cs m.elems s
      → Returns (λ r g. (r ≡ list) × Emptied m list d cs s g) (free_loop n list free_element m)
  unfolding free_loop
  free_loop-Emptied zero m d [] s n is fits released = returns (
    refl,
    record {
      is_list = record {
        not_null = is.not_null;
        struct_at = is.struct_at ∙ ap (λ x. some (record d { head = x })) is.head_first;
        head_first = refl;
        chain = tt;
      };
      freed = λ a on. cc;
      outside = λ a o. refl;
      other_lists = λ a x. refl;
      elems = sym released;
    },
  )
  free_loop-Emptied zero m d (c ∷ cs) s n is fits released = absurd (omega arith)
  free_loop-Emptied (suc n) m d [] s e is fits released = absurd (omega arith)
  free_loop-Emptied (suc n) m d (c ∷ cs) s e is fits released =
      let count : n ≡ length cs = omega arith in
      let last : Last d free_element (c ∷ cs) n m.elems s =
        rw count (ReleasedAll-Last d free_element c cs m.elems s released) in
      let left : n ≡ length (remove_at n (c ∷ cs)) = omega (arith, length-remove_at n (c ∷ cs)) in
      Returns-bind
        (dpl_remove_at_index-remove_at m list d free_element c cs (pos n) last.element
          last.next_elems is fits last.is_last last.released)
        λ l g (same, r). rw same (
          Returns-mono
            (free_loop-Emptied n g (record d { head = first (remove_at n (c ∷ cs)) })
              (remove_at n (c ∷ cs)) s left r.is_list (omega arith)
              (Released_any_head d (first (remove_at n (c ∷ cs))) free_element
                (remove_at n (c ∷ cs)) g.elems s (rw r.elems last.others)))
            λ l' h (same', emptied). (same', Emptied-after m g h d c cs n r emptied))

  -- For a list of at most `int_max` nodes, and a free callback that succeeds on its elements from
  -- the last one to the first when they are to be freed, `dpl_free` returns without a fault,
  -- leaves NULL in `*list`, has freed the struct and every node, has released every element once,
  -- and has changed no other node and no other list.
  pub dpl_free-freed :
      (m : Mem S) (d : Dplist S) (cs : Cells) (s : S)
      → IsList m list d cs
      → length cs ≤ int_max
      → ReleasedAll d free_element cs m.elems s
      → Returns
          (λ r g.
            (r ≡ null)
            × (g.lists list ≡ none)
            × ((a : Ptr) → has a cs ≡ true → g.nodes a ≡ none)
            × SameOutside cs m.nodes g.nodes
            × ((a : Ptr) → a ≢ list → g.lists a ≡ m.lists a)
            × (g.elems ≡ s))
          (dpl_free list free_element m)
  unfolding dpl_free
  dpl_free-freed m d [] s is fits released =
      rw
        (
          ==_of_ne list null is.not_null,
          dpl_size-length m list is fits,
          free_list-ok m list is.not_null is.struct_at,
        )
        (returns (refl, ground arith, λ a on. cc, λ a o. refl, λ a x. ground arith, sym released))
  dpl_free-freed m d (c ∷ cs) s is fits released =
      rw
        (
          ==_of_ne list null is.not_null,
          dpl_size-length m list is fits,
          ==_of_ne (length (c ∷ cs)) 0 (omega arith),
        )
        (Returns-bind (free_loop-Emptied (length (c ∷ cs)) m d (c ∷ cs) s refl is fits released)
          λ l g (same, e).
            rw (same, free_list-ok g list is.not_null e.is_list.struct_at)
              (returns (
                refl,
                ground arith,
                e.freed,
                e.outside,
                λ a x. ground (arith, e.other_lists a x),
                e.elems,
              )))

  pub dpl_free-null : (m : Mem S) → dpl_free null free_element m ≡ ok null m
  unfolding dpl_free
  dpl_free-null m = refl

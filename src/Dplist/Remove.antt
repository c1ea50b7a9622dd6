-- ===== src/Dplist/Remove.antt =====
-- lib/dplist.c: the writes of `dpl_remove_at_index`.
use osc_final_lab.Common.{
  ◌≡◌, ◌≢◌, refl, true, false, Option, some, arith, ◌==◌, Bool-cases, Returns, returns, inl, inr,
}
use osc_final_lab.Dplist.Memory.{Ptr, null, Node, Mem, update}
use osc_final_lab.Dplist.Access.{set_next-ok, set_prev-ok}
use osc_final_lab.Dplist.{fix_neighbours}

-- The neighbours of `n` are linked to each other, and nothing else has changed.
pub record Bridged (h g : Ptr → Option Node) (gone : Ptr) (n : Node) : Type 0 where
  pub kept : g gone ≡ some n
  pub prev_is :
      (nl : Node)
      → n.prev ≢ null
      → h n.prev ≡ some nl
      → g n.prev ≡ some (record nl { next = n.next })
  pub next_is :
      (nr : Node)
      → n.next ≢ null
      → h n.next ≡ some nr
      → g n.next ≡ some (record nr { prev = n.prev })
  pub same : (a : Ptr) → (n.prev ≢ null → a ≢ n.prev) → (n.next ≢ null → a ≢ n.next) → g a ≡ h a

module _ {S : Type 0} (m : Mem S) (gone : Ptr) (n : Node) where
  abbrev pub Fixed : Unit {0} → Mem S → Type 0
  Fixed _ g = Bridged m.nodes g.nodes gone n × (g.lists ≡ m.lists) × (g.elems ≡ m.elems)

  module _ (at : m.nodes gone ≡ some n) (gp : gone ≢ n.prev) (gn : gone ≢ n.next) where
    fix_none :
        (n.prev == null) ≡ true → (n.next == null) ≡ true → Returns Fixed (fix_neighbours n m)
    unfolding fix_neighbours
    fix_none p0 n0 =
        rw (p0, n0)
          (returns (
            record {
              kept = at;
              prev_is = λ nl x h. absurd (ground arith);
              next_is = λ nr x h. absurd (ground arith);
              same = λ a x y. refl;
            },
            refl,
            refl,
          ))

    fix_next :
        (nr : Node)
        → m.nodes n.next ≡ some nr
        → (n.prev == null) ≡ true
        → (n.next == null) ≡ false
        → Returns Fixed (fix_neighbours n m)
    unfolding fix_neighbours
    fix_next nr hr p0 n1 =
        rw (p0, n1, set_prev-ok m n.next n.prev {n = nr} (ground arith) hr)
          (returns (
            record {
              kept = ground arith;
              prev_is = λ nl x h. absurd (ground arith);
              next_is = λ nr x h. ground arith;
              same = λ a x y. let z = y (ground arith) in ground arith;
            },
            refl,
            refl,
          ))

    fix_prev :
        (nl : Node)
        → m.nodes n.prev ≡ some nl
        → (n.prev == null) ≡ false
        → (n.next == null) ≡ true
        → Returns Fixed (fix_neighbours n m)
    unfolding fix_neighbours
    fix_prev nl hl p1 n0 =
        rw (p1, set_next-ok m n.prev n.next {n = nl} (ground arith) hl, n0)
          (returns (
            record {
              kept = ground arith;
              prev_is = λ nl x h. ground arith;
              next_is = λ nr x h. absurd (ground arith);
              same = λ a x y. let z = x (ground arith) in ground arith;
            },
            refl,
            refl,
          ))

    fix_both :
        (nl nr : Node)
        → m.nodes n.prev ≡ some nl
        → m.nodes n.next ≡ some nr
        → n.prev ≢ n.next
        → (n.prev == null) ≡ false
        → (n.next == null) ≡ false
        → Returns Fixed (fix_neighbours n m)
    unfolding fix_neighbours
    fix_both nl nr hl hr apart p1 n1 =
        let m1 : Mem S = record m {
          nodes = update m.nodes n.prev (some (record nl { next = n.next }));
        } in
        rw
          (
            p1,
            set_next-ok m n.prev n.next {n = nl} (ground arith) hl,
            n1,
            set_prev-ok m1 n.next n.prev {n = nr} (ground arith) (ground arith),
          )
          (returns (
            record {
              kept = ground arith;
              prev_is = λ nl x h. ground arith;
              next_is = λ nr x h. ground arith;
              same = λ a x y. let z = x (ground arith) in let w = y (ground arith) in ground arith;
            },
            refl,
            refl,
          ))

    pub fix_neighbours-Fixed :
        (n.prev ≢ null → n.prev ≢ n.next)
        → (n.prev ≢ null → (nl : Node) × (m.nodes n.prev ≡ some nl))
        → (n.next ≢ null → (nr : Node) × (m.nodes n.next ≡ some nr))
        → Returns Fixed (fix_neighbours n m)
    fix_neighbours-Fixed apart prev_holds next_holds = elim (Bool-cases (n.prev == null)) [
      | inl p0 ↦ elim (Bool-cases (n.next == null)) [
        | inl n0 ↦ fix_none p0 n0
        | inr n1 ↦ let (nr, hr) = next_holds (ground arith) in fix_next nr hr p0 n1
      ]
      | inr p1 ↦
          let (nl, hl) = prev_holds (ground arith) in
          elim (Bool-cases (n.next == null)) [
            | inl n0 ↦ fix_prev nl hl p1 n0
            | inr n1 ↦
                let (nr, hr) = next_holds (ground arith) in
                fix_both nl nr hl hr (apart (ground arith)) p1 n1
          ]
    ]

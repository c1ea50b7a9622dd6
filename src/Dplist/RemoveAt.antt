-- ===== src/Dplist/RemoveAt.antt =====
-- lib/dplist.c: `dpl_remove_at_index` is `remove_at` on the list that the nodes stand for.
use osc_final_lab.Common.{
  ℕ, zero, suc, ◌≤◌, ◌≡◌, ◌≢◌, refl, sym, ◌∙◌, ap, Bool, false, Option, none, some, [], ◌∷◌, length,
  arith, if◌then◌else◌, Returns, Returns-bind, Returns-mono, ==_of_ne, pos, inl, inr, eqb_ℤ,
}
use osc_final_lab.Dplist.Spec.{remove_at, elem_at}
use osc_final_lab.Dplist.Memory.{Ptr, null, Node, Dplist, Mem}
use osc_final_lab.Dplist.Chain.{has, has-null, Cells, first, Chain, IsList, SameOutside}
use osc_final_lab.Dplist.Locate.{ref_at, locate, Located, neighbours-apart, Chain-holds, ne_of_has}
use osc_final_lab.Dplist.Unlink.{not-has-remove_at, Unlinked, Chain-tail, Chain-remove_at}
use osc_final_lab.Dplist.Access.{load_node-ok}
use osc_final_lab.Dplist.Read.{dpl_get_reference_at_index-ref_at}
use osc_final_lab.Dplist.Remove.{Bridged, fix_neighbours-Fixed}
use osc_final_lab.Dplist.Discard.{Released, discard_node-Discarded}
use osc_final_lab.Dplist.{int_max, remove_node}

pub record Removed {S : Type 0} (m : Mem S) (list : Ptr) (d : Dplist S) (cs : Cells) (i : ℕ) (s : S)
    (g : Mem S) : Type 0 where
  pub is_list : IsList g list (record d { head = first (remove_at i cs) }) (remove_at i cs)
  pub freed : g.nodes (ref_at i cs) ≡ none
  pub outside : SameOutside cs m.nodes g.nodes
  pub other_lists : (a : Ptr) → a ≢ list → g.lists a ≡ m.lists a
  pub elems : g.elems ≡ s

-- Without the node at `i` the chain is `remove_at i` of what it was.
Chain-without :
    (h g : Ptr → Option Node) (c : Ptr × Ptr) (cs : Cells) (i : ℕ) {n : Node}
    → Chain h null (c ∷ cs)
    → Unlinked h g (ref_at i (c ∷ cs)) n
    → Chain g null (remove_at i (c ∷ cs))
unfolding remove_at ref_at
Chain-without h g c [] i chain u = tt
Chain-without h g (p, f) (k ∷ cs) zero chain u =
    Chain-tail u null p f (k ∷ cs) chain (has-null h null ((p, f) ∷ k ∷ cs) chain) refl
Chain-without h g (p, f) (k ∷ cs) (suc i) (ne, out, at, rest) u =
    let (tail, head) = Chain-remove_at u i null p f k cs ne at out rest refl in
    (ne, not-has-remove_at p i (k ∷ cs) out, head, tail)

-- The head after the removal of the node at `i`.
first-remove_at :
    (h : Ptr → Option Node) (c : Ptr × Ptr) (cs : Cells) (i : ℕ) {n : Node}
    → Chain h null (c ∷ cs)
    → i ≤ length cs
    → h (ref_at i (c ∷ cs)) ≡ some n
    → (if eqb_ℤ (pos i) (pos 0) then n.next else c.0) ≡ first (remove_at i (c ∷ cs))
unfolding remove_at ref_at
first-remove_at h (p, f) [] zero (ne, out, holds, rest) inside at = ground arith
first-remove_at h c [] (suc i) chain inside at = absurd (omega arith)
first-remove_at h (p, f) (k ∷ cs) zero (ne, out, holds, rest) inside at = ground arith
first-remove_at h c (k ∷ cs) (suc i) chain inside at = rw (==_of_ne (suc i) 0 (omega arith))

Bridged-Unlinked :
    (h g k : Ptr → Option Node) (gone : Ptr) (n : Node)
    → h gone ≡ some n
    → Bridged h g gone n
    → ((a : Ptr) → a ≢ gone → k a ≡ g a)
    → n.prev ≢ gone
    → n.next ≢ gone
    → Unlinked h k gone n
Bridged-Unlinked h g k gone n at b others pne nne = record {
  gone_was = at;
  prev_is = λ nl x y. others n.prev pne ∙ b.prev_is nl x y;
  next_is = λ nr x y. others n.next nne ∙ b.next_is nr x y;
  same = λ a x y z. others a x ∙ b.same a (λ _. y) (λ _. z);
}

module _ {S : Type 0} (m : Mem S) (list : Ptr) (d : Dplist S) (element : Ptr) (free_element : Bool)
    (s : S) where
  pub remove_node-Removed :
      (c : Ptr × Ptr) (cs : Cells) (i : ℕ)
      → IsList m list d (c ∷ cs)
      → length (c ∷ cs) ≤ int_max
      → i ≤ length cs
      → elem_at i (c ∷ cs) ≡ some (ref_at i (c ∷ cs), element)
      → Released d free_element element m.elems s
      → Returns
          (λ r g. (r ≡ list) × Removed m list d (c ∷ cs) i s g)
          (remove_node list (pos i) free_element m)
  unfolding remove_node
  remove_node-Removed c cs i is fits inside is_element released =
      rw
        (
          dpl_get_reference_at_index-ref_at m list (pos i) is fits,
          load_node-ok m gone l.ne_null l.holds,
        )
        (Returns-bind
          (fix_neighbours-Fixed m gone l.node l.holds (λ x. l.prev_ne (sym x)) apart.0 apart.1
            prev_holds next_holds)
          λ u g (bridged, lists, elems).
            Returns-mono
              (discard_node-Discarded list gone is.not_null l.ne_null l.node s g d (pos i)
                free_element (ap (λ x. x list) lists ∙ is.struct_at) bridged.kept
                (rw (element_is, elems) released))
              λ r h (same, e). (
                same,
                record {
                  is_list = record {
                    not_null = is.not_null;
                    struct_at = e.struct_at ∙ ap (λ x. some (record d { head = x })) head_is;
                    head_first = refl;
                    chain = Chain-without m.nodes h.nodes c cs i is.chain (
                        Bridged-Unlinked m.nodes g.nodes h.nodes gone l.node l.holds bridged
                          e.other_nodes (λ x. l.prev_ne x) (λ x. apart.0 (sym x)));
                  };
                  freed = e.freed;
                  outside = λ a o.
                      e.other_nodes a (ne_of_has (c ∷ cs) l.on_chain o)
                      ∙ bridged.same a (off_prev a o) (off_next a o);
                  other_lists = λ a x. e.other_lists a x ∙ ap (λ y. y a) lists;
                  elems = e.elems;
                },
              ))
    where
      none_before : has null (c ∷ cs) ≡ false
      none_before = has-null m.nodes null (c ∷ cs) is.chain

      l : Located m.nodes null (c ∷ cs) i
      l = locate m.nodes null c cs i is.chain none_before

      gone : Ptr
      gone = ref_at i (c ∷ cs)

      apart : (gone ≢ l.node.next) × (l.node.prev ≢ null → l.node.prev ≢ l.node.next)
      apart = neighbours-apart m.nodes null c cs i is.chain none_before l.holds

      prev_holds : l.node.prev ≢ null → (nl : Node) × (m.nodes l.node.prev ≡ some nl)
      prev_holds x = elim l.prev_on [
        | inl front ↦ absurd (x front)
        | inr i' ↦
            let (nl, ne, at) = Chain-holds m.nodes null l.node.prev (c ∷ cs) is.chain i' in (nl, at)
      ]

      next_holds : l.node.next ≢ null → (nr : Node) × (m.nodes l.node.next ≡ some nr)
      next_holds x = elim l.next_on [
        | inl back ↦ absurd (x back)
        | inr i' ↦
            let (nr, ne, at) = Chain-holds m.nodes null l.node.next (c ∷ cs) is.chain i' in (nr, at)
      ]

      element_is : l.node.element ≡ element
      element_is = ground (arith, l.cell)

      head_is :
          (if eqb_ℤ (pos i) (pos 0) then l.node.next else d.head) ≡ first (remove_at i (c ∷ cs))
      head_is = rw is.head_first (first-remove_at m.nodes c cs i is.chain inside l.holds)

      off_prev : (a : Ptr) → has a (c ∷ cs) ≡ false → l.node.prev ≢ null → a ≢ l.node.prev
      off_prev a o x = elim l.prev_on [
        | inl front ↦ absurd (x front)
        | inr i' ↦ ne_of_has (c ∷ cs) i' o
      ]

      off_next : (a : Ptr) → has a (c ∷ cs) ≡ false → l.node.next ≢ null → a ≢ l.node.next
      off_next a o x = elim l.next_on [
        | inl back ↦ absurd (x back)
        | inr i' ↦ ne_of_has (c ∷ cs) i' o
      ]

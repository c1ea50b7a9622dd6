-- ===== src/Dplist/Insert.antt =====
-- lib/dplist.c: `dpl_insert_at_index` is `insert_at` on the list that the nodes stand for.
use osc_final_lab.Common.{
  ℕ, suc, ◌≤◌, ◌<◌, ◌≡◌, ◌≢◌, refl, sym, true, false, some, ◌∷◌, length, arith, Returns, returns,
  Returns-mono, ◌>>◌, ==_of_ne, ltb_of_lt, ltb_of_le, inl, inr, pos,
}
use osc_final_lab.Dplist.Spec.{insert_at, insert_at-append}
use osc_final_lab.Dplist.Memory.{Ptr, null, Node, Dplist, Mem, update, set_next, set_prev}
use osc_final_lab.Dplist.Chain.{
  has-null, has-head, has-tail, has, off_head, off_tail, Cells, Chain, IsList, SameOutside,
}
use osc_final_lab.Dplist.Locate.{
  ref_at_last, next-eq-null, Chain-holds, ne_of_has, ref_at-suc, ref_at, locate,
}
use osc_final_lab.Dplist.Relink.{off-insert_at, Spliced, Extended, Chain-insert_at, Chain-append}
use osc_final_lab.Dplist.Access.{set_next-ok, set_prev-ok, load_node-ok}
use osc_final_lab.Dplist.Read.{dpl_size-length, dpl_get_reference_at_index-ref_at}
use osc_final_lab.Dplist.{int_max, insert_inside}

-- Only the nodes change.
abbrev pub Kept : {S : Type 0} → Mem S → Mem S → Type 0
Kept m g = (g.lists ≡ m.lists) × (g.elems ≡ m.elems)

module _ {S : Type 0} (m : Mem S) (fresh e : Ptr) (ne : fresh ≢ null)
    (new : m.nodes fresh ≡ some (record { prev = null; next = null; element = e })) where
  splice_writes :
      (left right : Ptr) (nl nr : Node)
      → left ≢ null
      → right ≢ null
      → fresh ≢ left
      → fresh ≢ right
      → left ≢ right
      → m.nodes left ≡ some nl
      → m.nodes right ≡ some nr
      → nr.prev ≡ left
      → Returns
          (λ _ g. Spliced m.nodes g.nodes fresh e left right nl nr × Kept m g)
          ((do set_prev fresh left; set_next fresh right; set_next left fresh; set_prev right fresh)
            m)
  splice_writes left right nl nr lne rne fl fr lr hl hr back =
      let m1 : Mem S = record m {
        nodes = update m.nodes fresh (some (record { prev = left; next = null; element = e }));
      } in
      let m2 : Mem S = record m {
        nodes = update m1.nodes fresh (some (record { prev = left; next = right; element = e }));
      } in
      let m3 : Mem S = record m {
        nodes = update m2.nodes left (some (record nl { next = fresh }));
      } in
      rw
        (
          set_prev-ok m fresh left ne new,
          set_next-ok m1 fresh right {n = record { prev = left; next = null; element = e }} ne
              (ground arith),
          set_next-ok m2 left fresh {n = nl} lne (ground arith),
          set_prev-ok m3 right fresh {n = nr} rne (ground arith),
        )
        (returns (
          record {
            fresh_ne_null = ne;
            left_was = hl;
            right_was = hr;
            back = back;
            new = ground arith;
            left_is = ground arith;
            right_is = ground arith;
            same = λ a x y z. ground arith;
          },
          (refl, refl),
        ))

  extend_writes :
      (last : Ptr) (nl : Node)
      → last ≢ null
      → fresh ≢ last
      → m.nodes last ≡ some nl
      → Returns
          (λ _ g. Extended m.nodes g.nodes fresh e last nl × Kept m g)
          ((do set_next fresh null; set_prev fresh last; set_next last fresh) m)
  extend_writes last nl lne fl hl =
      let n1 : Node = record { prev = null; next = null; element = e } in
      let n2 : Node = record { prev = last; next = null; element = e } in
      let m1 : Mem S = record m { nodes = update m.nodes fresh (some n1) } in
      let m2 : Mem S = record m { nodes = update m1.nodes fresh (some n2) } in
      rw
        (
          set_next-ok m fresh null ne new,
          set_prev-ok m1 fresh last {n = n1} ne (ground arith),
          set_next-ok m2 last fresh {n = nl} lne (ground arith),
        )
        (returns (
          record {
            fresh_ne_null = ne;
            last_was = hl;
            new = ground arith;
            last_is = ground arith;
            same = λ a x y. ground arith;
          },
          (refl, refl),
        ))

  -- What the writes away from the list struct achieve.
  abbrev pub Relinked : ℕ → Cells → Unit {0} → Mem S → Type 0
  Relinked i cs _ g =
      Chain g.nodes null (insert_at i (fresh, e) cs)
      × SameOutside ((fresh, e) ∷ cs) m.nodes g.nodes
      × Kept m g

  module _ (list : Ptr) (d : Dplist S) where
    pub insert_before :
        (i : ℕ) (c k : Ptr × Ptr) (cs : Cells)
        → IsList m list d (c ∷ k ∷ cs)
        → length (c ∷ k ∷ cs) ≤ int_max
        → has fresh (c ∷ k ∷ cs) ≡ false
        → i < suc (length cs)
        → Returns (Relinked (suc i) (c ∷ k ∷ cs)) (insert_inside list fresh (pos (suc i)) m)
    unfolding insert_inside insert_at
    insert_before i (p, f) (q, k) cs is fits fout inside =
        let (pne, pout, pat, rest) = is.chain in
        let l = locate m.nodes p (q, k) cs i rest pout in
        let right_on : has (ref_at i ((q, k) ∷ cs)) all ≡ true =
          has-tail (ref_at i ((q, k) ∷ cs)) p f ((q, k) ∷ cs) l.on_chain in
        let left_on : has l.node.prev all ≡ true = elim l.prev_on [
          | inl x ↦ has-head l.node.prev p f ((q, k) ∷ cs) x
          | inr x ↦ has-tail l.node.prev p f ((q, k) ∷ cs) x
        ] in
        let nl = Chain-holds m.nodes null l.node.prev all is.chain left_on in
        rw
          (
            dpl_get_reference_at_index-ref_at m list (pos (suc i)) is fits,
            ref_at-suc i (p, f) (q, k) cs,
            ==_of_ne (ref_at i ((q, k) ∷ cs)) null l.ne_null,
            dpl_size-length m list is fits,
            load_node-ok m (ref_at i ((q, k) ∷ cs)) l.ne_null l.holds,
            ltb_of_lt (suc i) (length ((p, f) ∷ (q, k) ∷ cs)) (omega arith),
          )
          (Returns-mono
            (splice_writes l.node.prev (ref_at i ((q, k) ∷ cs)) nl.0 l.node nl.1 l.ne_null
              (ne_of_has all left_on fout) (ne_of_has all right_on fout) l.prev_ne nl.2 l.holds
              refl)
            λ _ g (s, kept).
              let (tail, head) =
                Chain-insert_at s i null p f ((q, k) ∷ cs) pne pat pout rest
                  (off_tail fresh p f ((q, k) ∷ cs) fout) (off_head fresh p f ((q, k) ∷ cs) fout)
                  inside refl in
              (
                (
                  pne,
                  off-insert_at p i fresh e ((q, k) ∷ cs)
                      (λ x. off_head fresh p f ((q, k) ∷ cs) fout (sym x)) pout,
                  head,
                  tail,
                ),
                λ a o.
                    s.same a (off_head a fresh e all o)
                      (ne_of_has all left_on (off_tail a fresh e all o))
                      (ne_of_has all right_on (off_tail a fresh e all o)),
                kept,
              ))
      where
        all : Cells
        all = (p, f) ∷ (q, k) ∷ cs

    pub insert_after :
        (i : ℕ) (c : Ptr × Ptr) (cs : Cells)
        → IsList m list d (c ∷ cs)
        → length (c ∷ cs) ≤ int_max
        → has fresh (c ∷ cs) ≡ false
        → length cs ≤ i
        → Returns (Relinked (suc i) (c ∷ cs)) (insert_inside list fresh (pos (suc i)) m)
    unfolding insert_inside
    insert_after i (p, f) cs is fits fout past =
        let l =
          locate m.nodes null (p, f) cs (suc i) is.chain
            (has-null m.nodes null ((p, f) ∷ cs) is.chain) in
        rw
          (
            dpl_get_reference_at_index-ref_at m list (pos (suc i)) is fits,
            ==_of_ne (ref_at (suc i) ((p, f) ∷ cs)) null l.ne_null,
            dpl_size-length m list is fits,
            load_node-ok m (ref_at (suc i) ((p, f) ∷ cs)) l.ne_null l.holds,
            ltb_of_le (suc i) (length ((p, f) ∷ cs)) (omega arith),
            next-eq-null m.nodes null (p, f) cs (suc i) is.chain (omega arith) l.holds,
          )
          (Returns-mono
            (extend_writes (ref_at (suc i) ((p, f) ∷ cs)) l.node l.ne_null
              (ne_of_has ((p, f) ∷ cs) l.on_chain fout) l.holds)
            λ _ g (s, kept). (
              rw (insert_at-append (suc i) (fresh, e) ((p, f) ∷ cs) (omega arith)) (
                  Chain-append s null p f cs is.chain fout
                    (sym (ref_at_last (suc i) (p, f) cs (omega arith)))),
              λ a o.
                  s.same a (off_head a fresh e ((p, f) ∷ cs) o)
                    (ne_of_has ((p, f) ∷ cs) l.on_chain (off_tail a fresh e ((p, f) ∷ cs) o)),
              kept,
            ))

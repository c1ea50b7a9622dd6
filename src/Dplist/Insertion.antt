-- ===== src/Dplist/Insertion.antt =====
-- lib/dplist.c: `dpl_insert_at_index` as a whole.
use osc_final_lab.Common.{
  ap, ℕ, zero, suc, ◌≤◌, ◌≡◌, ◌≢◌, refl, true, false, some, [], ◌∷◌, length, arith, Returns,
  returns, Returns-mono, ==_of_ne, leb_ℤ, leb_of_lt, ℤ, pos, negsuc, pos_part,
}
use native.Mathlib.Decide.{dec_lt}
use osc_final_lab.Dplist.Spec.{insert_at_nil, insert_at}
use osc_final_lab.Dplist.Memory.{Ptr, null, Node, Dplist, Mem, update}
use osc_final_lab.Dplist.Chain.{
  has, off_head, Cells, first, Chain, IsList, SameOutside, Chain-frame,
}
use osc_final_lab.Dplist.Access.{set_next-ok, set_prev-ok, set_head-ok}
use osc_final_lab.Dplist.Insert.{Relinked, insert_before, insert_after}
use osc_final_lab.Dplist.{int_max, insert_inside, link_node}

-- `g` is `m` with the new chain in place of `cs` under the struct at `list`.
pub record Linked {S : Type 0} (list : Ptr) (d : Dplist S) (new : Cells) (m g : Mem S)
    : Type 0 where
  pub chain : Chain g.nodes null new
  pub struct_at : g.lists list ≡ some (record d { head = first new })
  pub other_lists : (a : Ptr) → a ≢ list → g.lists a ≡ m.lists a
  pub elems : g.elems ≡ m.elems

module _ {S : Type 0} (m : Mem S) (fresh e : Ptr) (ne : fresh ≢ null)
    (new : m.nodes fresh ≡ some (record { prev = null; next = null; element = e })) (list : Ptr)
    (d : Dplist S) where
  abbrev pub Attached : ℕ → Cells → Unit {0} → Mem S → Type 0
  Attached i cs _ g =
      Linked list d (insert_at i (fresh, e) cs) m g × SameOutside ((fresh, e) ∷ cs) m.nodes g.nodes

  link_first :
      (index : ℤ)
      → IsList m list d []
      → Returns (Attached (pos_part index) []) (link_node list fresh null index m)
  unfolding link_node insert_at
  link_first index is =
      let n0 : Node = record { prev = null; next = null; element = e } in
      let m1 : Mem S = record m { nodes = update m.nodes fresh (some n0) } in
      let m2 : Mem S = record m { nodes = update m1.nodes fresh (some n0) } in
      rw
        (
          set_prev-ok m fresh null ne new,
          set_next-ok m1 fresh null {n = n0} ne (ground arith),
          set_head-ok m2 list fresh {d = d} is.not_null is.struct_at,
        )
        (returns (
          record {
            chain =
                rw (insert_at_nil {A = Ptr × Ptr} (pos_part index) (fresh, e))
                  (ne, refl, ground arith, tt);
            struct_at =
                rw (insert_at_nil {A = Ptr × Ptr} (pos_part index) (fresh, e)) (ground arith);
            other_lists = λ a x. ground arith;
            elems = refl;
          },
          λ a o. ground arith,
        ))

  link_front :
      (index : ℤ) (p f : Ptr) (cs : Cells)
      → IsList m list d ((p, f) ∷ cs)
      → has fresh ((p, f) ∷ cs) ≡ false
      → leb_ℤ index (pos 0) ≡ true
      → Returns (Attached zero ((p, f) ∷ cs)) (link_node list fresh p index m)
  unfolding link_node insert_at
  link_front index p f cs is fout front =
      let (pne, pout, pat, rest) = is.chain in
      let apart : fresh ≢ p = off_head fresh p f cs fout in
      let n0 : Node = record { prev = null; next = null; element = e } in
      let n1 : Node = record { prev = null; next = p; element = e } in
      let m1 : Mem S = record m { nodes = update m.nodes fresh (some n0) } in
      let m2 : Mem S = record m { nodes = update m1.nodes fresh (some n1) } in
      let n2 : Node = record { prev = null; next = first cs; element = f } in
      let n3 : Node = record { prev = fresh; next = first cs; element = f } in
      let m3 : Mem S = record m { nodes = update m2.nodes p (some n3) } in
      rw
        (
          ==_of_ne p null pne,
          front,
          set_prev-ok m fresh null ne new,
          set_next-ok m1 fresh p {n = n0} ne (ground arith),
          set_prev-ok m2 p fresh {n = n2} pne (ground arith),
          set_head-ok m3 list fresh {d = d} is.not_null is.struct_at,
        )
        (returns (
          record {
            chain = (
              ne,
              fout,
              ground arith,
              (
                pne,
                pout,
                ground arith,
                Chain-frame m.nodes m3.nodes p cs (λ a i. ground arith) rest,
              ),
            );
            struct_at = ground arith;
            other_lists = λ a x. ground arith;
            elems = refl;
          },
          λ a o. ground arith,
        ))

  attach :
      (i : ℕ) (p f : Ptr) (cs : Cells)
      → IsList m list d ((p, f) ∷ cs)
      → (u : Unit {0}) (g : Mem S) → Relinked m fresh e ne new (suc i) ((p, f) ∷ cs) u g
      → Attached (suc i) ((p, f) ∷ cs) u g
  unfolding insert_at
  attach i p f cs is u g (chain, same, (lists, elems)) = (
    record {
      chain = chain;
      struct_at = ground (arith, ap (λ l. l list) lists);
      other_lists = λ a x. ap (λ l. l a) lists;
      elems = elems;
    },
    same,
  )

  inserted :
      (cs : Cells) (i : ℕ) {p f : Ptr}
      → IsList m list d ((p, f) ∷ cs)
      → length ((p, f) ∷ cs) ≤ int_max
      → has fresh ((p, f) ∷ cs) ≡ false
      → Returns
          (Relinked m fresh e ne new (suc i) ((p, f) ∷ cs))
          (insert_inside list fresh (pos (suc i)) m)
  inserted [] i {p} {f} is fits fout =
      insert_after m fresh e ne new list d i (p, f) [] is fits fout (omega arith)
  inserted (k ∷ cs) i {p} {f} is fits fout = elim (dec_lt i (suc (length cs))) [
    | yes inside ↦ insert_before m fresh e ne new list d i (p, f) k cs is fits fout inside
    | no past ↦ insert_after m fresh e ne new list d i (p, f) (k ∷ cs) is fits fout (omega arith)
  ]

  link_inside :
      (i : ℕ) (p f : Ptr) (cs : Cells)
      → IsList m list d ((p, f) ∷ cs)
      → length ((p, f) ∷ cs) ≤ int_max
      → has fresh ((p, f) ∷ cs) ≡ false
      → Returns (Attached (suc i) ((p, f) ∷ cs)) (link_node list fresh p (pos (suc i)) m)
  unfolding link_node
  link_inside i p f cs is fits fout =
      rw (==_of_ne p null is.chain.0, leb_of_lt (suc i) 0 (omega arith))
        (Returns-mono (inserted cs i is fits fout) (attach i p f cs is))

  pub link_node-insert_at :
      (index : ℤ) (cs : Cells)
      → IsList m list d cs
      → length cs ≤ int_max
      → has fresh cs ≡ false
      → Returns (Attached (pos_part index) cs) (link_node list fresh (first cs) index m)
  link_node-insert_at index [] is fits fout = link_first index is
  link_node-insert_at (pos zero) ((p, f) ∷ cs) is fits fout =
      link_front (pos zero) p f cs is fout refl
  link_node-insert_at (pos (suc i)) ((p, f) ∷ cs) is fits fout = link_inside i p f cs is fits fout
  link_node-insert_at (negsuc n) ((p, f) ∷ cs) is fits fout =
      link_front (negsuc n) p f cs is fout refl

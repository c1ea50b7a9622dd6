-- ===== src/Dplist/Locate.antt =====
-- lib/dplist.c: which node stands at an index, and how it is linked to its neighbours.
use osc_final_lab.Common.{
  ◌∙◌, false, ◌==◌, Bool-cases, inr, some, inl, true, ◌⊎◌, Option, ℕ, zero, suc, ◌≤◌, ◌≡◌, ◌≢◌,
  refl, [], ◌∷◌, length, arith,
}
use osc_final_lab.Dplist.Spec.{elem_at}
use osc_final_lab.Dplist.Memory.{Node, Ptr, null}
use osc_final_lab.Dplist.Chain.{off_tail, off_head, has-head, has-tail, Chain, has, Cells, first}

-- the address of the node at an index, NULL on the empty chain
unfoldable pub ref_at : ℕ → Cells → Ptr
ref_at i [] = null
ref_at i ((p, e) ∷ []) = p
ref_at zero ((p, e) ∷ c ∷ cs) = p
ref_at (suc i) ((p, e) ∷ c ∷ cs) = ref_at i (c ∷ cs)

pub ref_at_nil : (i : ℕ) → ref_at i [] ≡ null
unfolding ref_at
ref_at_nil i = refl

pub ref_at-zero : (cs : Cells) → ref_at zero cs ≡ first cs
unfolding ref_at
ref_at-zero [] = refl
ref_at-zero (c ∷ []) = refl
ref_at-zero (c ∷ d ∷ cs) = refl

ref_at_one : (i : ℕ) (c : Ptr × Ptr) → ref_at zero (c ∷ []) ≡ ref_at i (c ∷ [])
unfolding ref_at
ref_at_one zero c = refl
ref_at_one (suc i) c = refl

pub ref_at_last :
    (i : ℕ) (c : Ptr × Ptr) (cs : Cells)
    → length cs ≤ i
    → ref_at (length cs) (c ∷ cs) ≡ ref_at i (c ∷ cs)
unfolding ref_at
ref_at_last i c [] h = ref_at_one i c
ref_at_last zero c (d ∷ cs) h = absurd (omega arith)
ref_at_last (suc i) c (d ∷ cs) h = ref_at_last i d cs (omega arith)

pub ref_at-suc :
    (i : ℕ) (c d : Ptr × Ptr) (cs : Cells) → ref_at (suc i) (c ∷ d ∷ cs) ≡ ref_at i (d ∷ cs)
unfolding ref_at
ref_at-suc i c d cs = refl

-- Every address on a chain holds a node.
pub Chain-holds :
    (h : Ptr → Option Node) (before a : Ptr) (cs : Cells)
    → Chain h before cs
    → has a cs ≡ true
    → (n : Node) × (a ≢ null) × (h a ≡ some n)
Chain-holds h before a [] c i = cc
Chain-holds h before a ((p, e) ∷ cs) (ne, out, at, rest) i = elim (Bool-cases (a == p)) [
  | inl same ↦ (record { prev = before; next = first cs; element = e }, ground arith, ground arith)
  | inr other ↦ Chain-holds h p a cs rest (ground arith)
]

pub ne_of_has : {a b : Ptr} (cs : Cells) → has a cs ≡ true → has b cs ≡ false → b ≢ a
ne_of_has cs i out e = cc

-- The node at index `i` of the chain `cs` behind `before`.
pub record Located (h : Ptr → Option Node) (before : Ptr) (cs : Cells) (i : ℕ) : Type 0 where
  pub node : Node
  pub ne_null : ref_at i cs ≢ null
  pub on_chain : has (ref_at i cs) cs ≡ true
  pub holds : h (ref_at i cs) ≡ some node
  pub cell : elem_at i cs ≡ some (ref_at i cs, node.element)
  pub prev_ne : node.prev ≢ ref_at i cs
  pub prev_on : (node.prev ≡ before) ⊎ (has node.prev cs ≡ true)
  pub next_on : (node.next ≡ null) ⊎ (has node.next cs ≡ true)

first_on : (cs : Cells) → (first cs ≡ null) ⊎ (has (first cs) cs ≡ true)
first_on [] = inl refl
first_on ((p, e) ∷ cs) = inr (ground arith)

pub locate :
    (h : Ptr → Option Node) (before : Ptr) (c : Ptr × Ptr) (cs : Cells) (i : ℕ)
    → Chain h before (c ∷ cs)
    → has before (c ∷ cs) ≡ false
    → Located h before (c ∷ cs) i
unfolding ref_at elem_at
locate h before (p, e) [] i (ne, out, at, rest) bout = record {
  node = record { prev = before; next = null; element = e };
  ne_null = ne;
  on_chain = ground arith;
  holds = at;
  cell = refl;
  prev_ne = off_head before p e [] bout;
  prev_on = inl refl;
  next_on = inl refl;
}
locate h before (p, e) ((q, f) ∷ cs) zero (ne, out, at, rest) bout = record {
  node = record { prev = before; next = q; element = e };
  ne_null = ne;
  on_chain = ground arith;
  holds = at;
  cell = refl;
  prev_ne = off_head before p e ((q, f) ∷ cs) bout;
  prev_on = inl refl;
  next_on = inr (ground arith);
}
locate h before (p, e) ((q, f) ∷ cs) (suc i) (ne, out, at, rest) bout =
    let l = locate h p (q, f) cs i rest out in
    record {
      node = l.node;
      ne_null = l.ne_null;
      on_chain = has-tail (ref_at i ((q, f) ∷ cs)) p e ((q, f) ∷ cs) l.on_chain;
      holds = l.holds;
      cell = l.cell;
      prev_ne = l.prev_ne;
      prev_on = inr (elim l.prev_on [
        | inl e' ↦ has-head l.node.prev p e ((q, f) ∷ cs) e'
        | inr i' ↦ has-tail l.node.prev p e ((q, f) ∷ cs) i'
      ]);
      next_on = elim l.next_on [
        | inl e' ↦ inl e'
        | inr i' ↦ inr (has-tail l.node.next p e ((q, f) ∷ cs) i')
      ];
    }

-- What is off the chain and not before it is neither that node nor the one before it.
pub Located-apart :
    {h : Ptr → Option Node} {before : Ptr} {cs : Cells} {i : ℕ} (l : Located h before cs i)
    (b : Ptr)
    → has b cs ≡ false
    → b ≢ before
    → (b ≢ ref_at i cs) × (b ≢ l.node.prev)
Located-apart {cs} l b out ne = (
  λ e. ne_of_has cs l.on_chain out e,
  λ e. elim l.prev_on [ inl first_one ↦ ne (e ∙ first_one) | inr i ↦ ne_of_has cs i out e ],
)

-- Nor is it the node after it.
pub Located-next :
    {h : Ptr → Option Node} {before : Ptr} {cs : Cells} {i : ℕ} (l : Located h before cs i)
    (b : Ptr)
    → has b cs ≡ false
    → b ≢ null
    → b ≢ l.node.next
Located-next {cs} l b out ne e = elim l.next_on [
  | inl end ↦ ne (e ∙ end)
  | inr i ↦ ne_of_has cs i out e
]

-- The last node has no successor.
pub next-eq-null :
    (h : Ptr → Option Node) (before : Ptr) (c : Ptr × Ptr) (cs : Cells) (i : ℕ) {n : Node}
    → Chain h before (c ∷ cs)
    → length cs ≤ i
    → h (ref_at i (c ∷ cs)) ≡ some n
    → n.next ≡ null
unfolding ref_at
next-eq-null h before (p, e) [] i (ne, out, at, rest) past holds = ground arith
next-eq-null h before (p, e) (d ∷ cs) zero (ne, out, at, rest) past holds = absurd (omega arith)
next-eq-null h before (p, e) (d ∷ cs) (suc i) (ne, out, at, rest) past holds =
    next-eq-null h p d cs i rest (omega arith) holds

-- A node is not its own successor, and its neighbours differ.
pub neighbours-apart :
    (h : Ptr → Option Node) (before : Ptr) (c : Ptr × Ptr) (cs : Cells) (i : ℕ) {n : Node}
    → Chain h before (c ∷ cs)
    → has before (c ∷ cs) ≡ false
    → h (ref_at i (c ∷ cs)) ≡ some n
    → (ref_at i (c ∷ cs) ≢ n.next) × (n.prev ≢ null → n.prev ≢ n.next)
unfolding ref_at
neighbours-apart h before (p, e) [] i (ne, out, at, rest) bout holds =
    (λ x. ne (x ∙ ground arith), λ x y. x (y ∙ ground arith))
neighbours-apart h before (p, e) ((q, f) ∷ cs) zero (ne, out, at, rest) bout holds = (
  λ x. off_head p q f cs out (x ∙ ground arith),
  λ x y. off_head before q f cs (off_tail before p e ((q, f) ∷ cs) bout) (ground arith),
)
neighbours-apart h before (p, e) ((q, f) ∷ cs) (suc i) (ne, out, at, rest) bout holds =
    neighbours-apart h p (q, f) cs i rest out holds

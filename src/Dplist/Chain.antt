-- ===== src/Dplist/Chain.antt =====
-- What the nodes of lib/dplist.c stand for: the list of their addresses and elements.
use osc_final_lab.Common.{
  ◌≡◌, ◌≢◌, refl, Bool, true, false, ◌||◌, Option, none, some, List, [], ◌∷◌, arith, ◌==◌,
}
use osc_final_lab.Dplist.Memory.{Ptr, null, Node, Dplist, Mem, update}

-- address and element of each node, in order
abbrev pub Cells : Type 0
Cells = List (Ptr × Ptr)

abbrev pub has : Ptr → Cells → Bool
has a [] = false
has a ((p, _) ∷ cs) = (a == p) || has a cs

pub has-head : (a p e : Ptr) (cs : Cells) → a ≡ p → has a ((p, e) ∷ cs) ≡ true
has-head a p e cs same = ground arith

pub has-tail : (a p e : Ptr) (cs : Cells) → has a cs ≡ true → has a ((p, e) ∷ cs) ≡ true
has-tail a p e cs i = ground arith

pub off_head : (b p e : Ptr) (cs : Cells) → has b ((p, e) ∷ cs) ≡ false → b ≢ p
off_head b p e cs out = ground arith

pub off_tail : (b p e : Ptr) (cs : Cells) → has b ((p, e) ∷ cs) ≡ false → has b cs ≡ false
off_tail b p e cs out = ground arith

pub off_cons : (b p e : Ptr) (cs : Cells) → b ≢ p → has b cs ≡ false → has b ((p, e) ∷ cs) ≡ false
off_cons b p e cs ne out = ground arith

abbrev pub first : Cells → Ptr
first [] = null
first ((p, _) ∷ cs) = p

-- `h` links the distinct nodes of `cs` both ways, behind the node `before`.
abbrev pub Chain : (Ptr → Option Node) → Ptr → Cells → Type 0
Chain h before [] = Unit {0}
Chain h before ((p, e) ∷ cs) =
    (p ≢ null)
    × (has p cs ≡ false)
    × (h p ≡ some (record { prev = before; next = first cs; element = e }))
    × Chain h p cs

-- The list struct at `list` has the callbacks of `d`, and its nodes are `cs`.
pub record IsList {S : Type 0} (m : Mem S) (list : Ptr) (d : Dplist S) (cs : Cells) : Type 0 where
  pub not_null : list ≢ null
  pub struct_at : m.lists list ≡ some d
  pub head_first : d.head ≡ first cs
  pub chain : Chain m.nodes null cs

-- `g` and `h` agree away from `cs`.
abbrev pub SameOutside : Cells → (Ptr → Option Node) → (Ptr → Option Node) → Type 0
SameOutside cs h g = (a : Ptr) → has a cs ≡ false → g a ≡ h a

-- A chain depends only on its own addresses.
pub Chain-frame :
    (h g : Ptr → Option Node) (before : Ptr) (cs : Cells)
    → ((a : Ptr) → has a cs ≡ true → g a ≡ h a)
    → Chain h before cs
    → Chain g before cs
Chain-frame h g before [] same c = tt
Chain-frame h g before ((p, e) ∷ cs) same (ne, out, at, rest) =
    (ne, out, ground (arith, same p), Chain-frame h g p cs (λ a i. same a (ground arith)) rest)

pub Chain-update :
    (h : Ptr → Option Node) (before a : Ptr) (n : Option Node) (cs : Cells)
    → has a cs ≡ false
    → Chain h before cs
    → Chain (update h a n) before cs
Chain-update h before a n cs out = Chain-frame h (update h a n) before cs (λ b i. ground arith)

-- An address that holds no node is on no chain.
pub has-eq-false_of_none :
    (h : Ptr → Option Node) (before a : Ptr) (cs : Cells)
    → h a ≡ none
    → Chain h before cs
    → has a cs ≡ false
has-eq-false_of_none h before a [] unused c = refl
has-eq-false_of_none h before a ((p, e) ∷ cs) unused (ne, out, at, rest) =
    ground (arith, has-eq-false_of_none h p a cs)

-- NULL is on no chain.
pub has-null :
    (h : Ptr → Option Node) (before : Ptr) (cs : Cells) → Chain h before cs → has null cs ≡ false
has-null h before [] c = refl
has-null h before ((p, e) ∷ cs) (ne, out, at, rest) = ground (arith, has-null h p cs)

-- Only the first node's `prev` tells what stands before a chain.
pub Chain-set_prev :
    (h : Ptr → Option Node) (before before' p e : Ptr) (cs : Cells)
    → Chain h before ((p, e) ∷ cs)
    → Chain
        (update h p (some (record { prev = before'; next = first cs; element = e })))
        before'
        ((p, e) ∷ cs)
Chain-set_prev h before before' p e cs (ne, out, at, rest) =
    (ne, out, ground arith, Chain-update h p p _ cs out rest)

-- ===== src/Sbuffer/Chain.antt =====
-- What the nodes of sbuffer.c stand for: the readings in order with their flags.
use osc_final_lab.Common.{
  ◌≡◌, ◌≢◌, refl, Bool, true, false, ◌||◌, Option, none, some, List, [], ◌∷◌, arith, ◌==◌,
}
use osc_final_lab.Config.{SensorData}
use osc_final_lab.Sbuffer.Memory.{Ptr, null, SbufferNode, Mem}
use osc_final_lab.Sbuffer.Queue.{Items, Queue}

-- address, reading and flag of each node, in order
abbrev pub Cells : Type 0 → Type 0
Cells V = List (Ptr × SensorData V × Bool)

module _ {V : Type 0} where
  abbrev pub has : Ptr → Cells V → Bool
  has a [] = false
  has a ((p, _, _) ∷ cs) = (a == p) || has a cs

  pub has-tail :
      (a p : Ptr) (x : SensorData V) (b : Bool) (cs : Cells V)
      → has a cs ≡ true
      → has a ((p, x, b) ∷ cs) ≡ true
  has-tail a p x b cs i = ground arith

  pub off_head :
      (a p : Ptr) (x : SensorData V) (b : Bool) (cs : Cells V)
      → has a ((p, x, b) ∷ cs) ≡ false
      → a ≢ p
  off_head a p x b cs out = ground arith

  pub off_tail :
      (a p : Ptr) (x : SensorData V) (b : Bool) (cs : Cells V)
      → has a ((p, x, b) ∷ cs) ≡ false
      → has a cs ≡ false
  off_tail a p x b cs out = ground arith

  pub ne_of_has : {a b : Ptr} (cs : Cells V) → has a cs ≡ true → has b cs ≡ false → b ≢ a
  ne_of_has cs on off e = cc

  abbrev pub first : Cells V → Ptr
  first [] = null
  first ((p, _, _) ∷ cs) = p

  abbrev pub last : Cells V → Ptr
  last [] = null
  last ((p, _, _) ∷ []) = p
  last (_ ∷ c ∷ cs) = last (c ∷ cs)

  abbrev pub items_of : Cells V → Items V
  items_of [] = []
  items_of ((p, x, b) ∷ cs) = (x, b) ∷ items_of cs

  abbrev pub Chain : (Ptr → Option (SbufferNode V)) → Cells V → Type 0
  Chain h [] = Unit {0}
  Chain h ((p, x, b) ∷ cs) =
      (p ≢ null)
      × (has p cs ≡ false)
      × (h p ≡ some (record { next = first cs; is_processed = b; content = x }))
      × Chain h cs

  pub Chain-frame :
      (h g : Ptr → Option (SbufferNode V)) (cs : Cells V)
      → ((a : Ptr) → has a cs ≡ true → g a ≡ h a)
      → Chain h cs
      → Chain g cs
  Chain-frame h g [] same c = tt
  Chain-frame h g ((p, x, b) ∷ cs) same (ne, out, at, rest) =
      (ne, out, ground (arith, same p), Chain-frame h g cs (λ a i. same a (ground arith)) rest)

  pub off_of_none :
      (h : Ptr → Option (SbufferNode V)) (a : Ptr) (cs : Cells V)
      → h a ≡ none
      → Chain h cs
      → has a cs ≡ false
  off_of_none h a [] unused c = refl
  off_of_none h a ((p, x, b) ∷ cs) unused (ne, out, at, rest) = ground (arith, off_of_none h a cs)

  -- The last node of a chain.
  pub last_holds :
      (h : Ptr → Option (SbufferNode V)) (c : Ptr × SensorData V × Bool) (cs : Cells V)
      → Chain h (c ∷ cs)
      → (n : SbufferNode V) × (last (c ∷ cs) ≢ null)
        × (has (last (c ∷ cs)) (c ∷ cs) ≡ true)
        × (h (last (c ∷ cs)) ≡ some n)
  last_holds h (p, x, b) [] (ne, out, at, rest) =
      (record { next = null; is_processed = b; content = x }, ne, ground arith, at)
  last_holds h (p, x, b) (c ∷ cs) (ne, out, at, rest) =
      let (n, lne, on, holds) = last_holds h c cs rest in
      (n, lne, has-tail (last (c ∷ cs)) p x b (c ∷ cs) on, holds)

-- The buffer at `buffer` consists of the nodes `cells`.
pub record Held {V : Type 0} (buffer : Ptr) (m : Mem V) (cells : Cells V) : Type 0 where
  pub not_null : buffer ≢ null
  pub buffer_at : m.buffers buffer ≡ some (record { head = first cells; tail = last cells })
  pub chain : Chain m.nodes cells

-- The buffer at `buffer` holds the readings of `q`.
pub record Represents {V : Type 0} (buffer : Ptr) (m : Mem V) (q : Queue V) : Type 0 where
  pub cells : Cells V
  pub held : Held buffer m cells
  pub items : q.items ≡ items_of cells
  pub condition : q.condition ≡ m.condition

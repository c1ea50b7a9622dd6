-- ===== src/Datamgr/Store/Contents.antt =====
-- datamgr.c: a list of readings in memory, with the readings that its elements hold.
use osc_final_lab.Common.{
  ◌≡◌, ◌≢◌, refl, ◌∙◌, true, false, ◌||◌, none, some, List, [], ◌∷◌, ◌++◌, length, ◌==◌, arith,
}
use osc_final_lab.Config.{SensorData}
use osc_final_lab.Dplist.Memory.{Ptr, null, Mem, update}
use osc_final_lab.Dplist.Chain.{Cells, has, IsList}
use osc_final_lab.Datamgr.Store.{DataStore, Machine, data_callbacks}
use osc_final_lab.Datamgr.Store.Owned.{holds, Allocated}

-- The elements of the nodes hold the readings, in order.
abbrev pub Contents : {V : Type 0} → DataStore V → Cells → List (SensorData V) → Type 0
Contents h [] [] = Unit {0}
Contents h [] (x ∷ xs) = ⊥
Contents h (c ∷ cs) [] = ⊥
Contents h ((_, e) ∷ cs) (x ∷ xs) = (h e ≡ some x) × Contents h cs xs

-- The list at `list` has the nodes `cs`, with elements of their own that hold the readings `xs`.
pub record Kept {V : Type 0} (machine : Machine V) (m : Mem (DataStore V)) (list : Ptr) (cs : Cells)
    (xs : List (SensorData V)) : Type 0 where
  pub head : Ptr
  pub is_list : IsList m list (record { head = head; callbacks = data_callbacks machine }) cs
  pub allocated : Allocated m.elems cs
  pub contents : Contents m.elems cs xs

pub holds-append :
    (a p e : Ptr) (cs : Cells) → holds a (cs ++ (p, e) ∷ []) ≡ (holds a cs || (a == e))
holds-append a p e [] = ground arith
holds-append a p e (c ∷ cs) = ground (arith, holds-append a p e cs)

pub has-append : (a p e : Ptr) (cs : Cells) → has a (cs ++ (p, e) ∷ []) ≡ (has a cs || (a == p))
has-append a p e [] = ground arith
has-append a p e (c ∷ cs) = ground (arith, has-append a p e cs)

module _ {V : Type 0} where
  pub length-Contents :
      (h : DataStore V) (cs : Cells) (xs : List (SensorData V))
      → Contents h cs xs
      → length cs ≡ length xs
  length-Contents h [] [] c = refl
  length-Contents h [] (x ∷ xs) c = absurd c
  length-Contents h (k ∷ cs) [] c = absurd c
  length-Contents h (k ∷ cs) (x ∷ xs) c = omega (arith, length-Contents h cs xs c.1)

  pub Allocated-frame :
      (h g : DataStore V) (cs : Cells)
      → ((a : Ptr) → holds a cs ≡ true → g a ≡ h a)
      → Allocated h cs
      → Allocated g cs
  Allocated-frame h g [] same allocated = tt
  Allocated-frame h g ((p, e) ∷ cs) same (ne, out, (x, at), rest) = (
    ne,
    out,
    (x, same e (ground arith) ∙ at),
    Allocated-frame h g cs (λ a on. same a (ground arith)) rest,
  )

  pub Contents-frame :
      (h g : DataStore V) (cs : Cells) (xs : List (SensorData V))
      → ((a : Ptr) → holds a cs ≡ true → g a ≡ h a)
      → Contents h cs xs
      → Contents g cs xs
  Contents-frame h g [] [] same c = tt
  Contents-frame h g [] (x ∷ xs) same c = absurd c
  Contents-frame h g (k ∷ cs) [] same c = absurd c
  Contents-frame h g ((p, e) ∷ cs) (x ∷ xs) same (at, rest) =
      (same e (ground arith) ∙ at, Contents-frame h g cs xs (λ a on. same a (ground arith)) rest)

  -- What holds a reading is not where nothing stands.
  pub holds-eq-false_of_none :
      (h : DataStore V) (a : Ptr) (cs : Cells) → h a ≡ none → Allocated h cs → holds a cs ≡ false
  holds-eq-false_of_none h a [] unused allocated = refl
  holds-eq-false_of_none h a ((p, e) ∷ cs) unused (ne, out, (x, at), rest) =
      ground (arith, holds-eq-false_of_none h a cs)

  -- A reading in a new block at the end.
  pub Allocated-append :
      (h : DataStore V) (p e : Ptr) (x : SensorData V) (cs : Cells)
      → e ≢ null
      → h e ≡ none
      → Allocated h cs
      → Allocated (update h e (some x)) (cs ++ (p, e) ∷ [])
  Allocated-append h p e x [] ne unused allocated = (ne, refl, (x, ground arith), tt)
  Allocated-append h p e x ((q, f) ∷ cs) ne unused (fne, out, (y, at), rest) = (
    fne,
    ground (arith, holds-append f p e cs),
    (y, ground arith),
    Allocated-append h p e x cs ne unused rest,
  )

  pub Contents-append :
      (h : DataStore V) (p e : Ptr) (x : SensorData V) (cs : Cells) (xs : List (SensorData V))
      → h e ≡ none
      → Contents h cs xs
      → Contents (update h e (some x)) (cs ++ (p, e) ∷ []) (xs ++ x ∷ [])
  Contents-append h p e x [] [] unused c = (ground arith, tt)
  Contents-append h p e x [] (y ∷ ys) unused c = absurd c
  Contents-append h p e x (k ∷ cs) [] unused c = absurd c
  Contents-append h p e x ((q, f) ∷ cs) (y ∷ ys) unused (at, rest) =
      (ground arith, Contents-append h p e x cs ys unused rest)

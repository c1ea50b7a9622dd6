-- ===== src/Connmgr/Interleaving.antt =====
-- connmgr.c: what the threads of several clients put into one buffer, in the order in which they happen
-- to run.
use osc_final_lab.Common.{List, [], ◌∷◌, ◌++◌}

-- One of the lists gets `x` at its end.
pub data Appends {A : Type 0} (x : A) : List (List A) → List (List A) → Type 0 where
  here : {xs : List A} {ls : List (List A)} → Appends x (xs ∷ ls) ((xs ++ x ∷ []) ∷ ls)
  there : {xs : List A} {ls ms : List (List A)} → Appends x ls ms → Appends x (xs ∷ ls) (xs ∷ ms)

-- All items of the lists in one list, each list in its order, and the lists in any.
pub data Interleaving {A : Type 0} : List (List A) → List A → Type 0 where
  no_lists : Interleaving [] []
  more_lists :
      {ls : List (List A)} {xs : List A} → Interleaving ls xs → Interleaving (ls ++ [] ∷ []) xs
  item :
      {ls ms : List (List A)} {xs : List A} (x : A)
      → Interleaving ls xs
      → Appends x ls ms
      → Interleaving ms (xs ++ x ∷ [])

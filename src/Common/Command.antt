-- ===== src/Common/Command.antt =====
-- Commands: code that reads and writes a state and may fault. `fault` stands for undefined
-- behaviour and for an abort: a NULL or dangling pointer, a failed `assert`, an overflowing `int`.

use mathlib.Core.Path.{◌≡◌, subst}

pub data Run (S A : Type 0) : Type 0 where
  ok : A → S → Run S A
  fault : Run S A

abbrev pub Cmd : Type 0 → Type 0 → Type 0
Cmd S A = S → Run S A

module _ {S : Type 0} where
  abbrev pub pure : {A : Type 0} → A → Cmd S A
  pure a s = ok a s

  abbrev pub stop : {A : Type 0} → Cmd S A
  stop s = fault

module _ {S A B : Type 0} where
  abbrev pub and_then : Run S A → (A → Cmd S B) → Run S B
  and_then (ok a s) k = k a s
  and_then fault k = fault

  infixl 5 ◌>>=◌ ◌>>◌
  abbrev pub ◌>>=◌ : Cmd S A → (A → Cmd S B) → Cmd S B
  ◌>>=◌ m f s = and_then (m s) f

  abbrev pub ◌>>◌ : Cmd S A → Cmd S B → Cmd S B
  ◌>>◌ m n s = and_then (m s) (λ _. n)

-- A run that ends normally, in a result and a state with `P`.
pub data Returns {S A : Type 0} (P : A → S → Type 0) : Run S A → Type 0 where
  returns : {a : A} {s : S} → P a s → Returns P (ok a s)

module _ {S A : Type 0} {P : A → S → Type 0} where
  pub Returns-bind :
      {B : Type 0} {Q : B → S → Type 0} {r : Run S A} {k : A → Cmd S B}
      → Returns P r
      → ((a : A) (s : S) → P a s → Returns Q (k a s))
      → Returns Q (and_then r k)
  Returns-bind (returns p) next = next _ _ p

  pub Returns-mono :
      {Q : A → S → Type 0} {r : Run S A}
      → Returns P r
      → ((a : A) (s : S) → P a s → Q a s)
      → Returns Q r
  Returns-mono (returns p) weaken = returns (weaken _ _ p)

  pub Returns-ok : {r : Run S A} {a : A} {s : S} → Returns P r → r ≡ ok a s → P a s
  Returns-ok {a} {s} h e = at (subst (λ r. Returns P r) e h)
    where
      at : Returns P (ok a s) → P a s
      at (returns p) = p

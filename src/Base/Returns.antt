-- ===== src/Base/Returns.antt =====
-- Total correctness of a run: no fault, and a postcondition.
use mathlib.Core.Path.{◌≡◌, subst}
use mathlib.Core.Option.{Option, some}
use csc369_os_a.Base.Fault.{M, and_then}

pub data Returns {A S : Type 0} (P : A → S → Type 0) : Option (A × S) → Type 0 where
  returns : {a : A} {s : S} → P a s → Returns P (some (a, s))

module _ {A S : Type 0} {P : A → S → Type 0} where
  pub bind :
      {B : Type 0} {Q : B → S → Type 0} {r : Option (A × S)} {k : A → M S B}
      → Returns P r
      → ((a : A) (s : S) → P a s → Returns Q (k a s))
      → Returns Q (and_then r k)
  bind (returns p) next = next _ _ p

  pub mono :
      {Q : A → S → Type 0} {r : Option (A × S)}
      → Returns P r
      → ((a : A) (s : S) → P a s → Q a s)
      → Returns Q r
  mono (returns p) weaken = returns (weaken _ _ p)

  pub result : {r : Option (A × S)} → Returns P r → (a : A) × (s : S) × (r ≡ some (a, s)) × P a s
  result (returns p) = (_, _, mathlib.Core.Path.refl, p)

  pub holds : {r : Option (A × S)} {a : A} {s : S} → r ≡ some (a, s) → Returns P r → P a s
  holds e (returns p) = subst (λ o. Holding o) e p
    where
      Holding : Option (A × S) → Type 0
      Holding mathlib.Core.Option.none = Unit {0}
      Holding (some (a, s)) = P a s

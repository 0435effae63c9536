-- ===== src/Base/Fault.antt =====
-- Stateful C code: a function from the state to a value and the new state, or a fault (a failed
-- `assert`, a dereferenced NULL, an access out of range).
use Prim.Native.Nat.{ℕ}
use mathlib.Core.Bool.{Bool, true, false}
use mathlib.Core.Option.{Option, none, some}
use csc369_os_a.Base.Tests.{◌==◌, if◌then◌else◌}

-- Addresses. `NULL` is 0.
abbrev pub Ptr : Type 0
Ptr = ℕ

abbrev pub null : Ptr
null = 0

abbrev pub M : Type 0 → Type 0 → Type 0
M S A = S → Option (A × S)

module _ {S : Type 0} where
  abbrev pub pure : {A : Type 0} → A → M S A
  pure a s = some (a, s)

  abbrev pub fault : {A : Type 0} → M S A
  fault s = none

  abbrev pub and_then : {A B : Type 0} → Option (A × S) → (A → M S B) → Option (B × S)
  and_then none f = none
  and_then (some (a, s)) f = f a s

  infixl 5 ◌>>=◌ ◌>>◌
  abbrev pub ◌>>=◌ : {A B : Type 0} → M S A → (A → M S B) → M S B
  m >>= f = λ s. and_then (m s) f

  abbrev pub ◌>>◌ : {B : Type 0} → M S (Unit {0}) → M S B → M S B
  m >> k = m >>= λ _. k

  -- `assert (b)`
  abbrev pub check : Bool → M S (Unit {0})
  check true s = some (tt, s)
  check false s = none

  abbrev pub gets : {A : Type 0} → (S → A) → M S A
  gets f s = some (f s, s)

  abbrev pub modify : (S → S) → M S (Unit {0})
  modify f s = some (tt, f s)

  -- a value read from a partial array, a fault out of range
  abbrev pub require : {A : Type 0} → Option A → M S A
  require none s = none
  require (some a) s = some (a, s)

-- The result of a part of the state, put back into the whole.
abbrev pub put_back : {A S T : Type 0} → (T → S) → Option (A × T) → Option (A × S)
put_back f none = none
put_back f (some (a, t)) = some (a, f t)

-- a function changed at one address
abbrev pub update {ℓ} : {A : Type ℓ} → (ℕ → A) → ℕ → A → ℕ → A
update f p v q = if p == q then v else f q

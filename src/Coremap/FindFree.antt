-- ===== src/Coremap/FindFree.antt =====
-- FindFreeFrame of csc369_coremap.c finds the first free frame.
use csc369_os_a.Base.{
  ℕ, zero, suc, ◌+◌, ◌≤◌, ◌<◌, ◌≡◌, ◌∙◌, sym, ap, Option, some, none, true, false, Bool-cases, inl,
  inr, arith,
}
use native.Mathlib.Decide.{ℕ_discrete}
use csc369_os_a.Machine.{Frame}
use csc369_os_a.Coremap.{find_free}

-- The first free frame from `i` on among `n`, or none of them free.
abbrev pub FoundFree : (ℕ → Frame) → ℕ → ℕ → Option ℕ → Type 0
FoundFree frames n i none = (k : ℕ) → i ≤ k → k < i + n → (frames k).free ≡ false
FoundFree frames n i (some f) =
    (i ≤ f)
    × (f < i + n)
    × ((frames f).free ≡ true)
    × ((k : ℕ) → i ≤ k → k < f → (frames k).free ≡ false)

found_later :
    (frames : ℕ → Frame) (n i : ℕ) (r : Option ℕ)
    → (frames i).free ≡ false
    → FoundFree frames n (i + 1) r
    → FoundFree frames (suc n) i r
found_later frames n i none b h = λ k a l. elim (ℕ_discrete i k) [
  | yes e ↦ ap (λ j. (frames j).free) (sym e) ∙ b
  | no ne ↦ h k (omega arith) (omega arith)
]
found_later frames n i (some f) b (a, l, free, first) = (
  omega arith,
  omega arith,
  free,
  λ k x y. elim (ℕ_discrete i k) [
    | yes e ↦ ap (λ j. (frames j).free) (sym e) ∙ b
    | no ne ↦ first k (omega arith) y
  ],
)

-- FindFreeFrame finds the first free frame, and finds none only if all are in use.
pub find_free-FoundFree :
    (frames : ℕ → Frame) (n i : ℕ) → FoundFree frames n i (find_free frames n i)
unfolding find_free
find_free-FoundFree frames zero i = λ k a l. absurd (omega arith)
find_free-FoundFree frames (suc n) i = elim (Bool-cases (frames i).free) [
  | inl t ↦ rw t (omega arith, omega arith, t, λ k a l. absurd (omega arith))
  | inr b ↦
      rw b (
        found_later frames n i (find_free frames n (i + 1)) b
          (find_free-FoundFree frames n (i + 1)))
]

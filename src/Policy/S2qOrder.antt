-- ===== src/Policy/S2qOrder.antt =====
-- The order of the queues of csc369_policy_s2q.c, as lists of their entries from first to last.
use csc369_os_a.Base.{
  ℕ, zero, suc, ◌+◌, ◌-◌, ◌≤◌, ◌<◌, ◌≡◌, ◌≢◌, ◌∙◌, refl, sym, ap, List, [], ◌∷◌, ◌++◌, ◌==◌,
  if◌then◌else◌, Ptr, arith, true, false,
}
use native.Mathlib.Decide.{ℕ_discrete}
use csc369_os_a.Links.{Links}
use csc369_os_a.Links.Ring.{without}
use csc369_os_a.Links.Insert.{with}
use csc369_os_a.Machine.{Machine}
use csc369_os_a.Policy.S2qQueues.{Queue, S2qTracked}

-- the entries at `n` places from place `k` on
abbrev entries : (ℕ → Ptr) → ℕ → ℕ → List Ptr
entries s k zero = []
entries s k (suc n) = s k ∷ entries s (k + 1) n

-- the entries of a queue behind its head, from first to last
abbrev pub queue : {head : Ptr} {x : ℕ} {m : Machine} {l : Links} → Queue head x m l → List Ptr
queue q = entries q.s 1 (q.n - 1)

-- a list without an entry
abbrev pub remove : Ptr → List Ptr → List Ptr
remove e [] = []
remove e (x ∷ xs) = if x == e then remove e xs else x ∷ remove e xs

-- Frames but for `x` are tracked in queues with these entries.
abbrev pub Ordered : ℕ → Machine → List Ptr → List Ptr → Type 0
Ordered x m a1 am = (t : S2qTracked x m) × (queue t.a1 ≡ a1) × (queue t.am ≡ am)

entries_same :
    (s s' : ℕ → Ptr) (k k' n : ℕ)
    → ((j : ℕ) → j < n → s (k + j) ≡ s' (k' + j))
    → entries s k n ≡ entries s' k' n
entries_same s s' k k' zero h = refl
entries_same s s' k k' (suc n) h =
    let a : k + 0 ≡ k = omega arith in
    let b : k' + 0 ≡ k' = omega arith in
    let first : s k ≡ s' k' = ap s (sym a) ∙ h 0 (omega arith) ∙ ap s' b in
    let rest : entries s (k + 1) n ≡ entries s' (k' + 1) n =
      entries_same s s' (k + 1) (k' + 1) n λ j l.
        let c : k + 1 + j ≡ k + (j + 1) = omega arith in
        let d : k' + 1 + j ≡ k' + (j + 1) = omega arith in
        ap s c ∙ h (j + 1) (omega arith) ∙ ap s' (sym d) in
    rw (first, rest) refl

remove_absent :
    (e : Ptr) (s : ℕ → Ptr) (k n : ℕ)
    → ((j : ℕ) → k ≤ j → j < k + n → s j ≢ e)
    → remove e (entries s k n) ≡ entries s k n
remove_absent e s k zero h = refl
remove_absent e s k (suc n) h =
    let rest = remove_absent e s (k + 1) n (λ j a b. h j (omega arith) (omega arith)) in
    let b : (s k == e) ≡ false = ground (arith, h k (omega arith) (omega arith)) in
    rw (b, rest) refl

remove_present :
    (s : ℕ → Ptr) (h k n : ℕ)
    → k ≤ h
    → h ≤ k + n
    → ((j : ℕ) → k ≤ j → j ≤ k + n → j ≢ h → s j ≢ s h)
    → remove (s h) (entries s k (suc n)) ≡ entries (without h s) k n
remove_present s h k zero le lt other =
    let e : h ≡ k = omega arith in let b : (s k == s h) ≡ true = ground (arith, ap s e) in rw b refl
remove_present s h k (suc n) le lt other = elim (ℕ_discrete h k) [
  | yes e ↦
      let b : (s k == s h) ≡ true = ground (arith, ap s e) in
      rw b (
        remove_absent (s h) s (k + 1) (suc n)
          (λ j x y. other j (omega arith) (omega arith) (omega arith))
        ∙ entries_same s (without h s) (k + 1) k (suc n)
            λ j l. let c : k + 1 + j ≡ k + j + 1 = omega arith in ap s c ∙ ground arith)
  | no d ↦
      let b : (s k == s h) ≡ false = ground (arith, other k) in
      let rest =
        remove_present s h (k + 1) n (omega arith) (omega arith)
          (λ j x y. other j (omega arith) (omega arith)) in
      let w : without h s k ≡ s k = ground arith in rw (b, rest, w) refl
]

entries_snoc : (s : ℕ → Ptr) (k n : ℕ) → entries s k (suc n) ≡ entries s k n ++ s (k + n) ∷ []
entries_snoc s k zero = let a : k + 0 ≡ k = omega arith in ap (λ j. s j ∷ []) (sym a)
entries_snoc s k (suc n) =
    let c : k + 1 + n ≡ k + suc n = omega arith in
    ap (λ r. s k ∷ r) (entries_snoc s (k + 1) n ∙ ap (λ j. entries s (k + 1) n ++ s j ∷ []) c)

module _ {head : Ptr} {x : ℕ} {m : Machine} {l : Links} (q : Queue head x m l) where
  pub queue_absent : (e : Ptr) → ((k : ℕ) → k < q.n → q.s k ≢ e) → remove e (queue q) ≡ queue q
  queue_absent e out =
      remove_absent e q.s 1 (q.n - 1) (λ j a b. out j (omega (arith, q.some_place)))

  -- the queue without the entry at place `h`
  pub queue_present :
      (h : ℕ) → 0 < h → h < q.n → entries (without h q.s) 1 (q.n - 1 - 1) ≡ remove (q.s h) (queue q)
  queue_present h pos lt =
      let c : q.n - 1 ≡ suc (q.n - 1 - 1) = omega arith in
      sym (
        ap (λ n. remove (q.s h) (entries q.s 1 n)) c
        ∙ remove_present q.s h 1 (q.n - 1 - 1) (omega arith) (omega arith)
            λ j a b ne e. ne (ground (arith, q.ring.place j, q.ring.place h lt)))

  -- the queue with an entry at its front
  pub queue_front : (e : Ptr) → entries (with 1 e q.s) 1 (q.n + 1 - 1) ≡ e ∷ queue q
  queue_front e =
      let c : q.n + 1 - 1 ≡ suc (q.n - 1) = omega (arith, q.some_place) in
      ap (entries (with 1 e q.s) 1) c
      ∙ ap (λ r. e ∷ r)
          (entries_same (with 1 e q.s) q.s 2 1 (q.n - 1)
            λ j l. let d : 2 + j - 1 ≡ 1 + j = omega arith in ground (arith, ap q.s d))

  -- the queue with an entry at its end
  pub queue_back : (e : Ptr) → entries (with q.n e q.s) 1 (q.n + 1 - 1) ≡ queue q ++ e ∷ []
  queue_back e =
      let c : q.n + 1 - 1 ≡ suc (q.n - 1) = omega (arith, q.some_place) in
      let last : with q.n e q.s (1 + (q.n - 1)) ≡ e = ground (arith, q.some_place) in
      let rest : entries (with q.n e q.s) 1 (q.n - 1) ≡ queue q =
        entries_same (with q.n e q.s) q.s 1 1 (q.n - 1) (λ j l. ground arith) in
      ap (entries (with q.n e q.s) 1) c
      ∙ entries_snoc (with q.n e q.s) 1 (q.n - 1)
      ∙ rw (rest, last) refl

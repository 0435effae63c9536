-- ===== src/PageTable/Cleared.antt =====
-- CSC369_PageTableDestroy gives back a table and all that is below it, and nothing else.
use native.Mathlib.Decide.{ℕ_discrete}
use csc369_os_a.Base.{
  ℕ, zero, suc, ◌+◌, ◌≤◌, ◌<◌, ◌≡◌, ◌≢◌, ◌∙◌, ◌⊎◌, inl, inr, sym, refl, subst, true, false, some,
  arith, ◌==◌, Ptr, null, Bool-cases,
}
use csc369_os_a.Base.Returns
use csc369_os_a.Base.Returns.{Returns, returns}
use csc369_os_a.PageTable.{Heap, H, table_size, load_table, load_slot}
use csc369_os_a.PageTable.View.{slot, below, has_pte, has_table}
use csc369_os_a.PageTable.Tree.{IsTree, no_table}
use csc369_os_a.PageTable.Owned.{IsStored, IsRooted}
use csc369_os_a.PageTable.Within.{Within, InSlots, in_slot, slots_apart, no_loop}
use csc369_os_a.PageTable.Destroy.{destroy_slots}

-- the tables below entries of a set
abbrev pub Tables : Heap → (Ptr → Type 0) → Ptr → Type 0
Tables h S u = (p : Ptr) × S p × (below h p ≡ u) × (u ≢ null)

-- The entries of `S` and the tables of `T` are as in `h0`.
pub record Intact (h0 : Heap) (S T : Ptr → Type 0) (h : Heap) : Type 0 where
  pub ptes : (p : Ptr) → S p → h.pte p ≡ h0.pte p
  pub tables : (u : Ptr) → T u → h.table u ≡ h0.table u

-- From `h` to `h'` the entries of `S` and the tables of `T` go, and no others.
pub record Cleared (mm : Ptr) (S T : Ptr → Type 0) (h h' : Heap) : Type 0 where
  pub stored : IsStored mm h'
  pub ptes : (p : Ptr) → ¬ S p → h'.pte p ≡ h.pte p
  pub tables : (u : Ptr) → ¬ T u → h'.table u ≡ h.table u
  pub no_pte : (p : Ptr) → S p → has_pte h' p ≡ false
  pub no_table : (u : Ptr) → T u → has_table h' u ≡ false
  pub gone_pte : (p : Ptr) → has_pte h p ≡ false → has_pte h' p ≡ false
  pub gone_table : (u : Ptr) → has_table h u ≡ false → has_table h' u ≡ false

pub Cleared-trans :
    {mm : Ptr} {S T S1 T1 S2 T2 : Ptr → Type 0} {h h1 h2 : Heap}
    → Cleared mm S1 T1 h h1
    → Cleared mm S2 T2 h1 h2
    → ((p : Ptr) → S p → S1 p ⊎ S2 p)
    → ((p : Ptr) → S1 p ⊎ S2 p → S p)
    → ((u : Ptr) → T u → T1 u ⊎ T2 u)
    → ((u : Ptr) → T1 u ⊎ T2 u → T u)
    → Cleared mm S T h h2
Cleared-trans a b si so ti to = record {
  stored = b.stored;
  ptes = λ p n. b.ptes p (λ x. n (so p (inr x))) ∙ a.ptes p (λ x. n (so p (inl x)));
  tables = λ u n. b.tables u (λ x. n (to u (inr x))) ∙ a.tables u (λ x. n (to u (inl x)));
  no_pte = λ p x. elim (si p x) [ inl y ↦ b.gone_pte p (a.no_pte p y) | inr y ↦ b.no_pte p y ];
  no_table =
      λ u x. elim (ti u x) [ inl y ↦ b.gone_table u (a.no_table u y) | inr y ↦ b.no_table u y ];
  gone_pte = λ p x. b.gone_pte p (a.gone_pte p x);
  gone_table = λ u x. b.gone_table u (a.gone_table u x);
}

pub Cleared-map :
    {mm : Ptr} {S T S1 T1 : Ptr → Type 0} {h h' : Heap}
    → Cleared mm S1 T1 h h'
    → ((p : Ptr) → S p → S1 p)
    → ((p : Ptr) → S1 p → S p)
    → ((u : Ptr) → T u → T1 u)
    → ((u : Ptr) → T1 u → T u)
    → Cleared mm S T h h'
Cleared-map c si so ti to = record {
  stored = c.stored;
  ptes = λ p n. c.ptes p (λ x. n (so p x));
  tables = λ u n. c.tables u (λ x. n (to u x));
  no_pte = λ p x. c.no_pte p (si p x);
  no_table = λ u x. c.no_table u (ti u x);
  gone_pte = c.gone_pte;
  gone_table = c.gone_table;
}

pub Cleared-nothing :
    {mm : Ptr} {S T : Ptr → Type 0} {h : Heap}
    → IsStored mm h
    → ((p : Ptr) → ¬ S p)
    → ((u : Ptr) → ¬ T u)
    → Cleared mm S T h h
Cleared-nothing s n m = record {
  stored = s;
  ptes = λ p x. refl;
  tables = λ u x. refl;
  no_pte = λ p x. absurd (n p x);
  no_table = λ u x. absurd (m u x);
  gone_pte = λ p x. x;
  gone_table = λ u x. x;
}

module _ (mm : Ptr) {h0 : Heap} {root : Ptr} (v : IsTree h0) (r : IsRooted root h0) where
  -- destroying an entry takes what is within it
  abbrev pub DestroysPte : (Ptr → H (Unit {0})) → Ptr → Type 0
  DestroysPte destroy q =
      (h : Heap)
      → IsStored mm h
      → Intact h0 (Within h0 q) (Tables h0 (Within h0 q)) h
      → Returns (λ _. Cleared mm (Within h0 q) (Tables h0 (Within h0 q)) h) (destroy q h)

  load_slot_at :
      (t i : ℕ) (h : Heap)
      → has_table h0 t ≡ true
      → i < table_size
      → h.table t ≡ h0.table t
      → load_slot t i h ≡ some (slot h0 t i, h)
  unfolding load_slot load_table
  load_slot_at t i h has lt e = ground (arith, no_table v)

  module _ (destroy : Ptr → H (Unit {0})) (t : Ptr) (has : has_table h0 t ≡ true)
      (works : (i : ℕ) → slot h0 t i ≢ null → DestroysPte destroy (slot h0 t i)) where
    abbrev Rest : ℕ → Ptr → Type 0
    Rest = InSlots h0 t

    Rest-end : (i : ℕ) → table_size ≤ i → (p : Ptr) → ¬ Rest i p
    Rest-end i l p (in_slot j k ne w) = omega (arith, r.slot_lt t j ne)

    Rest-split :
        (i : ℕ) (p : Ptr)
        → Rest i p
        → (slot h0 t i ≢ null) × Within h0 (slot h0 t i) p ⊎ Rest (i + 1) p
    Rest-split i p (in_slot j l ne w) = elim (ℕ_discrete i j) [
      | yes e ↦ inl (
        subst (λ k. slot h0 t k ≢ null) (sym e) ne,
        subst (λ k. Within h0 (slot h0 t k) p) (sym e) w,
      )
      | no d ↦ inr (in_slot j (omega arith) ne w)
    ]

    Rest-later : (i : ℕ) (p : Ptr) → Rest (i + 1) p → Rest i p
    Rest-later i p (in_slot j l ne w) = in_slot j (omega arith) ne w

    Rest-apart :
        (i : ℕ) (p : Ptr) → slot h0 t i ≢ null → Rest (i + 1) p → ¬ Within h0 (slot h0 t i) p
    Rest-apart i p ne (in_slot j l nj w') w = omega (arith, slots_apart v r t i j ne nj w w')

    Tables-apart :
        (i : ℕ) (u : Ptr)
        → slot h0 t i ≢ null
        → Tables h0 (Rest (i + 1)) u
        → ¬ Tables h0 (Within h0 (slot h0 t i)) u
    Tables-apart i u ne (p, rest, e, nu) (p', w, e', _) =
        let same : p ≡ p' = v.below_unique p p' (λ z. nu (sym e ∙ z)) (e ∙ sym e') in
        Rest-apart i p ne rest (subst (Within h0 (slot h0 t i)) (sym same) w)

    -- where the slot is NULL there is nothing to do for it
    skip_slot :
        (i : ℕ) {h h' : Heap}
        → slot h0 t i ≡ null
        → Cleared mm (Rest (i + 1)) (Tables h0 (Rest (i + 1))) h h'
        → Cleared mm (Rest i) (Tables h0 (Rest i)) h h'
    skip_slot i z c =
        let on : (p : Ptr) → Rest i p → Rest (i + 1) p =
          λ p x. elim (Rest-split i p x) [ inl (ne, _) ↦ absurd (ne z) | inr y ↦ y ] in
        Cleared-map c on (Rest-later i) (λ u (p, x, e, n). (p, on p x, e, n))
          (λ u (p, x, e, n). (p, Rest-later i p x, e, n))

    take_slot :
        (i : ℕ) {h h1 h2 : Heap}
        → slot h0 t i ≢ null
        → Cleared mm (Within h0 (slot h0 t i)) (Tables h0 (Within h0 (slot h0 t i))) h h1
        → Cleared mm (Rest (i + 1)) (Tables h0 (Rest (i + 1))) h1 h2
        → Cleared mm (Rest i) (Tables h0 (Rest i)) h h2
    take_slot i ne a b =
        let split : (p : Ptr) → Rest i p → Within h0 (slot h0 t i) p ⊎ Rest (i + 1) p =
          λ p x. elim (Rest-split i p x) [ inl (_, w) ↦ inl w | inr y ↦ inr y ] in
        let join : (p : Ptr) → Within h0 (slot h0 t i) p ⊎ Rest (i + 1) p → Rest i p =
          λ p x. elim x [ inl w ↦ in_slot i (omega arith) ne w | inr y ↦ Rest-later i p y ] in
        Cleared-trans a b split join
          (λ u (p, x, e, n). elim (split p x) [
            | inl y ↦ inl (p, y, e, n)
            | inr y ↦ inr (p, y, e, n)
          ])
          (λ u x. elim x [
            | inl (p, y, e, n) ↦ (p, join p (inl y), e, n)
            | inr (p, y, e, n) ↦ (p, join p (inr y), e, n)
          ])

    pub destroy_slots-Cleared :
        (n i : ℕ) (h : Heap)
        → i + n ≡ table_size
        → IsStored mm h
        → h.table t ≡ h0.table t
        → Intact h0 (Rest i) (Tables h0 (Rest i)) h
        → Returns (λ _. Cleared mm (Rest i) (Tables h0 (Rest i)) h) (destroy_slots destroy t n i h)
    unfolding destroy_slots
    destroy_slots-Cleared zero i h e s same whole = returns (
        Cleared-nothing s (Rest-end i (omega arith))
          (λ u (p, x, _, _). Rest-end i (omega arith) p x))
    destroy_slots-Cleared (suc n) i h e s same whole =
        rw (load_slot_at t i h has (omega arith) same) (elim (Bool-cases (slot h0 t i == null)) [
          | inl z ↦
              let null_slot : slot h0 t i ≡ null = ground arith in
              rw z (
                Returns.mono
                  (destroy_slots-Cleared n (i + 1) h (omega arith) s same (record {
                    ptes = λ p x. whole.ptes p (Rest-later i p x);
                    tables = λ u (p, x, e, n). whole.tables u (p, Rest-later i p x, e, n);
                  }))
                  λ _ h' c. skip_slot i null_slot c)
          | inr nz ↦
              let ne : slot h0 t i ≢ null = ground arith in
              rw nz (
                Returns.bind {k = λ _. destroy_slots destroy t n (i + 1)}
                  (works i ne h s (record {
                    ptes = λ p w. whole.ptes p (in_slot i (omega arith) ne w);
                    tables =
                        λ u (p, w, e, n). whole.tables u (p, in_slot i (omega arith) ne w, e, n);
                  }))
                  λ _ h1 a.
                    Returns.mono
                      (destroy_slots-Cleared n (i + 1) h1 (omega arith) a.stored
                        (a.tables t (λ (p, w, e, _). no_loop v r t i p ne w (sym e)) ∙ same)
                        (record {
                          ptes = λ p x.
                              a.ptes p (Rest-apart i p ne x) ∙ whole.ptes p (Rest-later i p x);
                          tables = λ u x.
                              a.tables u (Tables-apart i u ne x)
                              ∙ whole.tables u
                                  (let (p, y, e, n) = x in (p, Rest-later i p y, e, n));
                        }))
                      λ _ h2 b. take_slot i ne a b)
        ])

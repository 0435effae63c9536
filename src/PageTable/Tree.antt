-- ===== src/PageTable/Tree.antt =====
-- The invariant of the page table's heap, and how it grows.
use csc369_os_a.Base.{
  ℕ, ◌/◌, ◌^◌, ◌<◌, ◌≡◌, refl, ◌≢◌, ◌⊎◌, inl, Bool, true, false, arith, Ptr, null,
}
use csc369_os_a.PageTable.{Heap}
use csc369_os_a.PageTable.View.{slot, below, has_pte, has_table, status, walk}

-- Every pointer leads to a live object below `next`, and no two slots hold the same entry, nor two
-- entries the same table.
pub record IsTree (h : Heap) : Type 0 where
  pub next_pos : 0 < h.next
  pub pte_lt : (p : Ptr) → has_pte h p ≡ true → (0 < p) × (p < h.next)
  pub table_lt : (t : Ptr) → has_table h t ≡ true → (0 < t) × (t < h.next)
  pub slot_pte : (t : Ptr) (i : ℕ) → slot h t i ≢ null → has_pte h (slot h t i) ≡ true
  pub below_table : (p : Ptr) → below h p ≢ null → has_table h (below h p) ≡ true
  pub slot_unique :
      (t u : Ptr) (i j : ℕ) → slot h t i ≢ null → slot h t i ≡ slot h u j → (t ≡ u) × (i ≡ j)
  pub below_unique : (p q : Ptr) → below h p ≢ null → below h p ≡ below h q → p ≡ q

-- A pointer that grew: the same, or one that was NULL and leads to nothing that was there.
abbrev pub Sub : (Ptr → Bool) → Ptr → Ptr → Type 0
Sub old x x' = (x' ≡ x) ⊎ ((x ≡ null) × (old x' ≡ false))

-- `h'` is `h` with new entries and tables; the status of no entry has changed.
pub record Grown (h h' : Heap) : Type 0 where
  pub slots : (t : Ptr) (i : ℕ) → Sub (has_pte h) (slot h t i) (slot h' t i)
  pub belows : (p : Ptr) → Sub (has_table h) (below h p) (below h' p)
  pub ptes : (p : Ptr) → has_pte h' p ≡ false → has_pte h p ≡ false
  pub tables : (t : Ptr) → has_table h' t ≡ false → has_table h t ≡ false
  pub statuses : (p : Ptr) → status h' p ≡ status h p

pub Grown-refl : (h : Heap) → Grown h h
Grown-refl h = record {
  slots = λ t i. inl refl;
  belows = λ p. inl refl;
  ptes = λ p e. e;
  tables = λ t e. e;
  statuses = λ p. refl;
}

pub Grown-trans : {g h k : Heap} → Grown g h → Grown h k → Grown g k
Grown-trans {g} {h} {k} a b = record {
  slots = λ t i. ground (arith, a.slots t i, b.slots t i, a.ptes (slot k t i));
  belows = λ p. ground (arith, a.belows p, b.belows p, a.tables (below k p));
  ptes = λ p e. a.ptes p (b.ptes p e);
  tables = λ t e. a.tables t (b.tables t e);
  statuses = λ p. ground (arith, a.statuses p, b.statuses p);
}

module _ {h : Heap} (v : IsTree h) where
  pub no_pte : has_pte h null ≡ false
  no_pte = ground (arith, v.pte_lt null)

  pub no_table : has_table h null ≡ false
  no_table = ground (arith, v.table_lt null)

module _ {h h' : Heap} (v : IsTree h) (g : Grown h h') where
  below-Sub : {p p' : Ptr} → Sub (has_pte h) p p' → Sub (has_table h) (below h p) (below h' p')
  below-Sub {p} {p'} s = ground (arith, no_pte v, g.belows p, g.belows p')

  slot-Sub :
      {t t' : Ptr} (i : ℕ) → Sub (has_table h) t t' → Sub (has_pte h) (slot h t i) (slot h' t' i)
  slot-Sub {t} {t'} i s = ground (arith, no_table v, g.slots t i, g.slots t' i)

  pub walk-Sub : (t : Ptr) (va : ℕ) → Sub (has_pte h) (walk h t va) (walk h' t va)
  unfolding walk
  walk-Sub t va = slot-Sub _ (below-Sub (slot-Sub _ (below-Sub (g.slots t _))))

module _ {h : Heap} (v : IsTree h) where
  pub below_ne : (p : Ptr) → below h p ≢ null → p ≢ null
  below_ne p ne = ground (arith, no_pte v)

  pub slot_ne : (t : Ptr) (i : ℕ) → slot h t i ≢ null → t ≢ null
  slot_ne t i ne = ground (arith, no_table v)

  -- Two addresses lead to one entry only if they are in one page.
  pub walk_unique :
      (t : Ptr) (a b : ℕ) → walk h t a ≢ null → walk h t a ≡ walk h t b → a / 2 ^ 12 ≡ b / 2 ^ 12
  unfolding walk
  walk_unique t a b ne e =
      let (e2, i3) = v.slot_unique _ _ _ _ ne e in
      let ne2 = slot_ne _ _ ne in
      let e2' = v.below_unique _ _ ne2 e2 in
      let ne1 = below_ne _ ne2 in
      let (e1, i2) = v.slot_unique _ _ _ _ ne1 e2' in
      let ne0 = slot_ne _ _ ne1 in
      let e1' = v.below_unique _ _ ne0 e1 in
      let (_, i1) = v.slot_unique t t _ _ (below_ne _ ne0) e1' in omega arith

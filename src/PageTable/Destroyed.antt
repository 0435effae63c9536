-- ===== src/PageTable/Destroyed.antt =====
-- CSC369_PTEDestroy and CSC369_PageTableDestroy, level by level, and all that is below a table.
use csc369_os_a.Base.{
  ℕ, zero, suc, ◌+◌, ◌≤◌, ◌<◌, ◌≡◌, ◌≢◌, ◌∙◌, ◌⊎◌, inl, inr, sym, refl, ap, subst, true, false,
  some, arith, ◌==◌, Ptr, null, Bool-cases, Option-cases, ◌>>◌, and_then,
}
use csc369_os_a.Base.Returns
use csc369_os_a.Base.Returns.{Returns, returns}
use csc369_os_a.PageTable.{Pte, PageTable, Heap, H, table_size, load_pte, load_table, free}
use csc369_os_a.PageTable.View.{slot, below, has_pte, has_table}
use csc369_os_a.PageTable.Tree.{IsTree, no_table, no_pte}
use csc369_os_a.PageTable.Owned.{IsStored, IsRooted, array}
use csc369_os_a.PageTable.Free.Pte.{PteFreed, free_pte}
use csc369_os_a.PageTable.Free.Table.{TableFreed, free_table}
use csc369_os_a.PageTable.Within.{
  Within, here, InSlots, in_slot, Within-InSlots, InSlots-Within, Within-le, no_loop,
}
use csc369_os_a.PageTable.Cleared.{
  Tables, Intact, Cleared, Cleared-trans, Cleared-map, DestroysPte, destroy_slots-Cleared,
}
use csc369_os_a.PageTable.Destroy.{pte_destroy, destroy_slots, page_table_destroy}

PteFreed-Cleared :
    {mm q : Ptr} {h h' : Heap} → PteFreed mm q h h' → Cleared mm (λ p. p ≡ q) (λ _. ⊥) h h'
PteFreed-Cleared {q = q} f = record {
  stored = f.stored;
  ptes = λ p n. f.ptes p ∙ ground (arith, n);
  tables = λ u n. f.tables u;
  no_pte = λ p e. ground (arith, f.ptes p);
  no_table = λ u x. absurd x;
  gone_pte = λ p e. ground (arith, f.ptes p);
  gone_table = λ u e. ground (arith, f.tables u);
}

TableFreed-Cleared :
    {mm t : Ptr} {h h' : Heap} → TableFreed mm t h h' → Cleared mm (λ _. ⊥) (λ u. u ≡ t) h h'
TableFreed-Cleared f = record {
  stored = f.stored;
  ptes = λ p n. f.ptes p;
  tables = λ u n. f.tables u ∙ ground (arith, n);
  no_pte = λ p x. absurd x;
  no_table = λ u e. ground (arith, f.tables u);
  gone_pte = λ p e. ground (arith, f.ptes p);
  gone_table = λ u e. ground (arith, f.tables u);
}

-- a table, and those below it
abbrev pub FromTable : Heap → Ptr → Ptr → Type 0
FromTable h t u = (u ≡ t) ⊎ Tables h (InSlots h t 0) u

module _ (mm : Ptr) {h0 : Heap} {root : Ptr} (v : IsTree h0) (r : IsRooted root h0) where
  abbrev DestroysTable : ℕ → Ptr → Type 0
  DestroysTable fuel t =
      (h : Heap)
      → IsStored mm h
      → Intact h0 (InSlots h0 t 0) (FromTable h0 t) h
      → Returns (λ _. Cleared mm (InSlots h0 t 0) (FromTable h0 t) h) (page_table_destroy fuel t h)

  load_pte_at :
      (q : Ptr) (h : Heap)
      → has_pte h0 q ≡ true
      → h.pte q ≡ h0.pte q
      → (e : Pte) × (load_pte q h ≡ some (e, h)) × (e.page_table ≡ below h0 q)
  unfolding load_pte
  load_pte_at q h has same = elim (Option-cases (h0.pte q)) [
    | inl n ↦ absurd (ground arith)
    | inr (e, at) ↦ (e, ground (arith, no_pte v), ground arith)
  ]

  leaf_only : (q p : Ptr) → below h0 q ≡ null → Within h0 q p → p ≡ q
  leaf_only q p z w = elim (Within-InSlots v r w) [
    | inl e ↦ e
    | inr (in_slot j l ne x) ↦ absurd (ground (arith, no_table v))
  ]

  pte_destroy-leaf :
      (destroy : Ptr → H (Unit {0})) (q : Ptr)
      → has_pte h0 q ≡ true
      → below h0 q ≡ null
      → DestroysPte mm v r (pte_destroy destroy) q
  unfolding pte_destroy
  pte_destroy-leaf destroy q has z h s whole =
      let same = whole.ptes q (here refl) in
      let (e, run, b) = load_pte_at q h has same in
      let (h', f) = free_pte s q (ground (arith, same)) in
      let leaf : (e.page_table == null) ≡ true = ground arith in
      rw (run, leaf, f.run)
        (returns (
          Cleared-map (PteFreed-Cleared f) (λ p w. leaf_only q p z w) (λ p e. here e)
            (λ u (p, w, e, n). n (sym e ∙ ap (below h0) (leaf_only q p z w) ∙ z))
            (λ u x. absurd x)))

  split : (q p : Ptr) → Within h0 q p → InSlots h0 (below h0 q) 0 p ⊎ (p ≡ q)
  split q p w = elim (Within-InSlots v r w) [ inl e ↦ inr e | inr x ↦ inl x ]

  join : (q p : Ptr) → InSlots h0 (below h0 q) 0 p ⊎ (p ≡ q) → Within h0 q p
  join q p (inl x) = InSlots-Within v r x
  join q p (inr e) = here e

  to_table : (q u : Ptr) → Tables h0 (Within h0 q) u → FromTable h0 (below h0 q) u ⊎ ⊥
  to_table q u (p, w, e, n) = elim (split q p w) [
    | inl x ↦ inl (inr (p, x, e, n))
    | inr same ↦ inl (inl (sym e ∙ ap (below h0) same))
  ]

  from_table :
      (q : Ptr)
      → below h0 q ≢ null
      → (u : Ptr) → FromTable h0 (below h0 q) u ⊎ ⊥
      → Tables h0 (Within h0 q) u
  from_table q ne u (inl (inl e)) = (q, here refl, sym e, λ z. ne (sym e ∙ z))
  from_table q ne u (inl (inr (p, x, e, n))) = (p, InSlots-Within v r x, e, n)
  from_table q ne u (inr x) = absurd x

  not_below : (q : Ptr) → ¬ InSlots h0 (below h0 q) 0 q
  not_below q (in_slot j l ne w) =
      let table_ne : below h0 q ≢ null = ground (arith, no_table v, v.slot_pte (below h0 q) j) in
      omega (arith, Within-le v r w, r.slot_lt (below h0 q) j ne, r.below_lt q table_ne)

  pte_destroy-inner :
      (fuel : ℕ) (q : Ptr)
      → has_pte h0 q ≡ true
      → below h0 q ≢ null
      → DestroysTable fuel (below h0 q)
      → DestroysPte mm v r (pte_destroy (page_table_destroy fuel)) q
  unfolding pte_destroy
  pte_destroy-inner fuel q has ne works h s whole =
      let same = whole.ptes q (here refl) in
      let (e, run, b) = load_pte_at q h has same in
      let inner : (e.page_table == null) ≡ false = ground arith in
      let set : (p : Ptr) → InSlots h0 (below h0 q) 0 p → Within h0 q p =
        λ p x. InSlots-Within v r x in
      rw (run, inner)
        (Returns.bind {k = λ _. free q}
          (subst
            (λ u.
              Returns (λ _. Cleared mm (InSlots h0 (below h0 q) 0) (FromTable h0 (below h0 q)) h)
                (page_table_destroy fuel u h))
            (sym b)
            (works h s (record {
              ptes = λ p x. whole.ptes p (set p x);
              tables = λ u x. whole.tables u (from_table q ne u (inl x));
            })))
          λ _ h1 a.
            let kept : h1.pte q ≡ h0.pte q = a.ptes q (not_below q) ∙ same in
            let (h2, f) = free_pte a.stored q (ground (arith, kept)) in
            rw f.run (
              returns (
                Cleared-trans a (PteFreed-Cleared f) (split q) (join q) (to_table q)
                  (from_table q ne))))

  load_table_at :
      (t : Ptr) (h : Heap)
      → has_table h0 t ≡ true
      → h.table t ≡ h0.table t
      → (tb : PageTable) × (load_table t h ≡ some (tb, h)) × (h0.table t ≡ some tb)
  unfolding load_table
  load_table_at t h has same = elim (Option-cases (h0.table t)) [
    | inl n ↦ absurd (ground arith)
    | inr (tb, at) ↦ (tb, ground (arith, no_table v), at)
  ]

  destroy_any :
      (fuel : ℕ) (t i : ℕ)
      → slot h0 t i ≢ null
      → ((u : Ptr) → has_table h0 u ≡ true → t < u → DestroysTable fuel u)
      → DestroysPte mm v r (pte_destroy (page_table_destroy fuel)) (slot h0 t i)
  destroy_any fuel t i ne works = elim (Bool-cases (below h0 (slot h0 t i) == null)) [
    | inl z ↦
        pte_destroy-leaf (page_table_destroy fuel) (slot h0 t i) (v.slot_pte t i ne) (ground arith)
    | inr nz ↦
        let q = slot h0 t i in
        let nb : below h0 q ≢ null = ground arith in
        pte_destroy-inner fuel q (v.slot_pte t i ne) nb (
          works (below h0 q) (v.below_table q nb)
            (omega (arith, r.slot_lt t i ne, r.below_lt q nb)))
  ]

  not_own : (t : Ptr) → ¬ Tables h0 (InSlots h0 t 0) t
  not_own t (p, in_slot j l ne w, e, n) = no_loop v r t j p ne w (sym e)

  -- the end of CSC369_PageTableDestroy, once its slots are done
  free_end :
      (t : Ptr) (tb : PageTable) {h h1 : Heap}
      → h1.table t ≡ some tb
      → Cleared mm (InSlots h0 t 0) (Tables h0 (InSlots h0 t 0)) h h1
      → Returns (λ _. Cleared mm (InSlots h0 t 0) (FromTable h0 t) h) ((free tb.array >> free t) h1)
  free_end t tb {h} {h1} kept a =
      let (h2, f) = free_table a.stored t (ground (arith, kept)) in
      let array_is : array h1 t ≡ tb.array = ground (arith, kept) in
      let freed : (free tb.array >> free t) h1 ≡ some (tt, h2) =
        subst (λ b. (free b >> free t) h1 ≡ some (tt, h2)) array_is f.run in
      subst (Returns (λ _. Cleared mm (InSlots h0 t 0) (FromTable h0 t) h)) (sym freed) (
        returns (
          Cleared-trans a (TableFreed-Cleared f) (λ p x. inl x)
            (λ p x. elim x [ inl y ↦ y | inr y ↦ absurd y ])
            (λ u x. elim x [ inl e ↦ inr e | inr y ↦ inl y ])
            (λ u x. elim x [ inl y ↦ inr y | inr e ↦ inl e ])))

  pub page_table_destroy-Cleared :
      (fuel : ℕ) (t : Ptr) → has_table h0 t ≡ true → h0.next ≤ t + fuel → DestroysTable fuel t
  unfolding page_table_destroy
  page_table_destroy-Cleared zero t has enough h s whole = absurd (omega (arith, v.table_lt t has))
  page_table_destroy-Cleared (suc fuel) t has enough h s whole =
      let same = whole.tables t (inl refl) in
      let (tb, run, at) = load_table_at t h has same in
      subst
        (λ o.
          Returns (λ _. Cleared mm (InSlots h0 t 0) (FromTable h0 t) h)
            (and_then o (λ tb.
              destroy_slots (pte_destroy (page_table_destroy fuel)) t table_size 0
              >> (free tb.array >> free t))))
        (sym run)
        (Returns.bind {k = λ _. free tb.array >> free t}
          (destroy_slots-Cleared mm v r (pte_destroy (page_table_destroy fuel)) t has
            (λ i ne.
              destroy_any fuel t i ne
                (λ u hu lt. page_table_destroy-Cleared fuel u hu (omega (arith, lt, enough))))
            table_size 0 h refl s same
            (record { ptes = whole.ptes; tables = λ u x. whole.tables u (inr x) }))
          λ _ h1 a. free_end t tb (a.tables t (not_own t) ∙ same ∙ at) a)

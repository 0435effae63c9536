-- ===== src/PageTable/Emptied.antt =====
-- CSC369_PageTableDestroy of a whole page table: every entry and table is reached.
use csc369_os_a.Base.{
  ℕ, zero, suc, ◌<◌, ◌≡◌, ◌≢◌, ◌∙◌, inl, inr, sym, refl, ap, subst, true, false, arith, Ptr, null,
  Bool-cases,
}
use csc369_os_a.Base.Returns
use csc369_os_a.Base.Returns.{Returns, returns}
use csc369_os_a.PageTable.{Heap}
use csc369_os_a.PageTable.View.{slot, below, has_pte, has_table}
use csc369_os_a.PageTable.Tree.{IsTree, no_table, no_pte}
use csc369_os_a.PageTable.Owned.{IsStored, IsRooted, IsOwned}
use csc369_os_a.PageTable.Within.{deeper, here, InSlots, in_slot}
use csc369_os_a.PageTable.Destroy.{page_table_destroy}
use csc369_os_a.PageTable.Destroyed.{FromTable, page_table_destroy-Cleared}

module _ {h : Heap} {root : Ptr} (v : IsTree h) (r : IsRooted root h) where
  below-has_pte : (q : Ptr) → below h q ≢ null → has_pte h q ≡ true
  below-has_pte q ne = ground arith

  -- every entry is in a slot of the root, or below one
  reached : (bound p : ℕ) → p < bound → has_pte h p ≡ true → InSlots h root 0 p
  reached zero p l has = absurd (omega arith)
  reached (suc bound) p l has =
      let (t, i, at) = r.held p has in
      let np : p ≢ null = ground (arith, no_pte v) in
      let ne : slot h t i ≢ null = λ z. np (sym at ∙ z) in
      elim (r.hung t (ground (arith, v.slot_pte t i))) [
        | inl top ↦
            in_slot i (omega arith) (subst (λ u. slot h u i ≢ null) top ne)
              (here (sym at ∙ ap (λ u. slot h u i) top))
        | inr (q, b) ↦
            let nt : below h q ≢ null = λ z. ne (ground (arith, no_table v)) in
            let above : q < p = omega (arith, r.below_lt q nt, b, r.slot_lt t i ne, at) in
            within_slot q i p (reached bound q (omega arith) (below-has_pte q nt))
              (ap (λ u. slot h u i) b ∙ at) np
      ]
    where
      within_slot :
          (q : Ptr) (i : ℕ) (p : Ptr)
          → InSlots h root 0 q
          → slot h (below h q) i ≡ p
          → p ≢ null
          → InSlots h root 0 p
      within_slot q i p (in_slot j l ne w) e np = in_slot j l ne (deeper q i w e np)

  reached_table : (u : Ptr) → has_table h u ≡ true → FromTable h root u
  reached_table u has = elim (r.hung u has) [
    | inl e ↦ inl e
    | inr (q, b) ↦
        let nu : u ≢ null = ground (arith, no_table v) in
        let live = below-has_pte q (λ z. nu (sym b ∙ z)) in
        inr (q, reached (suc q) q (omega arith) live, b, nu)
  ]

-- The allocator holds no entry and no table any more.
pub record Emptied (mm : Ptr) (h : Heap) : Type 0 where
  pub stored : IsStored mm h
  pub no_pte : (p : Ptr) → has_pte h p ≡ false
  pub no_table : (u : Ptr) → has_table h u ≡ false

-- CSC369_PageTableDestroy of the root, in a heap whose objects all belong to the memory manager and
-- the tree below that root, ends without a fault, frees each entry, table and array once, and
-- leaves none of them. A recursion as deep as there are addresses in use is deep enough.
pub page_table_destroy-Emptied :
    {mm root : Ptr} {h : Heap}
    → IsTree h
    → IsOwned mm root h
    → Returns (λ _. Emptied mm) (page_table_destroy h.next root h)
page_table_destroy-Emptied {mm} {root} {h} v (s, r) =
    Returns.mono
      (page_table_destroy-Cleared mm v r h.next root r.root_table (omega arith) h s
        (record { ptes = λ p x. refl; tables = λ u x. refl }))
      λ _ h' c. record {
        stored = c.stored;
        no_pte = λ p. elim (Bool-cases (has_pte h p)) [
          | inl has ↦ c.no_pte p (reached v r (suc p) p (omega arith) has)
          | inr none_there ↦ c.gone_pte p none_there
        ];
        no_table = λ u. elim (Bool-cases (has_table h u)) [
          | inl has ↦ c.no_table u (reached_table v r u has)
          | inr none_there ↦ c.gone_table u none_there
        ];
      }

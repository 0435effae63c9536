-- ===== src/PageTable/Free/Pte.antt =====
-- CSC369_free of an entry of csc369_page_table.c: what it takes away, and what it keeps.
use csc369_os_a.Base.{
  update, ◌∙◌, ap, ◌≡◌, ◌≢◌, inl, inr, true, false, none, some, arith, ◌==◌, if◌then◌else◌, Ptr,
  null, Bool-cases, refl,
}
use csc369_os_a.Kmalloc.{Block}
use csc369_os_a.Kmalloc.Blocks.{live_block}
use csc369_os_a.PageTable.{Heap, sizeof_pte, without_owner, free}
use csc369_os_a.PageTable.View.{has_pte, has_table}
use csc369_os_a.PageTable.Owned.{block, array, Owner, manager, entry, table, array_at, IsStored}
use csc369_os_a.PageTable.Free.{without_owner_lem, freed_heap, Forgot, free_run}

module _ {mm : Ptr} {h : Heap} (s : IsStored mm h) (p : Ptr) (has : has_pte h p ≡ true) where
  abbrev without_pte : Heap
  without_pte = freed_heap p sizeof_pte h

  nonnull : (q : Ptr) (b : Block) → block h q ≡ some b → q ≢ null
  nonnull q b e = omega (arith, s.known q b e)

  free_pte_run : (free p h ≡ some (tt, without_pte)) × Forgot p sizeof_pte h without_pte
  free_pte_run =
      free_run p sizeof_pte h (nonnull p _ (s.pte_block p has)) (omega arith) (s.pte_block p has)
        s.accounted s.keys

  pte_not_table : has_table h p ≡ false
  pte_not_table = ground (arith, s.pte_block p has, s.table_block p)

  pte_not_array : (u : Ptr) → has_table h u ≡ true → array h u ≢ p
  pte_not_array u x e = ground (arith, s.pte_block p has, s.array_block u x)

  pte_tables : (u : Ptr) → without_pte.table u ≡ h.table u
  pte_tables u =
      let same : update h.table p none u ≡ h.table u = ground (arith, pte_not_table) in
      ap (without_owner p) same ∙ without_owner_lem p (h.table u) (pte_not_array u)

  pte_owner :
      (q : Ptr) (b : Block)
      → block without_pte q ≡ some b
      → b.freed ≡ false
      → Owner mm without_pte q
  pte_owner q b e l = elim (Bool-cases (p == q)) [
    | inl same ↦ absurd (ground (arith, free_pte_run.1.blocks q))
    | inr other ↦ elim (s.owner q b (ground (arith, free_pte_run.1.blocks q)) l) [
      | manager x ↦ manager x
      | entry x ↦ entry (ground arith)
      | table x ↦ table (rw (pte_tables q) x)
      | array_at u x y ↦ array_at u (rw (pte_tables u) x) (rw (pte_tables u) y)
    ]
  ]

  pte_IsStored : IsStored mm without_pte
  pte_IsStored =
      let f = free_pte_run.1 in
      let (n, pos, at) = s.mm_block in
      record {
        accounted = f.accounted;
        keys = f.keys;
        known = λ q b e.
            ground (
              arith,
              f.blocks q,
              s.known q b,
              s.known p (live_block sizeof_pte),
              s.pte_block p has,
            );
        mm_block = (n, pos, ground (arith, f.blocks mm, s.mm_pte));
        mm_pte = ground (arith, s.mm_pte);
        mm_table = rw (pte_tables mm) s.mm_table;
        mm_array = λ u. rw (pte_tables u) (s.mm_array u);
        pte_block = λ q x. ground (arith, f.blocks q, s.pte_block q);
        table_block = λ u.
            rw (pte_tables u) (λ x. ground (arith, f.blocks u, s.table_block u, pte_not_table));
        array_block = λ u.
            rw (pte_tables u)
              (λ x. f.blocks (array h u) ∙ ground (arith, pte_not_array u, s.array_block u));
        array_unique = λ u w. rw (pte_tables u, pte_tables w) (s.array_unique u w);
        owner = pte_owner;
      }

-- The free of an entry goes through, and takes nothing else away.
pub record PteFreed (mm p : Ptr) (h h' : Heap) : Type 0 where
  pub run : free p h ≡ some (tt, h')
  pub stored : IsStored mm h'
  pub ptes : (q : Ptr) → h'.pte q ≡ (if p == q then none else h.pte q)
  pub tables : (u : Ptr) → h'.table u ≡ h.table u

pub free_pte :
    {mm : Ptr} {h : Heap} (s : IsStored mm h) (p : Ptr)
    → has_pte h p ≡ true
    → (h' : Heap) × PteFreed mm p h h'
free_pte {h = h} s p has = (
  freed_heap p sizeof_pte h,
  record {
    run = (free_pte_run s p has).0;
    stored = pte_IsStored s p has;
    ptes = λ q. refl;
    tables = pte_tables s p has;
  },
)

-- ===== src/PageTable/Free/Table.antt =====
-- CSC369_free of a table of csc369_page_table.c and of its array, as the last steps of
-- CSC369_PageTableDestroy.
use csc369_os_a.Base.{
  update, sym, Bool-cases, inl, inr, ◌*◌, ◌≡◌, ◌≢◌, true, false, none, some, arith, ◌==◌,
  if◌then◌else◌, Ptr, Option, ap, refl, ◌∙◌, ◌>>◌,
}
use csc369_os_a.Kmalloc.{Block}
use csc369_os_a.Kmalloc.Blocks.{live_block}
use csc369_os_a.PageTable.{Heap, table_size, sizeof_page_table, sizeof_ptr, without_owner, free}
use csc369_os_a.PageTable.View.{is_some, has_table}
use csc369_os_a.PageTable.Owned.{block, array, Owner, manager, entry, table, array_at, IsStored}
use csc369_os_a.PageTable.Free.{without_owner_lem, freed_heap, Forgot, free_run}

module _ {mm : Ptr} {h : Heap} (s : IsStored mm h) (t : Ptr) (has : has_table h t ≡ true) where
  abbrev a : Ptr
  a = array h t

  abbrev without_array : Heap
  without_array = freed_heap a (sizeof_ptr * table_size) h

  abbrev without_table : Heap
  without_table = freed_heap t sizeof_page_table without_array

  apart : a ≢ t
  apart e = ground (arith, s.array_block t has, s.table_block t has)

  free_array_run :
      (free a h ≡ some (tt, without_array)) × Forgot a (sizeof_ptr * table_size) h without_array
  free_array_run =
      free_run a _ h (omega (arith, s.known a _ (s.array_block t has))) (omega arith)
        (s.array_block t has) s.accounted s.keys

  free_table_run :
      (free t without_array ≡ some (tt, without_table))
      × Forgot t sizeof_page_table without_array without_table
  free_table_run =
      let f = free_array_run.1 in
      free_run t _ without_array (omega (arith, s.known t _ (s.table_block t has))) (omega arith)
        (f.blocks t ∙ ground (arith, apart, s.table_block t has)) f.accounted f.keys

  table_blocks :
      (q : Ptr)
      → block without_table q ≡ (
          if t == q
          then some (record { size = sizeof_page_table; freed = true })
          else if a == q
          then some (record { size = sizeof_ptr * table_size; freed = true })
          else block h q)
  table_blocks q =
      free_table_run.1.blocks q
      ∙ ap
          (λ (o : Option Block).
            if t == q then some (record { size = sizeof_page_table; freed = true }) else o)
          (free_array_run.1.blocks q)

  table_ptes : (q : Ptr) → without_table.pte q ≡ h.pte q
  table_ptes q =
      ground (arith, s.pte_block a, s.pte_block t, s.array_block t has, s.table_block t has)

  array_not_table : has_table h a ≡ false
  array_not_table = ground (arith, s.table_block a, s.array_block t has)

  other_array : (u : Ptr) → t ≢ u → has_table h u ≡ true → (t ≢ array h u) × (a ≢ array h u)
  other_array u ne x = (
    (λ e. ground (arith, s.array_block u x, s.table_block t has)),
    (λ e. ne (s.array_unique t u has x e)),
  )

  other_kept : (u : Ptr) → t ≢ u → without_table.table u ≡ h.table u
  other_kept u ne =
      let apart_of : is_some (h.table u) ≡ true → (array h u ≢ t) × (array h u ≢ a) =
        λ x. let (n1, n2) = other_array u ne x in (λ e. n1 (sym e), λ e. n2 (sym e)) in
      let same : update h.table a none u ≡ h.table u = ground (arith, array_not_table) in
      let first : without_array.table u ≡ h.table u =
        ap (without_owner a) same ∙ without_owner_lem a (h.table u) (λ x. (apart_of x).1) in
      let second : update without_array.table t none u ≡ h.table u = ground (arith, first) in
      ap (without_owner t) second ∙ without_owner_lem t (h.table u) (λ x. (apart_of x).0)

  table_tables : (u : Ptr) → without_table.table u ≡ (if t == u then none else h.table u)
  table_tables u = elim (Bool-cases (t == u)) [
    | inl same ↦ rw same refl
    | inr other ↦ other_kept u (ground arith) ∙ rw other refl
  ]

  table_owner :
      (q : Ptr) (b : Block)
      → block without_table q ≡ some b
      → b.freed ≡ false
      → Owner mm without_table q
  table_owner q b e l =
      let at : block h q ≡ some b = ground (arith, table_blocks q) in
      let old : (t ≢ q) × (a ≢ q) = ground (arith, table_blocks q) in
      elim (s.owner q b at l) [
        | manager x ↦ manager x
        | entry x ↦ entry (rw (table_ptes q) x)
        | table x ↦ table (ground (arith, table_tables q))
        | array_at u x y ↦
            array_at u (ground (arith, table_tables u)) (ground (arith, table_tables u))
      ]

  array_of_other : (u : Ptr) → t ≢ u → array without_table u ≡ array h u
  array_of_other u ne = ground (arith, table_tables u)

  other_table : (u : Ptr) → has_table without_table u ≡ true → (t ≢ u) × (has_table h u ≡ true)
  other_table u x = ground (arith, table_tables u)

  table_IsStored : IsStored mm without_table
  table_IsStored =
      let f = free_table_run.1 in
      let (n, pos, at) = s.mm_block in
      record {
        accounted = f.accounted;
        keys = f.keys;
        known = λ q b e. ground (
          arith,
          table_blocks q,
          s.known q b,
          s.known t (live_block sizeof_page_table),
          s.table_block t has,
          s.known a (live_block (sizeof_ptr * table_size)),
          s.array_block t has,
        );
        mm_block = (n, pos, ground (arith, table_blocks mm, s.mm_table, s.mm_array t has));
        mm_pte = rw (table_ptes mm) s.mm_pte;
        mm_table = ground (arith, table_tables mm, s.mm_table);
        mm_array =
            λ u x. let (ne, y) = other_table u x in rw (array_of_other u ne) (s.mm_array u y);
        pte_block = λ q. rw (table_ptes q) (λ x.
            ground
              (arith, table_blocks q, s.pte_block q, s.table_block t has, s.array_block t has));
        table_block = λ u x.
            let (ne, y) = other_table u x in
            ground (arith, table_blocks u, s.table_block u, array_not_table);
        array_block = λ u x.
            let (ne, y) = other_table u x in
            let (n1, n2) = other_array u ne y in
            rw (array_of_other u ne) (table_blocks (array h u) ∙ ground (arith, s.array_block u y));
        array_unique = λ u w x y.
            let (n1, x1) = other_table u x in
            let (n2, y1) = other_table w y in
            rw (array_of_other u n1, array_of_other w n2) (s.array_unique u w x1 y1);
        owner = table_owner;
      }

-- The free of a table and its array, as at the end of CSC369_PageTableDestroy.
pub record TableFreed (mm t : Ptr) (h h' : Heap) : Type 0 where
  pub run : (free (array h t) >> free t) h ≡ some (tt, h')
  pub stored : IsStored mm h'
  pub ptes : (q : Ptr) → h'.pte q ≡ h.pte q
  pub tables : (u : Ptr) → h'.table u ≡ (if t == u then none else h.table u)

pub free_table :
    {mm : Ptr} {h : Heap} (s : IsStored mm h) (t : Ptr)
    → has_table h t ≡ true
    → (h' : Heap) × TableFreed mm t h h'
free_table {h = h} s t has = (
  freed_heap t sizeof_page_table (freed_heap (array h t) (sizeof_ptr * table_size) h),
  record {
    run = rw ((free_array_run s t has).0, (free_table_run s t has).0) refl;
    stored = table_IsStored s t has;
    ptes = table_ptes s t has;
    tables = table_tables s t has;
  },
)

-- ===== src/PageTable/Owned.antt =====
-- Who owns the blocks that csc369_page_table.c allocates: each live block of the allocator is the
-- memory manager, an entry, a table or a table's array, and each of these is one live block.
pub mod NewPte
pub mod NewTable
use csc369_os_a.Base.{
  ℕ, ◌+◌, ◌*◌, ◌≤◌, ◌<◌, ◌≡◌, ◌≢◌, ◌∙◌, sym, ap, subst, ◌⊎◌, inl, inr, Bool, true, false, ◌&&◌,
  Option, none, some, arith, ◌==◌, if◌then◌else◌, Ptr, null, Bool-cases, Option-cases,
}
use csc369_os_a.Kmalloc.{Block, Kmalloc, kh_get}
use csc369_os_a.Kmalloc.Accounting.{IsAccounted}
use csc369_os_a.Kmalloc.Blocks.{live_block, HasUniqueKeys, Malloced}
use csc369_os_a.PageTable.{PageTable, Heap, table_size, sizeof_pte, sizeof_page_table, sizeof_ptr}
use csc369_os_a.PageTable.View.{is_some, slot_of, slot, below, has_pte, has_table}
use csc369_os_a.PageTable.Tree.{IsTree, no_pte, no_table}

abbrev pub array_of : Option PageTable → Ptr
array_of none = null
array_of (some tb) = tb.array

-- the address of a table's array, NULL where there is no table
abbrev pub array : Heap → Ptr → Ptr
array h t = array_of (h.table t)

abbrev pub block : Heap → Ptr → Option Block
block h p = kh_get p h.kmalloc.malloc_map

pub data Owner (mm : Ptr) (h : Heap) (p : Ptr) : Type 0 where
  manager : p ≡ mm → Owner mm h p
  entry : has_pte h p ≡ true → Owner mm h p
  table : has_table h p ≡ true → Owner mm h p
  array_at : (t : Ptr) → has_table h t ≡ true → array h t ≡ p → Owner mm h p

-- The allocator and the objects agree: `mm` is the memory manager.
pub record IsStored (mm : Ptr) (h : Heap) : Type 0 where
  pub accounted : IsAccounted h.kmalloc
  pub keys : HasUniqueKeys h.kmalloc.malloc_map
  pub known : (p : Ptr) (b : Block) → block h p ≡ some b → (0 < p) × (p < h.next)
  pub mm_block : (n : ℕ) × (0 < n) × (block h mm ≡ some (live_block n))
  pub mm_pte : has_pte h mm ≡ false
  pub mm_table : has_table h mm ≡ false
  pub mm_array : (t : Ptr) → has_table h t ≡ true → array h t ≢ mm
  pub pte_block : (p : Ptr) → has_pte h p ≡ true → block h p ≡ some (live_block sizeof_pte)
  pub table_block :
      (t : Ptr) → has_table h t ≡ true → block h t ≡ some (live_block sizeof_page_table)
  pub array_block :
      (t : Ptr)
      → has_table h t ≡ true
      → block h (array h t) ≡ some (live_block (sizeof_ptr * table_size))
  pub array_unique :
      (t u : Ptr) → has_table h t ≡ true → has_table h u ≡ true → array h t ≡ array h u → t ≡ u
  pub owner : (p : Ptr) (b : Block) → block h p ≡ some b → b.freed ≡ false → Owner mm h p

-- The objects form a tree under the table `root`, in which addresses grow downwards.
pub record IsRooted (root : Ptr) (h : Heap) : Type 0 where
  pub root_table : has_table h root ≡ true
  pub root_top : (p : Ptr) → below h p ≢ root
  pub slot_lt : (t : Ptr) (i : ℕ) → slot h t i ≢ null → (i < table_size) × (t < slot h t i)
  pub below_lt : (p : Ptr) → below h p ≢ null → p < below h p
  pub held : (p : Ptr) → has_pte h p ≡ true → (t : Ptr) × (i : ℕ) × (slot h t i ≡ p)
  pub hung : (t : Ptr) → has_table h t ≡ true → (t ≡ root) ⊎ ((p : Ptr) × (below h p ≡ t))

abbrev pub IsOwned : Ptr → Ptr → Heap → Type 0
IsOwned mm root h = IsStored mm h × IsRooted root h

-- nothing is stored where the next object goes, or behind it
pub unused : {mm : Ptr} {h : Heap} → IsStored mm h → (p : Ptr) → h.next ≤ p → block h p ≡ none
unused {h = h} s p l = elim (Option-cases (block h p)) [
  | inl e ↦ e
  | inr (b, e) ↦ let (_, lt) = s.known p b e in absurd (omega arith)
]

-- Only the status of entries differs.
module _ (h h' : Heap) (tables : h'.table ≡ h.table) (nexts : h'.next ≡ h.next)
    (allocators : h'.kmalloc ≡ h.kmalloc) (ptes : (q : Ptr) → has_pte h' q ≡ has_pte h q)
    (belows : (q : Ptr) → below h' q ≡ below h q) where
  blocks_same : (q : Ptr) → block h' q ≡ block h q
  blocks_same q = ap (λ k. kh_get q k.malloc_map) allocators

  slots_same : (u : Ptr) (j : ℕ) → slot h' u j ≡ slot h u j
  slots_same u j = ap (λ t. slot_of (t u) j) tables

  arrays_same : (u : Ptr) → array h' u ≡ array h u
  arrays_same u = ap (λ t. array_of (t u)) tables

  tables_same : (u : Ptr) → has_table h' u ≡ has_table h u
  tables_same u = ap (λ t. is_some (t u)) tables

  Owner-same : {mm : Ptr} (q : Ptr) → Owner mm h q → Owner mm h' q
  Owner-same q (manager x) = manager x
  Owner-same q (entry x) = entry (ptes q ∙ x)
  Owner-same q (table x) = table (tables_same q ∙ x)
  Owner-same q (array_at u x y) = array_at u (tables_same u ∙ x) (arrays_same u ∙ y)

  IsStored-same : {mm : Ptr} → IsStored mm h → IsStored mm h'
  IsStored-same {mm} s =
      let (n, pos, at) = s.mm_block in
      record {
        accounted = subst IsAccounted (sym allocators) s.accounted;
        keys = subst (λ k. HasUniqueKeys k.malloc_map) (sym allocators) s.keys;
        known = λ q b e. ground (arith, blocks_same q, s.known q b, nexts);
        mm_block = (n, pos, blocks_same mm ∙ at);
        mm_pte = ptes mm ∙ s.mm_pte;
        mm_table = tables_same mm ∙ s.mm_table;
        mm_array = λ u x. rw (arrays_same u) (s.mm_array u (sym (tables_same u) ∙ x));
        pte_block = λ q x. blocks_same q ∙ s.pte_block q (sym (ptes q) ∙ x);
        table_block = λ u x. blocks_same u ∙ s.table_block u (sym (tables_same u) ∙ x);
        array_block = λ u x.
            blocks_same (array h' u)
            ∙ rw (arrays_same u) (s.array_block u (sym (tables_same u) ∙ x));
        array_unique = λ u w x y.
            rw (arrays_same u, arrays_same w)
              (s.array_unique u w (sym (tables_same u) ∙ x) (sym (tables_same w) ∙ y));
        owner = λ q b e l. Owner-same q (s.owner q b (sym (blocks_same q) ∙ e) l);
      }

  IsRooted-same : {root : Ptr} → IsRooted root h → IsRooted root h'
  IsRooted-same {root} r = record {
    root_table = tables_same root ∙ r.root_table;
    root_top = λ q. rw (belows q) (r.root_top q);
    slot_lt = λ u j. rw (slots_same u j) (r.slot_lt u j);
    below_lt = λ q. rw (belows q) (r.below_lt q);
    held = λ q x. let (u, j, e) = r.held q (sym (ptes q) ∙ x) in (u, j, slots_same u j ∙ e);
    hung = λ u x. elim (r.hung u (sym (tables_same u) ∙ x)) [
      | inl e ↦ inl e
      | inr (q, e) ↦ inr (q, belows q ∙ e)
    ];
  }

  pub IsOwned-same : {mm root : Ptr} → IsOwned mm root h → IsOwned mm root h'
  IsOwned-same (s, r) = (IsStored-same s, IsRooted-same r)

-- ===== src/PageTable/Free.antt =====
-- CSC369_free of an object of csc369_page_table.c: the heap and the allocator behind it.

pub mod Pte
pub mod Table
use csc369_os_a.Base.{
  Option, ℕ, ◌*◌, ◌<◌, ◌≡◌, ◌≢◌, inl, inr, true, false, none, some, arith, ◌==◌, if◌then◌else◌, Ptr,
  null, Bool-cases, update, Option, ap, refl, ◌∙◌, ◌>>◌,
}
use csc369_os_a.Kmalloc.{Block}
use csc369_os_a.Kmalloc.Accounting.{IsAccounted, freed_by, free-freed_by}
use csc369_os_a.Kmalloc.Blocks.{live_block, HasUniqueKeys, kh_get-kh_put, kh_put-HasUniqueKeys}
use csc369_os_a.PageTable.{
  Heap, PageTable, table_size, sizeof_pte, sizeof_page_table, sizeof_ptr, without_owner, free,
}
use csc369_os_a.PageTable.View.{is_some, has_pte, has_table}
use csc369_os_a.PageTable.Owned.{
  block, array_of, array, Owner, manager, entry, table, array_at, IsStored,
}

pub without_owner_lem :
    (p : Ptr) (o : Option PageTable) → (is_some o ≡ true → array_of o ≢ p) → without_owner p o ≡ o
without_owner_lem p none ne = refl
without_owner_lem p (some tb) ne = ground (arith, ne refl)

-- the heap behind the free of a block of `n` bytes
abbrev pub freed_heap : Ptr → ℕ → Heap → Heap
freed_heap p n h = record h {
  pte = update h.pte p none;
  table = λ t. without_owner p (update h.table p none t);
  kmalloc = freed_by p (live_block n) h.kmalloc;
}

-- the allocator behind it
pub record Forgot (p : Ptr) (n : ℕ) (h h' : Heap) : Type 0 where
  pub accounted : IsAccounted h'.kmalloc
  pub keys : HasUniqueKeys h'.kmalloc.malloc_map
  pub blocks :
      (q : Ptr)
      → block h' q ≡ (if p == q then some (record { size = n; freed = true }) else block h q)

pub free_run :
    (p : Ptr) (n : ℕ) (h : Heap)
    → p ≢ null
    → 0 < n
    → block h p ≡ some (live_block n)
    → IsAccounted h.kmalloc
    → HasUniqueKeys h.kmalloc.malloc_map
    → (free p h ≡ some (tt, freed_heap p n h)) × Forgot p n h (freed_heap p n h)
unfolding free
free_run p n h ne pos at v u =
    let (run, accounted) = free-freed_by p (live_block n) h.kmalloc ne at refl pos v in
    (
      rw (run, free) refl,
      record {
        accounted = accounted;
        keys = kh_put-HasUniqueKeys p _ h.kmalloc.malloc_map u;
        blocks = λ q. kh_get-kh_put p q _ h.kmalloc.malloc_map;
      },
    )

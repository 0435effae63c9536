-- ===== src/Simulation/Made.antt =====
-- CSC369_MMCreate: the memory manager of a simulation that starts, and what its page table holds.
use csc369_os_a.Base.{
  [], ℕ, ◌+◌, ◌≤◌, ◌<◌, ◌≡◌, ◌≢◌, refl, none, true, false, ◌==◌, Ptr, null, arith,
}
use csc369_os_a.Base.Returns
use csc369_os_a.Base.Returns.{Returns, returns}
use csc369_os_a.Kmalloc.{Kmalloc, malloc_init, kh_get, kmalloc_max}
use csc369_os_a.PageTable.{Heap, init_pte, malloc}
use csc369_os_a.PageTable.Grow.{malloc-ok}
use csc369_os_a.Kmalloc
use csc369_os_a.PageTable.View.{has_table, status, walk}
use csc369_os_a.Kmalloc.Accounting.{IsAccounted}
use csc369_os_a.Kmalloc.Blocks.{malloc-Malloced}
use csc369_os_a.PageTable.Owned.{IsStored, IsOwned, manager}
use csc369_os_a.PageTable.Tree.{IsTree}
use csc369_os_a.PageTable.GrowTable.{sizeof_table}
use csc369_os_a.PageTable.Create.{page_table_create-Created}
use csc369_os_a.Simulation.{empty_heap, mm_create, sizeof_mm}

-- the program's memory with no entry and no table in it
abbrev bare : Kmalloc → Ptr → Heap
bare k n = record (empty_heap k) { next = n }

bare-IsTree : (k : Kmalloc) (n : Ptr) → 0 < n → IsTree (bare k n)
bare-IsTree k n pos = record {
  next_pos = pos;
  pte_lt = λ q e. ground arith;
  table_lt = λ t e. ground arith;
  slot_pte = λ t i ne. ground arith;
  below_table = λ q ne. ground arith;
  slot_unique = λ t u i j ne e. absurd (ground arith);
  below_unique = λ p q ne e. absurd (ground arith);
}

-- the allocator of a program that has just started
pub record IsNew (k : Kmalloc) : Type 0 where
  pub accounted : IsAccounted k
  pub empty : k.malloc_map ≡ []

pub malloc_init-IsNew : IsNew malloc_init
malloc_init-IsNew = record {
  accounted = record { count = refl; bytes = refl; limit = omega arith };
  empty = refl;
}

-- the memory manager is all that is stored
bare-IsStored :
    (k : Kmalloc)
    → k.bytes_malloced + sizeof_mm ≤ kmalloc_max
    → IsNew k
    → IsStored 1 (bare (Kmalloc.malloc 1 sizeof_mm k).1 2)
bare-IsStored k room new =
    let none_yet : (p : Ptr) → kh_get p k.malloc_map ≡ none =
      λ p. rw new.empty (unfold kh_get in refl) in
    let a =
      malloc-Malloced 1 sizeof_mm k (omega arith) (omega arith) room new.accounted (rw new.empty tt)
        (none_yet 1) in
    record {
      accounted = a.accounted;
      keys = a.keys;
      known = λ p b e. ground (arith, a.blocks p, none_yet p);
      mm_block = (sizeof_mm, omega arith, a.blocks 1);
      mm_pte = refl;
      mm_table = refl;
      mm_array = λ u x. absurd (ground arith);
      pte_block = λ p x. absurd (ground arith);
      table_block = λ u x. absurd (ground arith);
      array_block = λ u x. absurd (ground arith);
      array_unique = λ u w x y. absurd (ground arith);
      owner = λ p b e l. manager (ground (arith, a.blocks p, none_yet p));
    }

-- What CSC369_MMCreate returns: a memory manager whose page table has no entry.
pub record Made (k : Kmalloc) (r : Ptr × Ptr) (h : Heap) : Type 0 where
  pub mm : r.0 ≢ null
  pub tree : IsTree h
  pub live : has_table h r.1 ≡ true
  pub statuses : (q : Ptr) → status h q ≡ init_pte
  pub empty : (va : ℕ) → walk h r.1 va ≡ null
  pub bytes : h.kmalloc.bytes_malloced ≡ k.bytes_malloced + sizeof_mm + sizeof_table
  pub owned : IsNew k → IsOwned r.0 r.1 h

-- CSC369_MMCreate, in an allocator with room for its two objects.
pub mm_create-Made :
    (k : Kmalloc)
    → k.bytes_malloced + sizeof_mm + sizeof_table ≤ kmalloc_max
    → Returns (Made k) (mm_create (empty_heap k))
unfolding mm_create malloc
mm_create-Made k room =
    let (e, n) = malloc-ok 1 sizeof_mm k (omega arith) (omega arith) (omega arith) in
    let k1 = (Kmalloc.malloc 1 sizeof_mm k).1 in
    let ne : ((Kmalloc.malloc 1 sizeof_mm k).0 == null) ≡ false = ground arith in
    rw ne (
      Returns.bind (page_table_create-Created (bare-IsTree k1 2 (omega arith)) (omega arith))
        λ t h cr.
          let nt : (t == null) ≡ false = ground (arith, cr.entry) in
          rw nt (
            returns (record {
              mm = omega arith;
              tree = cr.tree;
              live = cr.live;
              statuses = cr.grown.statuses;
              empty = cr.empty;
              bytes = omega (arith, cr.bytes);
              owned = λ new.
                  rw e (cr.owned 1 (bare-IsStored k (omega arith) new) (λ q. refl) (λ u. refl));
            })))

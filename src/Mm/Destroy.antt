-- ===== src/Mm/Destroy.antt =====
-- CSC369_MMDestroy gives every block back.
use csc369_os_a.Base.{◌≡◌, inl, inr, true, some, arith, ◌==◌, Ptr, null, not, Bool-cases}
use csc369_os_a.Base.Returns
use csc369_os_a.Base.Returns.{Returns, returns}
use csc369_os_a.Kmalloc.Accounting.{IsAccounted, live_count}
use csc369_os_a.Kmalloc.Blocks.{live_count_zero}
use csc369_os_a.PageTable.{Heap, free}
use csc369_os_a.PageTable.Tree.{IsTree}
use csc369_os_a.PageTable.Owned.{Owner, manager, entry, table, array_at, IsOwned}
use csc369_os_a.PageTable.Free.{freed_heap, free_run}
use csc369_os_a.PageTable.Emptied.{Emptied, page_table_destroy-Emptied}
use csc369_os_a.Mm.{mm_destroy}

-- no block is live, and the counters say so
pub record IsClean (h : Heap) : Type 0 where
  pub accounted : IsAccounted h.kmalloc
  pub live : live_count h.kmalloc.malloc_map ≡ 0

module _ {mm : Ptr} {h : Heap} (e : Emptied mm h) where
  only_manager : (p : Ptr) → Owner mm h p → p ≡ mm
  only_manager p (manager x) = x
  only_manager p (entry x) = absurd (ground (arith, e.no_pte p))
  only_manager p (table x) = absurd (ground (arith, e.no_table p))
  only_manager p (array_at t x y) = absurd (ground (arith, e.no_table t))

  free_manager : (h' : Heap) × (free mm h ≡ some (tt, h')) × IsClean h'
  free_manager =
      let s = e.stored in
      let (n, pos, at) = s.mm_block in
      let (run, f) = free_run mm n h (omega (arith, s.known mm _ at)) pos at s.accounted s.keys in
      (
        freed_heap mm n h,
        run,
        record {
          accounted = f.accounted;
          live = live_count_zero _ f.keys (λ p b x. elim (Bool-cases (mm == p)) [
            | inl same ↦ ground (arith, f.blocks p)
            | inr other ↦ elim (Bool-cases b.freed) [
              | inl y ↦ y
              | inr y ↦
                  absurd
                    (ground (arith, only_manager p (s.owner p b (ground (arith, f.blocks p)) y)))
            ]
          ]);
        },
      )

-- CSC369_MMDestroy, where the live blocks of the allocator are the memory manager and its page
-- table, faults nowhere and leaves no live block, with the counters of the allocator in step.
pub mm_destroy-IsClean :
    {mm root : Ptr} {h : Heap}
    → IsTree h
    → IsOwned mm root h
    → Returns (λ _. IsClean) (mm_destroy h.next mm root h)
unfolding mm_destroy
mm_destroy-IsClean {mm} {root} {h} v (s, r) =
    let (n, pos, at) = s.mm_block in
    let ne : not (mm == null) ≡ true = ground (arith, s.known mm _ at) in
    rw ne (
      Returns.bind (page_table_destroy-Emptied v (s, r))
        λ _ h1 e. let (h2, run, clean) = free_manager e in rw run (returns clean))

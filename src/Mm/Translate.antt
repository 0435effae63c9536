-- ===== src/Mm/Translate.antt =====
-- CSC369_MMGetFrameNumber: the frame of an address, for any replacement policy.
use csc369_os_a.Base.{
  ℕ, ◌+◌, ◌^◌, ◌≤◌, ◌<◌, ◌≡◌, ◌∙◌, refl, ap, subst, Bool, Option, some, true, false, not,
  if◌then◌else◌, Ptr, Bool-cases, Option-cases, inl, inr, arith, pure, ◌>>=◌, ◌>>◌,
}
use csc369_os_a.Base.Returns
use csc369_os_a.Base.Returns.{Returns, returns}
use csc369_os_a.Kmalloc.{kmalloc_max}
use csc369_os_a.PageTable.{Heap, pte_is_valid, pte_set_dirty}
use csc369_os_a.PageTable.View.{has_pte, status, walk}
use csc369_os_a.PageTable.Tree.{IsTree, no_pte}
use csc369_os_a.PageTable.Allocate.{sizeof_path, Mapped, page_table_allocate-Mapped}
use csc369_os_a.PageTable.Entry.{with_entry, with_entry_self, is_valid_at, set_dirty_at}
use csc369_os_a.Bitutil.Count.{count_used}
use csc369_os_a.Machine.{MemAccess, Machine, Policy, incr, in_heap, count_event}
use csc369_os_a.Policy.Memory.{
  Owns-same, SameMemory, SameTables, SameTables-refl, with_entry-same, Consistent-same,
  page_byte-same, walk_page-same,
}
use csc369_os_a.Policy.Laws.{PolicyLaws, SameQueues}
use csc369_os_a.Coremap.Consistent.{Consistent, page_byte}
use csc369_os_a.Mm.{is_write, mm_miss, mm_hit, mm_get_frame_number}
use csc369_os_a.Mm.Resident.{Resident}
use csc369_os_a.Mm.Miss.{mm_miss-Resident, mm_hit-Resident}
use csc369_os_a.Mm.Grown.{Referenced, Translated, grown, grown-view, grown-Consistent}

-- what a write and the count of references leave
abbrev counted : Machine → Heap → Machine
counted m h = record m { heap = h; stats = record (m.stats) { ref_count = incr m.stats.ref_count } }

-- `pte_set_dirty` where CSC369_MMGetFrameNumber is called for a write
mark-same :
    (b : Bool) (m : Machine) (p : Ptr)
    → IsTree m.heap
    → has_pte m.heap p ≡ true
    → (h : Heap) × SameTables m.heap h
      × ((if b then in_heap (pte_set_dirty p true) else pure tt) m
          ≡ some (tt, record m { heap = h }))
unfolding in_heap
mark-same false m p v live = (m.heap, SameTables-refl m.heap, refl)
mark-same true m p v live = elim (Option-cases (m.heap.pte p)) [
  | inl n ↦ absurd (ground arith)
  | inr (e, at) ↦
      let d = record e { dirty = true } in
      let run : pte_set_dirty p true m.heap ≡ some (tt, with_entry m.heap p d) =
        subst (λ h. pte_set_dirty p true h ≡ some (tt, with_entry m.heap p d))
          (with_entry_self m.heap p at) (set_dirty_at m.heap p e (ground (arith, no_pte v)) true) in
      (
        with_entry m.heap p d,
        with_entry-same m.heap p e d at (record {
          valid = refl;
          on_swap = refl;
          frame_number = refl;
          swap_offset = refl;
          page_table = refl;
        }),
        rw run,
      )
]

-- the end of CSC369_MMGetFrameNumber
abbrev ending : MemAccess → Ptr → ℕ → Machine → Option (ℕ × Machine)
ending access p f = do
  if is_write access.type then in_heap (pte_set_dirty p true) else pure tt
  count_event (λ s. record s { ref_count = incr s.ref_count })
  pure f

-- what CSC369_MMGetFrameNumber does once it has the entry of the address
abbrev with_valid : MemAccess → Ptr → Machine → Option (ℕ × Machine)
with_valid access p = do
  valid ← in_heap (pte_is_valid p)
  frame_number ← if not valid then mm_miss p else mm_hit p
  ending access p frame_number

module _ (m : Machine) (h : Heap) (s : SameTables m.heap h) where
  counted-same : SameMemory m (counted m h)
  counted-same = record {
    heap = s;
    mm = refl;
    page_table = refl;
    swap = refl;
    frames = refl;
    frame_count = refl;
    memsize = refl;
    policy = refl;
  }

  counted-queues : (x : ℕ) → SameQueues x m (counted m h)
  counted-queues x = record {
    links = refl;
    clock_list = refl;
    clock_hand = refl;
    rr_next = refl;
    frame_count = refl;
    memsize = refl;
    free = λ i ne. refl;
  }

module _ {pol : Policy} (laws : PolicyLaws pol) (m0 : Machine) (access : MemAccess) (h0 : Heap)
    (p : Ptr) (c : Consistent m0.frame_count m0)
    (mapped : Mapped m0.heap m0.page_table access.virtual_address p h0) where
  abbrev va : ℕ
  va = access.virtual_address

  abbrev m : Machine
  m = record m0 { heap = h0 }

  ending-Translated :
      {f : ℕ} {m' : Machine}
      → Resident laws.Tracked m p f m'
      → Referenced m0.stats (record (m'.stats) { ref_count = incr m'.stats.ref_count })
      → Returns (Translated laws.Tracked m0 va) (ending access p f m')
  unfolding count_event
  ending-Translated {f} {m'} r refs =
      let (h, s, run) =
        mark-same (is_write access.type) m' p r.consistent.tree (r.ptes p ∙ mapped.live) in
      let m2 = counted m' h in
      let s2 = counted-same m' h s in
      let found : walk m2.heap m2.page_table va ≡ p =
        walk_page-same s2 va ∙ r.walks va ∙ mapped.found in
      rw run (
        returns (record {
          inside = r.inside;
          consistent = Consistent-same s2 r.consistent;
          views = λ a j l.
              ap (λ q. page_byte m2 q j) (walk_page-same s2 a ∙ r.walks a)
              ∙ page_byte-same s2 _ j
              ∙ r.page _ j l
              ∙ grown-view m0 h0 c mapped.tree mapped.grown a j;
          valid = ap (λ q. (status m2.heap q).valid) found ∙ s.valid p ∙ r.valid;
          frame_number =
              ap (λ q. (status m2.heap q).frame_number) found ∙ s.frame_number p ∙ r.frame_number;
          tracked = elim r.tracked [
            | inl t ↦ inl (laws.stable _ m' m2 t (counted-queues m' h s _))
            | inr t ↦ inr (laws.stable _ m' m2 t (counted-queues m' h s _))
          ];
          stats = refs;
          slots = r.slots;
          nbits = r.nbits;
          bytes = omega (arith, ap (λ k. k.bytes_malloced) s.kmalloc, r.bytes, mapped.bytes);
          policy = r.policy;
          frame_count = r.frame_count;
          page_table = r.page_table;
          owns = λ o. Owns-same s2 (r.owns (mapped.owned m0.mm m0.page_table o));
        }))

module _ {pol : Policy} (laws : PolicyLaws pol) (m : Machine) (at : m.policy ≡ pol)
    (some_frames : 0 < m.frame_count) (c : Consistent m.frame_count m)
    (tracked : laws.Tracked m.frame_count m) where
  with_pte :
      (access : MemAccess) (p : Ptr) (h : Heap)
      → count_used m.swap.swapmap < m.swap.swapmap.nbits
      → Mapped m.heap m.page_table access.virtual_address p h
      → Returns
          (Translated laws.Tracked m access.virtual_address)
          (with_valid access p (record m { heap = h }))
  unfolding in_heap
  with_pte access p h room mapped =
      let g = grown m h in
      let cg = grown-Consistent m h c mapped.tree mapped.grown in
      let tg =
        laws.stable _ m (record m { heap = h }) tracked
          (record {
            links = refl;
            clock_list = refl;
            clock_hand = refl;
            rr_next = refl;
            frame_count = refl;
            memsize = refl;
            free = λ i ne. refl;
          }) in
      elim (Option-cases (h.pte p)) [
        | inl n ↦ absurd (ground (arith, mapped.live))
        | inr (e, pe) ↦
            let run : pte_is_valid p h ≡ some (e.valid, h) =
              subst (λ x. pte_is_valid p x ≡ some (e.valid, x)) (with_entry_self h p pe)
                (is_valid_at h p e mapped.entry) in
            rw run (elim (Bool-cases e.valid) [
              | inl v ↦ rw v (
                  Returns.bind
                    (mm_hit-Resident laws (record m { heap = h }) at some_frames cg tg p mapped.live
                      (ground arith))
                    λ f m1 (r, s). ending-Translated laws m access h p c mapped r (
                      ap (λ x. incr x.ref_count) s,
                      inl (ap (λ x. x.hit_count) s, ap (λ x. x.miss_count) s),
                    ))
              | inr v ↦ rw v (
                  Returns.bind
                    (mm_miss-Resident laws (record m { heap = h }) at some_frames cg tg p
                      mapped.live (ground arith) room)
                    λ f m1 (r, s).
                      ending-Translated laws m access h p c mapped r
                        (ap incr s.ref_count, inr (s.hit_count, s.miss_count)))
            ])
      ]

  -- CSC369_MMGetFrameNumber of a 48-bit address, in a consistent state where the allocator has room
  -- for a path of entries and tables and the swap map a free bit, under any policy that keeps the
  -- laws: it faults nowhere and returns the frame of the address, whose entry is valid and names
  -- it. The state stays consistent, no byte of any page changes, at most one more slot of the swap
  -- map is in use, and one reference is counted, as a hit or as a miss.
  pub mm_get_frame_number-Translated :
      (access : MemAccess)
      → access.virtual_address < 2 ^ 48
      → m.heap.kmalloc.bytes_malloced + sizeof_path ≤ kmalloc_max
      → count_used m.swap.swapmap < m.swap.swapmap.nbits
      → Returns (Translated laws.Tracked m access.virtual_address) (mm_get_frame_number access m)
  unfolding mm_get_frame_number in_heap
  mm_get_frame_number-Translated access lt bytes room =
      let (p, h, run, mapped) =
        Returns.result
          (page_table_allocate-Mapped m.page_table access.virtual_address c.tree c.root lt bytes) in
      rw run (with_pte access p h room mapped)

-- ===== src/Mm/Miss.antt =====
-- The two branches of CSC369_MMGetFrameNumber: the page of an entry is brought into a frame, or is
-- there.
use csc369_os_a.Base.{
  ℕ, ◌<◌, ◌≡◌, ◌≢◌, refl, sym, subst, some, true, false, Ptr, null, Option-cases, inl, inr, arith,
}
use csc369_os_a.Base.Returns
use csc369_os_a.Base.Returns.{Returns, returns}
use csc369_os_a.PageTable.{Pte, pte_get_frame_number}
use csc369_os_a.PageTable.View.{has_pte, status}
use csc369_os_a.PageTable.Tree.{no_pte}
use csc369_os_a.PageTable.Entry.{with_entry_self, get_frame_number_at}
use csc369_os_a.Bitutil.Count.{count_used}
use csc369_os_a.Machine.{Machine, Stats, SameCounts, Policy, incr, in_heap, count_event}
use csc369_os_a.Policy.Memory.{SameMemory, SameTables-refl, Consistent-same}
use csc369_os_a.Policy.Laws.{PolicyLaws, SameQueues}
use csc369_os_a.Coremap.Consistent.{Consistent}
use csc369_os_a.Coremap.Allocate.{Reserved, coremap_allocate_frame-Reserved}
use csc369_os_a.Mm.{mm_miss, mm_hit}
use csc369_os_a.Mm.Resident.{Resident, finish-Resident}

module _ {pol : Policy} (laws : PolicyLaws pol) (m : Machine) (at : m.policy ≡ pol)
    (some_frames : 0 < m.frame_count) (c : Consistent m.frame_count m)
    (tracked : laws.Tracked m.frame_count m) (p : Ptr) (live : has_pte m.heap p ≡ true) where
  abbrev missed : Machine
  missed = record m { stats = record (m.stats) { miss_count = incr m.stats.miss_count } }

  abbrev hit : Machine
  hit = record m { stats = record (m.stats) { hit_count = incr m.stats.hit_count } }

  same_stats : (s : Stats) → SameMemory m (record m { stats = s })
  same_stats s = record {
    heap = SameTables-refl m.heap;
    mm = refl;
    page_table = refl;
    swap = refl;
    frames = refl;
    frame_count = refl;
    memsize = refl;
    policy = refl;
  }

  same_queues : (s : Stats) → SameQueues m.frame_count m (record m { stats = s })
  same_queues s = record {
    links = refl;
    clock_list = refl;
    clock_hand = refl;
    rr_next = refl;
    frame_count = refl;
    memsize = refl;
    free = λ i ne. refl;
  }

  resident_of :
      {m1 : Machine} {f : ℕ}
      → Reserved laws.Tracked missed p f m1
      → (e : Pte) × (m1.heap.pte p ≡ some e)
  resident_of {m1} r = elim (Option-cases (m1.heap.pte p)) [
    | inl n ↦ absurd (ground (arith, r.ptes p))
    | inr x ↦ x
  ]

  unmissed :
      {f : ℕ} {m' : Machine} → Resident laws.Tracked missed p f m' → Resident laws.Tracked m p f m'
  unmissed r = record {
    inside = r.inside;
    consistent = r.consistent;
    page = r.page;
    ptes = r.ptes;
    walks = r.walks;
    valid = r.valid;
    frame_number = r.frame_number;
    tracked = r.tracked;
    slots = r.slots;
    nbits = r.nbits;
    bytes = r.bytes;
    policy = r.policy;
    frame_count = r.frame_count;
    page_table = r.page_table;
    owns = r.owns;
  }

  -- An entry that is not valid
  pub mm_miss-Resident :
      (status m.heap p).valid ≡ false
      → count_used m.swap.swapmap < m.swap.swapmap.nbits
      → Returns
          (λ f m'. Resident laws.Tracked m p f m' × SameCounts missed.stats m'.stats)
          (mm_miss p m)
  unfolding mm_miss count_event
  mm_miss-Resident invalid room =
      Returns.bind
        (coremap_allocate_frame-Reserved laws missed at some_frames
          (Consistent-same (same_stats missed.stats) c)
          (laws.stable _ m missed tracked (same_queues missed.stats)) p invalid live room)
        λ f m1 r.
          let (e, pe) = resident_of r in
          Returns.mono (finish-Resident laws missed m1 p f r e pe) λ g m2 (x, y). (unmissed x, y)

  -- A valid entry
  pub mm_hit-Resident :
      (status m.heap p).valid ≡ true
      → Returns (λ f m'. Resident laws.Tracked m p f m' × (m'.stats ≡ hit.stats)) (mm_hit p m)
  unfolding mm_hit count_event in_heap
  mm_hit-Resident valid = elim (Option-cases (m.heap.pte p)) [
    | inl n ↦ absurd (ground arith)
    | inr (e, pe) ↦
        let ne : p ≢ null = ground (arith, no_pte c.tree) in
        let self = sym (with_entry_self m.heap p pe) in
        let run : pte_get_frame_number p m.heap ≡ some (e.frame_number, m.heap) =
          subst (λ h. pte_get_frame_number p h ≡ some (e.frame_number, h)) (sym self)
            (get_frame_number_at m.heap p e ne) in
        rw run (
          returns (
            record {
              inside = ground (arith, c.valid p valid);
              consistent = Consistent-same (same_stats hit.stats) c;
              page = λ q j l. refl;
              ptes = λ q. refl;
              walks = λ va. refl;
              valid = valid;
              frame_number = ground arith;
              tracked = inr (laws.stable _ m hit tracked (same_queues hit.stats));
              slots = omega arith;
              nbits = refl;
              bytes = refl;
              policy = refl;
              frame_count = refl;
              page_table = refl;
              owns = λ o. o;
            },
            refl,
          ))
  ]

-- ===== src/Simulation/Create.antt =====
-- CSC369_SimulationCreate: the state in which a simulation starts.
use csc369_os_a.Base.{
  ℕ, ◌+◌, ◌*◌, ◌%◌, ◌^◌, ◌≤◌, ◌<◌, ◌≡◌, ◌∙◌, refl, sym, ap, subst, none, some, false, ◌==◌, Ptr,
  null, length, List, arith,
}
use csc369_os_a.Base.Returns
use csc369_os_a.Base.Returns.{Returns, returns}
use csc369_os_a.Kmalloc.{Kmalloc, kmalloc_max}
use csc369_os_a.PageTable.{Heap, init_pte}
use csc369_os_a.PageTable.View.{status}
use csc369_os_a.PageTable.GrowTable.{sizeof_table}
use csc369_os_a.PageTable.Allocate.{sizeof_path}
use csc369_os_a.Bitutil.{Bitmap, bitmap_create}
use csc369_os_a.Bitutil.Create
use csc369_os_a.Bitutil.Create.{bitmap_create-Fresh}
use csc369_os_a.Bitutil.Count.{count_used, count_none}
use csc369_os_a.Swap.{Swap, frame_size, swap_create}
use csc369_os_a.Machine.{MemAccess, Machine, Policy}
use csc369_os_a.Policy.Memory.{
  SameMemory, Owns-same, Consistent-same, page_byte-same, walk_page-same,
}
use csc369_os_a.Policy.Laws
use csc369_os_a.Policy.Laws.{PolicyLaws}
use csc369_os_a.Policy.All.{policy_laws}
use csc369_os_a.Coremap.Consistent.{Consistent, Owns, page_byte}
use csc369_os_a.Simulation.{
  empty_heap, initial_machine, start_machine, with_swap, with_mm, mm_create, sizeof_mm,
  simulation_create, simulation_run,
}
use csc369_os_a.Simulation.Flat.{Agrees}
use csc369_os_a.Simulation.Run.{IsTrace, Ready, flat_run, simulation_run-Ran}
use csc369_os_a.Simulation.Made.{IsNew, Made, mm_create-Made}

-- a new swap space
abbrev new_swap : Bitmap → ℕ → ℕ → Swap
new_swap b physmem_size limit = record {
  swapmap = b;
  file = record { bytes = λ _. 0; size = 0; limit = limit };
  physmem = λ _. 0;
  physmem_size = physmem_size;
}

-- The start of a simulation of `frame_count` frames and a swap file of `swap_size` pages, on the
-- tracked allocator in state `k`, which has room for the page table and `n` accesses.
pub record Fits (k : Kmalloc) (frame_count swap_size limit n : ℕ) : Type 0 where
  pub frames : 0 < frame_count
  pub physmem : frame_count * frame_size ≤ 2 ^ 32
  pub bitmap : swap_size + 64 ≤ 2 ^ 64
  pub file : swap_size * frame_size ≤ limit
  pub heap : k.bytes_malloced + sizeof_mm + sizeof_table + n * sizeof_path ≤ kmalloc_max
  pub swap : n ≤ swap_size

module _ (k : Kmalloc) (frame_count swap_size limit n : ℕ)
    (fits : Fits k frame_count swap_size limit n) (policy : Policy) (random : ℕ → ℕ) (mm t : Ptr)
    (h : Heap) (cr : Made k (mm, t) h) (b : Bitmap) (fresh : Create.Fresh swap_size b) where
  abbrev m : Machine
  m = initial_machine mm t h (new_swap b (frame_count * frame_size) limit) frame_count policy random

  no_status : (q : Ptr) → status h q ≡ init_pte
  no_status q = cr.statuses q

  initial-Consistent : Consistent m.frame_count m
  initial-Consistent = record {
    tree = cr.tree;
    root = cr.live;
    swap = record {
      bitmap = fresh.bitmap;
      slots_fit = omega (arith, fits.file, fresh.nbits);
      physmem_fits = fits.physmem;
    };
    memsize = refl;
    physmem = refl;
    valid = λ q v. absurd (ground (arith, no_status q));
    held = λ i l ne busy. absurd (ground arith);
    slots = λ q o e. absurd (ground (arith, no_status q));
    slots_unique = λ p q o e. absurd (ground (arith, no_status p));
    swapped = λ q e. absurd (ground (arith, no_status q));
  }

  initial-Fresh : Laws.Fresh m
  initial-Fresh = record {
    memsize = refl;
    free = λ i. refl;
    unlinked = λ e. (refl, refl);
    clock_list = refl;
    rr_next = refl;
  }

  initial-Agrees : Agrees m (λ _. 0)
  initial-Agrees a l =
      ap (λ q. page_byte m q (a % 2 ^ 12)) (cr.empty a) ∙ ground (arith, no_status null)

  module _ (laws : PolicyLaws policy) where
    started :
        (m1 : Machine)
        → SameMemory m m1
        → laws.Tracked m.frame_count m1
        → Ready laws n m1 × Agrees m1 (λ _. 0) × (IsNew k → Owns m1)
    started m1 s tr = (
      record {
        policy = s.policy;
        some_frames = omega (arith, s.frame_count, fits.frames);
        consistent =
            subst (λ x. Consistent x m1) (sym s.frame_count) (Consistent-same s initial-Consistent);
        tracked = subst (λ x. laws.Tracked x m1) (sym s.frame_count) tr;
        heap_room = omega (arith, ap (λ x. x.bytes_malloced) s.heap.kmalloc, cr.bytes, fits.heap);
        swap_room = omega (
          arith,
          ap (λ x. count_used x.swapmap) s.swap,
          ap (λ x. x.swapmap.nbits) s.swap,
          fresh.nbits,
          fits.swap,
          none_used,
        );
      },
      λ a l.
          ap (λ q. page_byte m1 q (a % 2 ^ 12)) (walk_page-same s a)
          ∙ page_byte-same s _ _
          ∙ initial-Agrees a l,
      λ new. Owns-same s (cr.owned new),
    )
      where
        none_used : count_used b ≡ 0
        none_used = count_none b b.nbits (λ i lt. fresh.free i (omega (arith, lt, fresh.nbits)))

    start_run :
        (m1 : Machine) × (start_machine mm t h frame_count policy random
            (new_swap b (frame_count * frame_size) limit)
          ≡ some m1)
        × Ready laws n m1
        × Agrees m1 (λ _. 0)
        × (IsNew k → Owns m1)
    unfolding start_machine
    start_run =
        let (_, m1, run, (s, _, tr)) =
          Returns.result (laws.start m refl fits.frames initial-Fresh) in
        let (r, a, o) = started m1 s tr in
        let ne : (mm == null) ≡ false = ground (arith, cr.mm) in (m1, rw (ne, run), r, a, o)

create_run :
    (k : Kmalloc) (frame_count swap_size limit : ℕ) (policy : Policy) (random : ℕ → ℕ) (mm t : Ptr)
    (h : Heap) (b : Bitmap)
    → mm_create (empty_heap k) ≡ some ((mm, t), h)
    → bitmap_create swap_size ≡ some b
    → simulation_create k frame_count swap_size policy random limit
      ≡ start_machine mm t h frame_count policy random (new_swap b (frame_count * frame_size) limit)
unfolding simulation_create with_mm with_swap swap_create
create_run k frame_count swap_size limit policy random mm t h b run made =
    let make = with_mm frame_count policy random (new_swap b (frame_count * frame_size) limit) in
    ap
      (λ o.
        with_swap k frame_count policy random
          (elim o [ none ↦ none | some b ↦ some (new_swap b (frame_count * frame_size) limit) ]))
      made
    ∙ ap make run

-- For any policy that keeps the laws, with at least one frame, at most 4 GB of physical memory, a
-- swap file that may grow to hold every slot, and room in the allocator and the swap map for `n`
-- accesses, CSC369_SimulationCreate returns a consistent simulation, ready for them, in which every
-- byte of every page is 0. If the allocator is new, its live blocks are the memory manager and its
-- page table.
pub simulation_create-Ready :
    {policy : Policy} (laws : PolicyLaws policy) (k : Kmalloc) (frame_count swap_size limit n : ℕ)
    (random : ℕ → ℕ)
    → Fits k frame_count swap_size limit n
    → (m : Machine) × (simulation_create k frame_count swap_size policy random limit ≡ some m)
      × Ready laws n m
      × Agrees m (λ _. 0)
      × (IsNew k → Owns m)
simulation_create-Ready {policy} laws k frame_count swap_size limit n random fits =
    let ((mm, t), h, run, cr) = Returns.result (mm_create-Made k (omega (arith, fits.heap))) in
    let (b, made, fresh) = bitmap_create-Fresh swap_size fits.bitmap in
    let (m, go, r, a, o) =
      start_run k frame_count swap_size limit n fits policy random mm t h cr b fresh laws in
    (m, create_run k frame_count swap_size limit policy random mm t h b run made ∙ go, r, a, o)

-- Under each of the four policies, CSC369_SimulationCreate and then CSC369_SimulationRun fault
-- nowhere, and each answer is that of a flat memory which is all 0 at first. The conditions: there
-- is a frame, physical memory is at most 4 GB, the swap file may grow to hold every slot, the
-- allocator has room for three entries and two tables for each access and the swap map a slot, and
-- addresses have 48 bits and offsets below 16. The machine is consistent at the end, and
-- if the allocator was new, its live blocks are the memory manager and its page table.
pub simulation_run-flat_run :
    (policy : Policy) (k : Kmalloc) (frame_count swap_size limit : ℕ) (random : ℕ → ℕ)
    (trace : List MemAccess)
    → Fits k frame_count swap_size limit (length trace)
    → IsTrace trace
    → (m m' : Machine) × (simulation_create k frame_count swap_size policy random limit ≡ some m)
      × (simulation_run trace m ≡ some (flat_run trace (λ _. 0), m'))
      × Consistent m'.frame_count m'
      × (IsNew k → Owns m')
simulation_run-flat_run policy k frame_count swap_size limit random trace fits t =
    let laws = policy_laws policy in
    let (m, made, r, a, o) =
      simulation_create-Ready laws k frame_count swap_size limit (length trace) random fits in
    let (answers, m', run, (e, c, _, _, owns)) =
      Returns.result (simulation_run-Ran laws trace m (λ _. 0) t r a) in
    (m, m', made, run ∙ ap (λ l. some (l, m')) e, c, λ new. owns (o new))

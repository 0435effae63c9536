-- ===== src/Simulation.antt =====
-- A2-zengzix2/src/csc369_simulation.c: the accesses of a trace, one by one.
pub mod Flat
pub mod Memory
pub mod Run
pub mod Made
pub mod Create
pub mod Loop
pub mod Delivered
pub mod PrintedFile
pub mod Destroy
pub mod Tests
use csc369_os_a.Base.{
  ℕ, ◌+◌, ◌*◌, ◌%◌, ◌^◌, Bool, true, false, Option, none, some, List, [], ◌∷◌, ltb, ◌==◌,
  if◌then◌else◌, Ptr, null, pure, ◌>>=◌, ◌>>◌, check, gets, modify, update,
}
use csc369_os_a.Kmalloc.{Kmalloc}
use csc369_os_a.PageTable.{Heap, H, malloc, page_table_create}
use csc369_os_a.Swap.{Swap, frame_size, swap_create}
use csc369_os_a.Links.{Links}
use csc369_os_a.Machine.{MemAccess, Stats, Machine, Policy, Sim, page_size, in_heap, in_swap}
use csc369_os_a.Policy.{policy_init, policy_on_ref}
use csc369_os_a.Coremap.{fresh_frames, coremap_get_frame}
use csc369_os_a.Mm.{is_write, mm_get_frame_number}

-- `simulation->physmem[frame_number * CSC369_SIMULATED_FRAME_SIZE] + offset`, as an index
abbrev pub phys_addr : ℕ → ℕ → ℕ
phys_addr frame_number va = frame_number * frame_size + va % page_size

unfoldable pub read_byte : ℕ → Sim ℕ
read_byte a = do m ← gets (λ m. m); check (ltb a m.swap.physmem_size); pure (m.swap.physmem a)

unfoldable pub write_byte : ℕ → ℕ → Sim (Unit {0})
write_byte a v = do
  m ← gets (λ m. m)
  check (ltb a m.swap.physmem_size)
  modify λ m. record m { swap = record (m.swap) { physmem = update m.swap.physmem a v } }

-- ExecuteMemInstruction. The answer is whether the data were as expected: `false` is where the code
-- logs an error.
unfoldable pub execute_mem_instruction : MemAccess → Sim Bool
unfolding read_byte write_byte
execute_mem_instruction access = do
  frame_number ← mm_get_frame_number access
  frame ← coremap_get_frame frame_number
  m ← gets (λ m. m)
  policy_on_ref m.policy frame
  if is_write access.type
      then (do write_byte (phys_addr frame_number access.virtual_address) access.value; pure true)
      else (do
        actual_value ← read_byte (phys_addr frame_number access.virtual_address)
        pure (actual_value == access.value))

-- The loop of CSC369_SimulationRun over the accesses that CSC369_TraceRead delivers, with the
-- answer of each.
unfoldable pub simulation_run : List MemAccess → Sim (List Bool)
unfolding execute_mem_instruction
simulation_run [] = pure []
simulation_run (a ∷ trace) = do
  good ← execute_mem_instruction a
  rest ← simulation_run trace
  pure (good ∷ rest)

abbrev pub zero_stats : Stats
zero_stats = record {
  ref_count = 0;
  hit_count = 0;
  miss_count = 0;
  evict_clean_count = 0;
  evict_dirty_count = 0;
}

-- The program's memory before the simulation is created, with the state of the tracked allocator.
abbrev pub empty_heap : Kmalloc → Heap
empty_heap k = record { pte = λ _. none; table = λ _. none; kmalloc = k; next = 1 }

abbrev pub zero_links : Links
zero_links = record { next = λ _. null; prev = λ _. null }

-- The objects of CSC369_SimulationCreate, before the policy's init function is called.
abbrev pub initial_machine : Ptr → Ptr → Heap → Swap → ℕ → Policy → (ℕ → ℕ) → Machine
initial_machine mm t h s frame_count policy random = record {
  mm = mm;
  heap = h;
  page_table = t;
  swap = s;
  frames = fresh_frames;
  frame_count = frame_count;
  links = zero_links;
  memsize = frame_count;
  policy = policy;
  clock_list = null;
  clock_hand = null;
  rr_next = 0;
  random = random;
  random_calls = 0;
  stats = zero_stats;
}

-- sizeof(CSC369_MM)
abbrev pub sizeof_mm : ℕ
sizeof_mm = 32

-- CSC369_MMCreate of csc369_mm.c: the memory manager and its page table, or NULL. What it keeps of
-- its arguments is part of the machine. If there is no page table the first block is not given
-- back.
unfoldable pub mm_create : H (Ptr × Ptr)
mm_create = do
  mm ← malloc sizeof_mm
  if mm == null then pure (null, null) else (do
    page_table ← page_table_create
    if page_table == null then pure (null, null) else pure (mm, page_table))

-- The end of CSC369_SimulationCreate, once the memory manager is there.
unfoldable pub start_machine : Ptr → Ptr → Heap → ℕ → Policy → (ℕ → ℕ) → Swap → Option Machine
start_machine mm t h frame_count policy random s =
    if mm == null
    then none
    else elim (policy_init policy (initial_machine mm t h s frame_count policy random)) [
      | none ↦ none
      | some (_, m) ↦ some m
    ]

unfoldable pub with_mm : ℕ → Policy → (ℕ → ℕ) → Swap → Option ((Ptr × Ptr) × Heap) → Option Machine
unfolding start_machine
with_mm frame_count policy random s none = none
with_mm frame_count policy random s (some ((mm, t), h)) =
    start_machine mm t h frame_count policy random s

unfoldable pub with_swap : Kmalloc → ℕ → Policy → (ℕ → ℕ) → Option Swap → Option Machine
unfolding with_mm
with_swap k frame_count policy random none = none
with_swap k frame_count policy random (some s) =
    with_mm frame_count policy random s (mm_create (empty_heap k))

-- CSC369_SimulationCreate, where `calloc`, `mkstemp` and CSC369_TraceCreate succeed; `none` is NULL
-- or a failed assert. `limit` bounds the swap file, `random` is the sequence of `random`'s answers.
unfoldable pub simulation_create : Kmalloc → ℕ → ℕ → Policy → (ℕ → ℕ) → ℕ → Option Machine
unfolding with_swap
simulation_create k frame_count swap_size policy random limit =
    with_swap k frame_count policy random
      (swap_create swap_size (λ _. 0) (frame_count * frame_size) limit)

-- ===== src/Machine.antt =====
-- The state of the simulator: the objects and global variables that csc369_coremap.c, csc369_mm.c,
-- csc369_simulation.c and the policies share (A2-zengzix2/src/csc369_def.h, csc369_coremap.h).
use csc369_os_a.Base.{
  ℕ, ◌+◌, ◌%◌, ◌^◌, ◌≡◌, Bool, ltb, Ptr, M, pure, ◌>>=◌, ◌>>◌, check, put_back, gets, modify,
  update,
}
use csc369_os_a.PageTable.{Heap, H}
use csc369_os_a.Swap.{Swap}
use csc369_os_a.Links.{Links, L}

-- CSC369_PAGE_SIZE
abbrev pub page_size : ℕ
page_size = 2 ^ 12

-- CSC369_AccessType
pub data AccessType : Type 0 where
  store modify_access load instruction_fetch : AccessType

-- CSC369_MemAccess
pub record MemAccess : Type 0 where
  pub type : AccessType
  pub virtual_address : ℕ
  pub value : ℕ

-- CSC369_MMStats; each count is a uint32_t
pub record Stats : Type 0 where
  pub ref_count : ℕ
  pub hit_count : ℕ
  pub miss_count : ℕ
  pub evict_clean_count : ℕ
  pub evict_dirty_count : ℕ

-- `n + 1` on a uint32_t
abbrev pub incr : ℕ → ℕ
incr n = (n + 1) % 2 ^ 32

-- The counts of references are the same.
pub record SameCounts (s s' : Stats) : Type 0 where
  pub ref_count : s'.ref_count ≡ s.ref_count
  pub hit_count : s'.hit_count ≡ s.hit_count
  pub miss_count : s'.miss_count ≡ s.miss_count

-- CSC369_Frame, whose list entry is in `links`
pub record Frame : Type 0 where
  pub free : Bool
  pub pte : Ptr

-- The policies of CSC369_POLICY_NAMES; the one chosen stands for the function pointers
-- CSC369_OnReference and CSC369_Evict.
pub data Policy : Type 0 where
  rand rr clock s2q : Policy

pub record Machine : Type 0 where
  -- the heap of the page table, and the memory manager with its page table
  pub heap : Heap
  pub mm : Ptr
  pub page_table : Ptr
  pub swap : Swap
  -- CSC369_Coremap
  pub frames : ℕ → Frame
  pub frame_count : ℕ
  pub links : Links
  -- CSC369_GLOBAL_MEMSIZE
  pub memsize : ℕ
  pub policy : Policy
  -- `list` and `hand` of csc369_policy_clock.c, `i` of csc369_policy_rr.c
  pub clock_list : Ptr
  pub clock_hand : Ptr
  pub rr_next : ℕ
  -- what the calls of `random` return, and their number so far
  pub random : ℕ → ℕ
  pub random_calls : ℕ
  pub stats : Stats

abbrev pub Sim : Type 0 → Type 0
Sim = M Machine

-- Runs `f` on a part of the state.
unfoldable pub in_heap : {A : Type 0} → H A → Sim A
in_heap f m = put_back (λ h. record m { heap = h }) (f m.heap)

unfoldable pub in_swap : {A : Type 0} → M Swap A → Sim A
in_swap f m = put_back (λ s. record m { swap = s }) (f m.swap)

unfoldable pub in_links : {A : Type 0} → L A → Sim A
in_links f m = put_back (λ l. record m { links = l }) (f m.links)

-- `frames[i]`, a fault out of range
unfoldable pub get_frame : ℕ → Sim Frame
get_frame i = do m ← gets (λ m. m); check (ltb i m.frame_count); pure (m.frames i)

unfoldable pub set_frame : ℕ → Frame → Sim (Unit {0})
set_frame i f = do
  m ← gets (λ m. m)
  check (ltb i m.frame_count)
  modify λ m. record m { frames = update m.frames i f }

unfoldable pub count_event : (Stats → Stats) → Sim (Unit {0})
count_event f = modify λ m. record m { stats = f m.stats }

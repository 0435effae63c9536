-- ===== src/Coremap.antt =====
-- A2-zengzix2/src/csc369_coremap.c, and CSC369_MMHandleEviction of csc369_mm.c, which it calls:
-- physical frames, and the eviction of a page when none is free.
pub mod Consistent
pub mod Evicted
pub mod Eviction
pub mod FindFree
pub mod Allocate
use csc369_os_a.Base.{
  ℕ, zero, suc, ◌+◌, ◌*◌, true, false, not, Option, none, some, ltb, leb, ◌==◌, if◌then◌else◌, Ptr,
  null, pure, ◌>>=◌, ◌>>◌, check, gets, modify,
}
use csc369_os_a.PageTable.{
  pte_is_dirty, pte_set_dirty, pte_set_valid, pte_set_on_swap, pte_get_frame_number,
  pte_get_swap_offset, pte_set_swap_offset,
}
use csc369_os_a.Swap.{frame_size, copy, swap_page_out}
use csc369_os_a.Machine.{Frame, Sim, incr, in_heap, in_swap, get_frame, set_frame, count_event}
use csc369_os_a.Policy.{policy_evict}

-- The frames of CSC369_CoremapCreate, where `calloc` succeeds
abbrev pub fresh_frames : ℕ → Frame
fresh_frames i = record { free = true; pte = null }

-- The loop of FindFreeFrame, from frame `i` on for `n` frames
unfoldable pub find_free : (ℕ → Frame) → ℕ → ℕ → Option ℕ
find_free frames zero i = none
find_free frames (suc n) i =
    let rest = find_free frames n (i + 1) in if (frames i).free then some i else rest

-- FindFreeFrame
unfoldable pub find_free_frame : Sim (Option ℕ)
unfolding find_free
find_free_frame = gets λ m. find_free m.frames m.frame_count 0

-- CSC369_CoremapGetFrame: the frame stands for its number
unfoldable pub coremap_get_frame : ℕ → Sim ℕ
coremap_get_frame frame_number = do
  m ← gets (λ m. m)
  check (ltb frame_number m.memsize)
  pure frame_number

-- CSC369_CoremapClearFrame
unfoldable pub coremap_clear_frame : ℕ → Sim (Unit {0})
coremap_clear_frame frame_number = do
  m ← gets (λ m. m)
  check (ltb frame_number m.memsize)
  in_swap (λ s.
      (do
        check (leb (frame_number * frame_size + frame_size) s.physmem_size)
        modify λ s. record s {
          physmem = copy s.physmem (frame_number * frame_size) (λ _. 0) 0 frame_size;
        })
        s)

-- CSC369_MMHandleEviction of csc369_mm.c
unfoldable pub mm_handle_eviction : Ptr → Sim (Unit {0})
mm_handle_eviction victim = do
  dirty ← in_heap (pte_is_dirty victim)
  count_event λ s.
      if dirty
      then record s { evict_dirty_count = incr s.evict_dirty_count }
      else record s { evict_clean_count = incr s.evict_clean_count }
  frame ← in_heap (pte_get_frame_number victim)
  old ← in_heap (pte_get_swap_offset victim)
  offset ← in_swap (swap_page_out frame old)
  in_heap (pte_set_dirty victim false)
  in_heap (pte_set_valid victim false)
  in_heap (pte_set_on_swap victim true)
  in_heap (pte_set_swap_offset victim offset)

-- The frame that a page is evicted from, when no frame is free.
unfoldable pub evict_frame : Sim ℕ
evict_frame = do
  m ← gets (λ m. m)
  frame_number ← policy_evict m.policy
  victim ← get_frame frame_number
  check (not (victim.pte == null))
  mm_handle_eviction victim.pte
  pure frame_number

-- A free frame that was found, or one whose page is evicted
unfoldable pub choose_frame : Option ℕ → Sim ℕ
choose_frame none = evict_frame
choose_frame (some i) = pure i

-- CSC369_CoremapAllocateFrame
unfoldable pub coremap_allocate_frame : Ptr → Sim ℕ
coremap_allocate_frame pte = do
  check (not (pte == null))
  found ← find_free_frame
  frame_number ← choose_frame found
  set_frame frame_number (record { free = false; pte = pte })
  pure frame_number

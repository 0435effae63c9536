-- ===== src/Mm.antt =====
-- A2-zengzix2/src/csc369_mm.c: address translation and demand paging. CSC369_MMHandleEviction is in
-- Coremap.antt, since csc369_coremap.c calls it.
pub mod Fill
pub mod Resident
pub mod Miss
pub mod Grown
pub mod Translate
pub mod Destroy
pub mod Tests
use csc369_os_a.Base.{
  ℕ, null, check, ◌==◌, Bool, true, false, not, if◌then◌else◌, Ptr, pure, ◌>>=◌, ◌>>◌, gets,
}
use csc369_os_a.PageTable.Destroy.{page_table_destroy}
use csc369_os_a.PageTable.{
  H, free, page_table_allocate, pte_is_valid, pte_set_valid, pte_set_dirty, pte_is_on_swap,
  pte_set_on_swap, pte_get_frame_number, pte_set_frame_number, pte_get_swap_offset,
}
use csc369_os_a.Swap.{swap_page_in}
use csc369_os_a.Machine.{
  AccessType, store, modify_access, load, instruction_fetch, MemAccess, Sim, incr, in_heap, in_swap,
  count_event,
}
use csc369_os_a.Coremap.{coremap_allocate_frame, coremap_clear_frame}

-- `type == CSC369_ACCESS_TYPE_STORE || type == CSC369_ACCESS_TYPE_MODIFY`
abbrev pub is_write : AccessType → Bool
is_write store = true
is_write modify_access = true
is_write load = false
is_write instruction_fetch = false

-- What fills the frame of a page: zeros on the first access, or the page from swap. A failed read
-- is only logged.
unfoldable pub fill_from : Bool → Ptr → ℕ → Sim (Unit {0})
fill_from false pte frame_number = do
  coremap_clear_frame frame_number
  in_heap (pte_set_dirty pte true)
fill_from true pte frame_number = do
  offset ← in_heap (pte_get_swap_offset pte)
  swap_result ← in_swap (swap_page_in frame_number offset)
  in_heap (pte_set_on_swap pte false)

-- `if (!CSC369_PTEIsOnSwap(pte)) ... else ...` of CSC369_MMGetFrameNumber
unfoldable pub fill_frame : Ptr → ℕ → Sim (Unit {0})
unfolding fill_from
fill_frame pte frame_number = do
  on_swap ← in_heap (pte_is_on_swap pte)
  fill_from on_swap pte frame_number

-- The branch of CSC369_MMGetFrameNumber for an entry that is not valid
unfoldable pub mm_miss : Ptr → Sim ℕ
unfolding fill_frame
mm_miss pte = do
  count_event (λ s. record s { miss_count = incr s.miss_count })
  frame_number ← coremap_allocate_frame pte
  in_heap (pte_set_frame_number pte frame_number)
  fill_frame pte frame_number
  in_heap (pte_set_valid pte true)
  pure frame_number

-- The branch for a valid entry
unfoldable pub mm_hit : Ptr → Sim ℕ
mm_hit pte = do
  count_event (λ s. record s { hit_count = incr s.hit_count })
  in_heap (pte_get_frame_number pte)

-- CSC369_MMGetFrameNumber
unfoldable pub mm_get_frame_number : MemAccess → Sim ℕ
mm_get_frame_number access = do
  m ← gets (λ m. m)
  pte ← in_heap (page_table_allocate m.page_table access.virtual_address)
  valid ← in_heap (pte_is_valid pte)
  frame_number ← if not valid then mm_miss pte else mm_hit pte
  if is_write access.type then in_heap (pte_set_dirty pte true) else pure tt
  count_event (λ s. record s { ref_count = incr s.ref_count })
  pure frame_number

-- CSC369_MMGetPageTable, of the memory manager `mm` whose page table is `page_table`
unfoldable pub mm_get_page_table : Ptr → Ptr → H Ptr
mm_get_page_table mm page_table = do check (not (mm == null)); pure page_table

-- CSC369_MMDestroy, of the memory manager `mm` whose page table is `page_table`; `fuel` bounds the
-- depth of the tables
unfoldable pub mm_destroy : ℕ → Ptr → Ptr → H (Unit {0})
unfolding free page_table_destroy
mm_destroy fuel mm page_table = do
  check (not (mm == null))
  page_table_destroy fuel page_table
  free mm

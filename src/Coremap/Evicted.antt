-- ===== src/Coremap/Evicted.antt =====
-- What an eviction by CSC369_MMHandleEviction leaves.
use csc369_os_a.Base.{ℕ, ◌+◌, ◌≤◌, ◌<◌, ◌≡◌, ◌≢◌, some, true, false, if◌then◌else◌, Ptr}
use csc369_os_a.PageTable.{Pte}
use csc369_os_a.PageTable.View.{has_pte, status, walk}
use csc369_os_a.PageTable.Entry.{with_entry}
use csc369_os_a.Bitutil.Count.{count_used}
use csc369_os_a.Swap.{Swap, frame_size}
use csc369_os_a.Machine.{Machine, Stats, incr}
use csc369_os_a.Coremap.Consistent.{Consistent, Owns, page_byte}

-- The coremap, the policy and the policy's state are the same.
pub record SameCoremap (m m' : Machine) : Type 0 where
  pub page_table : m'.page_table ≡ m.page_table
  pub frames : m'.frames ≡ m.frames
  pub frame_count : m'.frame_count ≡ m.frame_count
  pub memsize : m'.memsize ≡ m.memsize
  pub policy : m'.policy ≡ m.policy
  pub links : m'.links ≡ m.links
  pub clock_list : m'.clock_list ≡ m.clock_list
  pub clock_hand : m'.clock_hand ≡ m.clock_hand
  pub rr_next : m'.rr_next ≡ m.rr_next

-- the entry of a page that has gone to swap at offset `o`
abbrev pub out_entry : Pte → ℕ → Pte
out_entry e o = record e { dirty = false; valid = false; on_swap = true; swap_offset = some o }

abbrev pub evicted_stats : Pte → Stats → Stats
evicted_stats e s =
    if e.dirty
    then record s { evict_dirty_count = incr s.evict_dirty_count }
    else record s { evict_clean_count = incr s.evict_clean_count }

abbrev pub evicted : Machine → Ptr → Pte → ℕ → Swap → Machine
evicted m p e o s' = record m {
  heap = with_entry m.heap p (out_entry e o);
  swap = s';
  stats = evicted_stats e m.stats;
}

-- What eviction leaves: the frame set aside, every page's bytes as they were, the entry of no other
-- page touched, and at most one more slot in use.
pub record Evicted (m : Machine) (f : ℕ) (m' : Machine) : Type 0 where
  pub consistent : Consistent f m'
  pub page : (q : Ptr) (j : ℕ) → j < frame_size → page_byte m' q j ≡ page_byte m q j
  pub victim :
      let e = status m.heap (m.frames f).pte in
      (m'.stats ≡ evicted_stats e m.stats)
      × ((status m'.heap (m.frames f).pte).valid ≡ false)
      × ((status m'.heap (m.frames f).pte).on_swap ≡ true)
  pub others : (q : Ptr) → q ≢ (m.frames f).pte → status m'.heap q ≡ status m.heap q
  pub ptes : (q : Ptr) → has_pte m'.heap q ≡ has_pte m.heap q
  pub walks : (va : ℕ) → walk m'.heap m'.page_table va ≡ walk m.heap m.page_table va
  pub slots : count_used m'.swap.swapmap ≤ count_used m.swap.swapmap + 1
  pub nbits : m'.swap.swapmap.nbits ≡ m.swap.swapmap.nbits
  pub bytes : m'.heap.kmalloc.bytes_malloced ≡ m.heap.kmalloc.bytes_malloced
  pub kept : SameCoremap m m'
  pub owns : Owns m → Owns m'

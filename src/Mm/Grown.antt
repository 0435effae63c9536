-- ===== src/Mm/Grown.antt =====
-- What CSC369_MMGetFrameNumber promises, and the heap that CSC369_PageTableAllocate leaves for it.
use csc369_os_a.Base.{ℕ, ◌+◌, ◌≤◌, ◌<◌, ◌≡◌, ◌∙◌, ◌⊎◌, ap, true, Ptr, inl, inr, arith}
use csc369_os_a.PageTable.{Heap}
use csc369_os_a.PageTable.View.{status, walk}
use csc369_os_a.PageTable.Tree.{IsTree, Grown, no_pte, walk-Sub}
use csc369_os_a.PageTable.Allocate.{sizeof_path, has_table-kept}
use csc369_os_a.Bitutil.Count.{count_used}
use csc369_os_a.Swap.{frame_size}
use csc369_os_a.Machine.{Machine, Stats, incr}
use csc369_os_a.Coremap.Consistent.{Consistent, Owns, page_byte, byte_of}

-- Byte `j` of the page of a virtual address.
abbrev pub view : Machine → ℕ → ℕ → ℕ
view m va j = page_byte m (walk m.heap m.page_table va) j

-- One more reference, which is a hit or a miss.
abbrev pub Referenced : Stats → Stats → Type 0
Referenced s s' =
    (s'.ref_count ≡ incr s.ref_count)
    × (((s'.hit_count ≡ incr s.hit_count) × (s'.miss_count ≡ s.miss_count))
        ⊎ ((s'.hit_count ≡ s.hit_count) × (s'.miss_count ≡ incr s.miss_count)))

-- The page of `va` is in frame `f`, and no page's bytes have changed.
pub record Translated (Tracked : ℕ → Machine → Type 0) (m : Machine) (va f : ℕ) (m' : Machine)
    : Type 0 where
  pub inside : f < m.frame_count
  pub consistent : Consistent m.frame_count m'
  pub views : (a j : ℕ) → j < frame_size → view m' a j ≡ view m a j
  pub valid : (status m'.heap (walk m'.heap m'.page_table va)).valid ≡ true
  pub frame_number : (status m'.heap (walk m'.heap m'.page_table va)).frame_number ≡ f
  pub tracked : Tracked f m' ⊎ Tracked m.frame_count m'
  pub stats : Referenced m.stats m'.stats
  pub slots : count_used m'.swap.swapmap ≤ count_used m.swap.swapmap + 1
  pub nbits : m'.swap.swapmap.nbits ≡ m.swap.swapmap.nbits
  pub bytes : m'.heap.kmalloc.bytes_malloced ≤ m.heap.kmalloc.bytes_malloced + sizeof_path
  pub policy : m'.policy ≡ m.policy
  pub frame_count : m'.frame_count ≡ m.frame_count
  pub page_table : m'.page_table ≡ m.page_table
  pub owns : Owns m → Owns m'

-- a grown heap holds the same pages
module _ (m : Machine) (h : Heap) (c : Consistent m.frame_count m) (v : IsTree h)
    (g : Grown m.heap h) where
  abbrev pub grown : Machine
  grown = record m { heap = h }

  grown-page_byte : (q : Ptr) (j : ℕ) → page_byte grown q j ≡ page_byte m q j
  grown-page_byte q j = ap (λ e. byte_of e m.swap.physmem m.swap.file.bytes j) (g.statuses q)

  pub grown-view : (va j : ℕ) → view grown va j ≡ view m va j
  grown-view va j = elim (walk-Sub c.tree g m.page_table va) [
    | inl same ↦ ap (λ q. page_byte grown q j) same ∙ grown-page_byte _ j
    | inr (n, new) ↦ grown-page_byte _ j ∙ ground (arith, no_pte c.tree)
  ]

  pub grown-Consistent : Consistent m.frame_count grown
  grown-Consistent = record {
    tree = v;
    root = has_table-kept g m.page_table c.root;
    swap = c.swap;
    memsize = c.memsize;
    physmem = c.physmem;
    valid = λ q. rw (g.statuses q) (c.valid q);
    held = λ i. rw (g.statuses (m.frames i).pte) (c.held i);
    slots = λ q o. rw (g.statuses q) (c.slots q o);
    slots_unique = λ p q o. rw (g.statuses p, g.statuses q) (c.slots_unique p q o);
    swapped = λ q. rw (g.statuses q) (c.swapped q);
  }

-- ===== src/Coremap/Consistent.antt =====
-- How the page table, the coremap and the swap space of a simulation agree, and the bytes that they
-- hold together for a page.
use csc369_os_a.Base.{
  ℕ, ◌+◌, ◌*◌, ◌≤◌, ◌<◌, ◌≡◌, ◌≢◌, none, some, true, false, if◌then◌else◌, Ptr, Option-cases, inl,
  inr, arith,
}
use csc369_os_a.PageTable.{Offset, Pte}
use csc369_os_a.PageTable.View.{has_table, status}
use csc369_os_a.PageTable.Tree.{IsTree}
use csc369_os_a.PageTable.Owned.{IsOwned}
use csc369_os_a.Swap.{frame_size}
use csc369_os_a.Swap.PageOut.{IsSwap}
use csc369_os_a.Swap.Placed.{InUse}
use csc369_os_a.Machine.{Machine}

-- byte `j` of the page at an offset of the swap file
abbrev pub file_byte : (ℕ → ℕ) → Offset → ℕ → ℕ
file_byte bytes none j = 0
file_byte bytes (some o) j = bytes (o + j)

-- Byte `j` of the page of an entry: in its frame, in the swap file, or 0 before the first access.
abbrev pub byte_of : Pte → (ℕ → ℕ) → (ℕ → ℕ) → ℕ → ℕ
byte_of e physmem bytes j =
    if e.valid
    then physmem (e.frame_number * frame_size + j)
    else if e.on_swap
    then file_byte bytes e.swap_offset j
    else 0

abbrev pub page_byte : Machine → Ptr → ℕ → ℕ
page_byte m p j = byte_of (status m.heap p) m.swap.physmem m.swap.file.bytes j

-- A page's byte depends on its own frame, and on its own place in the file.
pub byte_of_congr :
    (e : Pte) (ph ph' fb fb' : ℕ → ℕ) (j : ℕ)
    → (e.valid ≡ true
        → ph' (e.frame_number * frame_size + j) ≡ ph (e.frame_number * frame_size + j))
    → ((r : ℕ) → e.swap_offset ≡ some r → fb' (r + j) ≡ fb (r + j))
    → byte_of e ph' fb' j ≡ byte_of e ph fb j
byte_of_congr e ph ph' fb fb' j h k = elim (Option-cases e.swap_offset) [
  | inl n ↦ ground arith
  | inr (r, s) ↦ ground (arith, k r)
]

-- The live blocks of the allocator are the memory manager and its page table.
abbrev pub Owns : Machine → Type 0
Owns m = IsOwned m.mm m.page_table m.heap

-- The state of a simulation in which frame `x` is set aside; none is if `x` is the frame count.
pub record Consistent (x : ℕ) (m : Machine) : Type 0 where
  pub tree : IsTree m.heap
  pub root : has_table m.heap m.page_table ≡ true
  pub swap : IsSwap m.swap
  pub memsize : m.memsize ≡ m.frame_count
  pub physmem : m.swap.physmem_size ≡ m.frame_count * frame_size
  -- a valid entry and its frame point at each other
  pub valid :
      (p : Ptr)
      → (status m.heap p).valid ≡ true
      → let f = (status m.heap p).frame_number in
        (f < m.frame_count) × (f ≢ x) × ((m.frames f).free ≡ false) × ((m.frames f).pte ≡ p)
  pub held :
      (i : ℕ)
      → i < m.frame_count
      → i ≢ x
      → (m.frames i).free ≡ false
      → let e = status m.heap (m.frames i).pte in (e.valid ≡ true) × (e.frame_number ≡ i)
  -- an entry's offset is a slot in use, and no other entry has it
  pub slots : (p : Ptr) (o : ℕ) → (status m.heap p).swap_offset ≡ some o → InUse m.swap.swapmap o
  pub slots_unique :
      (p q : Ptr) (o : ℕ)
      → (status m.heap p).swap_offset ≡ some o
      → (status m.heap q).swap_offset ≡ some o
      → p ≡ q
  -- a page on swap has an offset, and the file reaches past it
  pub swapped :
      (p : Ptr)
      → (status m.heap p).on_swap ≡ true
      → (o : ℕ) × ((status m.heap p).swap_offset ≡ some o) × (o + frame_size ≤ m.swap.file.size)

-- ===== src/Swap.antt =====
-- A2-zengzix2/src/csc369_swap.c: the swap file, its bitmap of slots, and the pages that go in and
-- out of physical memory.
pub mod PageOut
pub mod Placed
pub mod PageIn
mod Tests
use csc369_os_a.Base.{
  ℕ, ◌+◌, ◌-◌, ◌*◌, ◌%◌, ◌^◌, min, max, ◌&&◌, Option, none, some, ltb, leb, ◌==◌, if◌then◌else◌, M,
  pure, ◌>>=◌, ◌>>◌, check, put_back, gets, modify,
}
use csc369_os_a.Bitutil.{Bitmap, bitmap_create, bitmap_alloc}
use csc369_os_a.PageTable.{Offset}

-- CSC369_SIMULATED_FRAME_SIZE
abbrev pub frame_size : ℕ
frame_size = 16

-- The open swap file. The file system refuses to let it grow past `limit`.
pub record File : Type 0 where
  pub bytes : ℕ → ℕ
  pub size : ℕ
  pub limit : ℕ

-- CSC369_Swap. `physmem` is the array that the swap space, the memory manager and the simulation
-- all point to; it is held here once.
pub record Swap : Type 0 where
  pub swapmap : Bitmap
  pub file : File
  pub physmem : ℕ → ℕ
  pub physmem_size : ℕ

-- CSC369_SwapCreate, where `calloc` and `mkstemp` succeed
unfoldable pub swap_create : ℕ → (ℕ → ℕ) → ℕ → ℕ → Option Swap
unfolding bitmap_create
swap_create size physmem physmem_size limit = elim (bitmap_create size) [
  | none ↦ none
  | some b ↦ some (record {
    swapmap = b;
    file = record { bytes = λ _. 0; size = 0; limit = limit };
    physmem = physmem;
    physmem_size = physmem_size;
  })
]

-- Copies `n` bytes of `src` from `s` on to `dst` from `d` on.
unfoldable pub copy : (ℕ → ℕ) → ℕ → (ℕ → ℕ) → ℕ → ℕ → ℕ → ℕ
copy dst d src s n a = if leb d a && ltb a (d + n) then src (s + (a - d)) else dst a

-- `&swap->physmem[frame * CSC369_SIMULATED_FRAME_SIZE]`, in the arithmetic of `unsigned int`
abbrev pub frame_base : ℕ → ℕ
frame_base frame = ((frame % 2 ^ 32) * frame_size) % 2 ^ 32

-- `read` of one frame at `pos` into physical memory: the number of bytes read
unfoldable pub read_frame : ℕ → ℕ → M Swap ℕ
unfolding copy
read_frame base pos = do
  s ← gets (λ s. s)
  let n = min frame_size (s.file.size - pos)
  check (leb (base + n) s.physmem_size)
  modify λ s. record s { physmem = copy s.physmem base s.file.bytes pos n }
  pure n

-- `write` of one frame at `pos` from physical memory: the number of bytes written
unfoldable pub write_frame : ℕ → ℕ → M Swap ℕ
unfolding copy
write_frame base pos = do
  s ← gets (λ s. s)
  let n = min frame_size (s.file.limit - pos)
  check (leb (base + n) s.physmem_size)
  modify λ s. record s {
    file = record (s.file) {
      bytes = copy s.file.bytes pos s.physmem base n;
      size = if n == 0 then s.file.size else max s.file.size (pos + n);
    };
  }
  pure n

-- CSC369_SwapPageIn: 0, or the number of bytes of a partial read. An offset that is
-- CSC369_INVALID_SWAP fails the assert. `lseek` to an offset that is not negative succeeds.
unfoldable pub swap_page_in : ℕ → Offset → M Swap ℕ
swap_page_in frame none = λ s. none
swap_page_in frame (some offset) = do
  bytes_read ← read_frame (frame_base frame) offset
  if bytes_read == frame_size then pure 0 else pure bytes_read

-- Runs `m` on the bitmap of the swap space.
unfoldable pub in_swapmap : {A : Type 0} → M Bitmap A → M Swap A
in_swapmap m s = put_back (λ b. record s { swapmap = b }) (m s.swapmap)

-- The offset at which CSC369_SwapPageOut writes: the given one, or that of a new slot.
unfoldable pub page_out_offset : Offset → M Swap Offset
page_out_offset (some offset) = pure (some offset)
page_out_offset none = do
  idx ← in_swapmap bitmap_alloc
  elim idx [ none ↦ pure none | some i ↦ pure (some (i * frame_size)) ]

-- The write of CSC369_SwapPageOut, at an offset that it has.
unfoldable pub page_out_write : ℕ → Offset → M Swap Offset
page_out_write frame none = pure none
page_out_write frame (some offset) = do
  bytes_written ← write_frame (frame_base frame) offset
  if bytes_written == frame_size then pure (some offset) else pure none

-- CSC369_SwapPageOut
unfoldable pub swap_page_out : ℕ → Offset → M Swap Offset
swap_page_out frame offset = do o ← page_out_offset offset; page_out_write frame o

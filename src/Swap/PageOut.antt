-- ===== src/Swap/PageOut.antt =====
-- CSC369_SwapPageOut writes a frame to its slot of the swap file.
use csc369_os_a.Base.{
  ℕ, ◌+◌, ◌-◌, ◌*◌, ◌^◌, ◌≤◌, ◌<◌, ◌≡◌, refl, Option, none, some, false, ◌&&◌, leb, ltb, max, min,
  arith,
}
use csc369_os_a.Base.Returns
use csc369_os_a.Base.Returns.{Returns, returns}
use csc369_os_a.Bitutil.{Bitmap, bitmap_alloc}
use csc369_os_a.Bitutil.Alloc.{IsBitmap, Takes}
use csc369_os_a.Bitutil.Count.{count_used, Gives, bitmap_alloc-Gives}
use csc369_os_a.PageTable.{Offset}
use csc369_os_a.Swap.{
  Swap, frame_size, frame_base, copy, write_frame, in_swapmap, page_out_offset, page_out_write,
  swap_page_out,
}

-- The bitmap is well formed, every slot fits into the file, and physical memory is at most 4 GB.
pub record IsSwap (s : Swap) : Type 0 where
  pub bitmap : IsBitmap s.swapmap
  pub slots_fit : s.swapmap.nbits * frame_size ≤ s.file.limit
  pub physmem_fits : s.physmem_size ≤ 2 ^ 32

-- The slot at which a page is written: the one it has, or the first free one.
abbrev pub Placed : Bitmap → Offset → ℕ → Bitmap → Type 0
Placed b none o b' =
    (i : ℕ) × (o ≡ i * frame_size) × Takes b i b' × (count_used b' ≡ count_used b + 1)
Placed b (some p) o b' = (o ≡ p) × (b' ≡ b)

-- `s'` is `s` with frame `frame` stored at offset `o`, for a page whose offset was `old`.
pub record Stored (s : Swap) (frame : ℕ) (old : Offset) (o : ℕ) (s' : Swap) : Type 0 where
  pub placed : Placed s.swapmap old o s'.swapmap
  pub physmem : s'.physmem ≡ s.physmem
  pub physmem_size : s'.physmem_size ≡ s.physmem_size
  pub limit : s'.file.limit ≡ s.file.limit
  pub page : (j : ℕ) → j < frame_size → s'.file.bytes (o + j) ≡ s.physmem (frame * frame_size + j)
  pub others :
      (a : ℕ) → (leb o a && ltb a (o + frame_size)) ≡ false → s'.file.bytes a ≡ s.file.bytes a
  pub stored : o + frame_size ≤ s'.file.size
  pub grows : s.file.size ≤ s'.file.size

-- What CSC369_SwapPageOut returns: the offset, with the frame stored at it.
abbrev pub PagedOut : Swap → ℕ → Offset → Offset → Swap → Type 0
PagedOut s frame old r s' = (o : ℕ) × (r ≡ some o) × Stored s frame old o s'

module _ (s : Swap) (frame : ℕ) (o : ℕ) (fits : frame * frame_size + frame_size ≤ s.physmem_size)
    (small : s.physmem_size ≤ 2 ^ 32) (room : o + frame_size ≤ s.file.limit) where
  abbrev written : Swap
  written = record s {
    file = record (s.file) {
      bytes = copy s.file.bytes o s.physmem (frame * frame_size) frame_size;
      size = max s.file.size (o + frame_size);
    };
  }

  write_run : page_out_write frame (some o) s ≡ some (some o, written)
  unfolding page_out_write write_frame
  write_run =
      let b : frame_base frame ≡ frame * frame_size = omega arith in
      let n : min frame_size (s.file.limit - o) ≡ frame_size = omega arith in
      rw (b, n) (ground arith)

  written-Stored : Stored s frame (some o) o written
  unfolding copy
  written-Stored = record {
    placed = (refl, refl);
    physmem = refl;
    physmem_size = refl;
    limit = refl;
    page = λ j l. let e : o + j - o ≡ j = omega arith in ground arith;
    others = λ a l. ground arith;
    stored = omega arith;
    grows = omega arith;
  }

-- The swap space has a slot for a page whose offset is `old`.
abbrev pub HasSlot : Swap → Offset → Type 0
HasSlot s none = count_used s.swapmap < s.swapmap.nbits
HasSlot s (some o) = o + frame_size ≤ s.file.limit

module _ (s : Swap) (frame : ℕ) (v : IsSwap s)
    (fits : frame * frame_size + frame_size ≤ s.physmem_size) where
  page_out_new :
      (r : Option ℕ) (b : Bitmap)
      → bitmap_alloc s.swapmap ≡ some (r, b)
      → Gives s.swapmap r b
      → Returns (PagedOut s frame none) (swap_page_out frame none s)
  unfolding swap_page_out page_out_offset in_swapmap
  page_out_new none b e g = absurd g
  page_out_new (some i) b e (t, more) =
      let s1 = record s { swapmap = b } in
      let slot_fits : i * frame_size + frame_size ≤ s.file.limit =
        omega (arith, t.inside, v.slots_fit) in
      let w = written-Stored s1 frame (i * frame_size) fits v.physmem_fits slot_fits in
      rw (e, write_run s1 frame (i * frame_size) fits v.physmem_fits slot_fits)
        (returns (
          i * frame_size,
          refl,
          record {
            placed = (i, refl, t, more);
            physmem = refl;
            physmem_size = refl;
            limit = refl;
            page = w.page;
            others = w.others;
            stored = w.stored;
            grows = w.grows;
          },
        ))

  -- In a well-formed swap space, while there is a slot for the page, CSC369_SwapPageOut writes its
  -- frame there, returns the offset, and leaves physical memory and all other bytes of the file as
  -- they were. A page with no slot gets the first free one; a page with a slot keeps it.
  pub swap_page_out-PagedOut :
      (old : Offset) → HasSlot s old → Returns (PagedOut s frame old) (swap_page_out frame old s)
  unfolding swap_page_out page_out_offset
  swap_page_out-PagedOut none l =
      let (r, b, e, g) = Returns.result (bitmap_alloc-Gives v.bitmap l) in page_out_new r b e g
  swap_page_out-PagedOut (some o) l = old_slot o l
    where
      old_slot :
          (o : ℕ)
          → o + frame_size ≤ s.file.limit
          → Returns (PagedOut s frame (some o)) (swap_page_out frame (some o) s)
      old_slot o l =
          rw (write_run s frame o fits v.physmem_fits l)
            (returns (o, refl, written-Stored s frame o fits v.physmem_fits l))

-- ===== src/Swap/PageIn.antt =====
-- CSC369_SwapPageIn reads a page back into a frame.
use csc369_os_a.Base.{ℕ, ap, ◌+◌, ◌-◌, ◌*◌, ◌^◌, ◌≤◌, ◌<◌, ◌≡◌, ◌∙◌, some, min, arith}
use csc369_os_a.Base.Returns
use csc369_os_a.PageTable.{Offset}
use csc369_os_a.Swap.{Swap, frame_size, frame_base, copy, read_frame, swap_page_in, swap_page_out}
use csc369_os_a.Swap.PageOut.{IsSwap, HasSlot, Stored, swap_page_out-PagedOut}

-- physical memory with the page at offset `o` of the file in frame `frame`
abbrev pub paged_in : Swap → ℕ → ℕ → Swap
paged_in s frame o = record s {
  physmem = copy s.physmem (frame * frame_size) s.file.bytes o frame_size;
}

module _ (s : Swap) (frame o : ℕ) (fits : frame * frame_size + frame_size ≤ s.physmem_size)
    (small : s.physmem_size ≤ 2 ^ 32) where
  -- For a frame of physical memory of at most 4 GB, if the file reaches past the page,
  -- CSC369_SwapPageIn returns 0, with the page in the frame and the rest of physical memory and the
  -- file as they were.
  pub swap_page_in_of_stored :
      o + frame_size ≤ s.file.size → swap_page_in frame (some o) s ≡ some (0, paged_in s frame o)
  unfolding swap_page_in read_frame
  swap_page_in_of_stored l =
      let b : frame_base frame ≡ frame * frame_size = omega arith in
      let n : min frame_size (s.file.size - o) ≡ frame_size = omega arith in
      rw (b, n) (ground arith)

  -- For a frame of physical memory of at most 4 GB, at or past the end of the file CSC369_SwapPageIn reads nothing, and yet returns 0, as it does on
  -- success.
  pub swap_page_in_at_end :
      s.file.size ≤ o
      → (r : Swap) × (swap_page_in frame (some o) s ≡ some (0, r))
        × ((a : ℕ) → r.physmem a ≡ s.physmem a)
  unfolding swap_page_in read_frame copy
  swap_page_in_at_end l =
      let b : frame_base frame ≡ frame * frame_size = omega arith in
      let n : min frame_size (s.file.size - o) ≡ 0 = omega arith in
      (
        record s { physmem = copy s.physmem (frame * frame_size) s.file.bytes o 0 },
        rw (b, n) (ground arith),
        λ a. ground arith,
      )

-- Byte `j` of the frame after the page is back.
pub paged_in-page :
    (s : Swap) (frame o j : ℕ)
    → j < frame_size
    → (paged_in s frame o).physmem (frame * frame_size + j) ≡ s.file.bytes (o + j)
unfolding copy
paged_in-page s frame o j l =
    let e : frame * frame_size + j - frame * frame_size ≡ j = omega arith in ground arith

-- A stored page comes back, if the file is as it was.
page_in-page_out :
    {s s' : Swap} {old : Offset} (f g o : ℕ) (p : ℕ → ℕ)
    → Stored s f old o s'
    → g * frame_size + frame_size ≤ s'.physmem_size
    → s'.physmem_size ≤ 2 ^ 32
    → (r : Swap) × (swap_page_in g (some o) (record s' { physmem = p }) ≡ some (0, r))
      × ((j : ℕ) → j < frame_size → r.physmem (g * frame_size + j) ≡ s.physmem (f * frame_size + j))
page_in-page_out {s} {s'} f g o p st fits small =
    let s1 = record s' { physmem = p } in
    (
      paged_in s1 g o,
      swap_page_in_of_stored s1 g o fits small st.stored,
      λ j l. paged_in-page s1 g o j l ∙ st.page j l,
    )

-- CSC369_SwapPageOut of a frame and then CSC369_SwapPageIn, in a well-formed swap space that has a
-- slot for the page: the page goes out to some offset, and later, whatever physical memory then
-- holds, as long as the file is as it was, comes back from that offset into any frame byte for byte.
pub swap_page_in-swap_page_out :
    (s : Swap) (f : ℕ) (old : Offset)
    → IsSwap s
    → f * frame_size + frame_size ≤ s.physmem_size
    → HasSlot s old
    → (o : ℕ) × (s' : Swap) × (swap_page_out f old s ≡ some (some o, s'))
      × ((g : ℕ) (p : ℕ → ℕ)
          → g * frame_size + frame_size ≤ s.physmem_size
          → (r : Swap) × (swap_page_in g (some o) (record s' { physmem = p }) ≡ some (0, r))
            × ((j : ℕ)
                → j < frame_size
                → r.physmem (g * frame_size + j) ≡ s.physmem (f * frame_size + j)))
swap_page_in-swap_page_out s f old v fits slot =
    let (x, s', run, (o, e, st)) = Returns.result (swap_page_out-PagedOut s f v fits old slot) in
    (
      o,
      s',
      run ∙ ap (λ y. some (y, s')) e,
      λ g p l.
          page_in-page_out f g o p st (omega (arith, st.physmem_size))
            (omega (arith, st.physmem_size, v.physmem_fits)),
    )

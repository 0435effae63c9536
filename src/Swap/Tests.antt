-- ===== src/Swap/Tests.antt =====
-- A swap space of csc369_swap.c of four slots, two frames of physical memory, and a page that is
-- stored.
use csc369_os_a.Base.{ℕ, ◌≤◌, ◌<◌, ◌+◌, ◌*◌, ◌%◌, ◌<◌, ◌≡◌, none, some, arith}
use csc369_os_a.Base.Bits.{zero-bit}
use csc369_os_a.Base.Returns.{Returns}
use csc369_os_a.Bitutil.{Bitmap}
use csc369_os_a.Bitutil.Count.{count_none}
use csc369_os_a.Swap.{Swap, frame_size, swap_page_in, swap_page_out}
use csc369_os_a.Swap.PageOut.{IsSwap, PagedOut, swap_page_out-PagedOut}
use csc369_os_a.Swap.PageIn.{
  paged_in, swap_page_in_of_stored, swap_page_in_at_end, swap_page_in-swap_page_out,
}

abbrev map : Bitmap
map = record { nbits = 64; words = λ _. 0 }

abbrev empty : Swap
empty = record {
  swapmap = map;
  file = record { bytes = λ _. 0; size = 0; limit = 1024 };
  physmem = λ a. a + 1;
  physmem_size = 32;
}

empty-IsSwap : IsSwap empty
empty-IsSwap = record {
  bitmap = record {
    small = omega arith;
    word = λ i. omega arith;
    leftover = λ i le lt. absurd (omega arith);
  };
  slots_fit = omega arith;
  physmem_fits = omega arith;
}

swap_page_out-PagedOut_example : Returns (PagedOut empty 1 none) (swap_page_out 1 none empty)
swap_page_out-PagedOut_example =
    swap_page_out-PagedOut empty 1 empty-IsSwap (omega arith) none
      (omega (arith, count_none map 64 (λ i l. zero-bit (i % 64))))

-- the page of frame 1 is at offset 16
abbrev one_stored : Swap
one_stored = record empty { file = record { bytes = λ a. a + 1; size = 32; limit = 1024 } }

swap_page_in_of_stored_example :
    swap_page_in 0 (some 16) one_stored ≡ some (0, paged_in one_stored 0 16)
swap_page_in_of_stored_example =
    swap_page_in_of_stored one_stored 0 16 (omega arith) (omega arith) (omega arith)

swap_page_in_at_end_example :
    (r : Swap) × (swap_page_in 0 (some 32) one_stored ≡ some (0, r))
    × ((a : ℕ) → r.physmem a ≡ a + 1)
swap_page_in_at_end_example =
    swap_page_in_at_end one_stored 0 32 (omega arith) (omega arith) (omega arith)

swap_page_in-swap_page_out_example :
    (o : ℕ) × (s' : Swap) × (swap_page_out 1 none empty ≡ some (some o, s'))
    × ((g : ℕ) (p : ℕ → ℕ)
        → g * frame_size + frame_size ≤ 32
        → (r : Swap) × (swap_page_in g (some o) (record s' { physmem = p }) ≡ some (0, r))
          × ((j : ℕ)
              → j < frame_size
              → r.physmem (g * frame_size + j) ≡ empty.physmem (1 * frame_size + j)))
swap_page_in-swap_page_out_example =
    swap_page_in-swap_page_out empty 1 none empty-IsSwap (omega arith)
      (omega (arith, count_none map 64 (λ i l. zero-bit (i % 64))))

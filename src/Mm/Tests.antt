-- ===== src/Mm/Tests.antt =====
-- A machine of one frame that holds a page, with a second page to come, and what the theorems on
-- csc369_coremap.c and csc369_mm.c say of it.
use csc369_os_a.Base.{◌+◌, ◌%◌, ◌≡◌, refl, true, false, none, some, update, null, arith}
use csc369_os_a.Base.Returns.{Returns}
use csc369_os_a.Kmalloc.{malloc_init}
use csc369_os_a.PageTable.{Pte, Heap, init_pte}
use csc369_os_a.PageTable.Tree.{IsTree}
use csc369_os_a.Base.Bits.{zero-bit}
use csc369_os_a.Bitutil.{Bitmap}
use csc369_os_a.Bitutil.Alloc.{IsBitmap}
use csc369_os_a.Bitutil.Count.{count_used, count_none}
use csc369_os_a.Machine.{Machine, MemAccess, store, rr}
use csc369_os_a.Policy.Simple.{rr_laws}
use csc369_os_a.Coremap.{find_free, fresh_frames, mm_handle_eviction}
use csc369_os_a.Coremap.Consistent.{Consistent}
use csc369_os_a.Coremap.Evicted.{Evicted}
use csc369_os_a.Coremap.Eviction.{mm_handle_eviction-Evicted}
use csc369_os_a.Coremap.FindFree.{FoundFree, find_free-FoundFree}
use csc369_os_a.Mm.{mm_get_frame_number}
use csc369_os_a.Mm.Grown.{Translated}
use csc369_os_a.Mm.Translate.{mm_get_frame_number-Translated}
use csc369_os_a.Simulation.{zero_links, zero_stats}

abbrev first_pte : Pte
first_pte = record init_pte { valid = true; dirty = true }

abbrev two_ptes : Heap
two_ptes = record {
  pte = update (update (λ _. none) 1 (some first_pte)) 2 (some init_pte);
  table = update (λ _. none) 3 (some (record { array = 4; ptes = λ _. null }));
  kmalloc = malloc_init;
  next = 5;
}

two_ptes-IsTree : IsTree two_ptes
two_ptes-IsTree = record {
  next_pos = omega arith;
  pte_lt = λ q e. ground arith;
  table_lt = λ t e. ground arith;
  slot_pte = λ t i ne. ground arith;
  below_table = λ q ne. ground arith;
  slot_unique = λ t u i j ne e. absurd (ground arith);
  below_unique = λ p q ne e. absurd (ground arith);
}

abbrev free_map : Bitmap
free_map = record { nbits = 64; words = λ _. 0 }

free_map-IsBitmap : IsBitmap free_map
free_map-IsBitmap = record {
  small = omega arith;
  word = λ i. omega arith;
  leftover = λ i le lt. absurd (omega arith);
}

free_map_room : count_used free_map ≡ 0
free_map_room = count_none free_map 64 (λ i l. zero-bit (i % 64))

abbrev pub full : Machine
full = record {
  mm = 4;
  heap = two_ptes;
  page_table = 3;
  swap = record {
    swapmap = free_map;
    file = record { bytes = λ _. 0; size = 0; limit = 1024 };
    physmem = λ a. a + 1;
    physmem_size = 16;
  };
  frames = λ i. record { free = false; pte = 1 };
  frame_count = 1;
  links = zero_links;
  memsize = 1;
  policy = rr;
  clock_list = null;
  clock_hand = null;
  rr_next = 0;
  random = λ i. i;
  random_calls = 0;
  stats = zero_stats;
}

pub full-Consistent : Consistent 1 full
full-Consistent = record {
  tree = two_ptes-IsTree;
  root = refl;
  swap = record { bitmap = free_map-IsBitmap; slots_fit = omega arith; physmem_fits = omega arith };
  memsize = refl;
  physmem = refl;
  valid = λ q v. ground arith;
  held = λ i l ne b. ground arith;
  slots = λ q o e. absurd (ground arith);
  slots_unique = λ p q o e. absurd (ground arith);
  swapped = λ q e. absurd (ground arith);
}

mm_handle_eviction-Evicted_example : Returns (λ _. Evicted full 0) (mm_handle_eviction 1 full)
mm_handle_eviction-Evicted_example =
    mm_handle_eviction-Evicted full 0 full-Consistent (omega arith) refl
      (omega (arith, free_map_room))

full_tracked : rr_laws.Tracked 1 full
unfolding rr_laws
full_tracked = omega arith

find_free-FoundFree_example : FoundFree fresh_frames 2 1 (find_free fresh_frames 2 1)
find_free-FoundFree_example = find_free-FoundFree fresh_frames 2 1

abbrev access : MemAccess
access = record { type = store; virtual_address = 0x1003; value = 7 }

mm_get_frame_number-Translated_example :
    Returns (Translated rr_laws.Tracked full 0x1003) (mm_get_frame_number access full)
mm_get_frame_number-Translated_example =
    mm_get_frame_number-Translated rr_laws full refl (omega arith) full-Consistent full_tracked
      access (omega arith) (omega arith) (omega (arith, free_map_room))

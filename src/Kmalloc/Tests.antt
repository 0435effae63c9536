-- ===== src/Kmalloc/Tests.antt =====
-- The tracked allocator of csc369_kmalloc.c with one live block and one freed one.
use csc369_os_a.Base.{◌+◌, ◌≡◌, ◌↔◌, refl, true, false, some, [], ◌∷◌, arith}
use csc369_os_a.Kmalloc.{Block, Kmalloc, malloc, free, kh_get, is_leak_free}
use csc369_os_a.Kmalloc.Accounting.{
  IsAccounted, live_count, malloc-IsAccounted, free-live, is_leak_free-live_count,
}

abbrev freed_block : Block
freed_block = record { size = 8; freed = true }

abbrev live_block : Block
live_block = record { size = 32; freed = false }

abbrev two : Kmalloc
two = record {
  num_mallocs = 2;
  num_frees = 1;
  bytes_malloced = 40;
  bytes_freed = 8;
  malloc_map = (5, freed_block) ∷ (6, live_block) ∷ [];
}

two-IsAccounted : IsAccounted two
two-IsAccounted = record { count = refl; bytes = refl; limit = omega arith }

malloc-IsAccounted_example : IsAccounted (malloc 5 100 two).1
malloc-IsAccounted_example = malloc-IsAccounted 5 100 two refl two-IsAccounted

found : kh_get 6 two.malloc_map ≡ some live_block
unfolding kh_get
found = refl

free-live_example :
    (k : Kmalloc) × (free 6 two ≡ some k)
    × IsAccounted k
    × (k.num_frees ≡ 1 + 1)
    × (k.bytes_freed ≡ 8 + 32)
    × (kh_get 6 k.malloc_map ≡ some (record live_block { freed = true }))
free-live_example =
    free-live 6 live_block two (omega arith) found refl (omega arith) two-IsAccounted

is_leak_free-live_count_example :
    (is_leak_free 0 0 two ≡ some true) ↔ (live_count two.malloc_map ≡ 0)
is_leak_free-live_count_example = is_leak_free-live_count two two-IsAccounted

-- ===== src/Kmalloc/Blocks.antt =====
-- The blocks of csc369_kmalloc.c one by one: what an allocation and a free do to each.
use csc369_os_a.Base.{
  ℕ, ◌+◌, ◌≤◌, ◌<◌, ◌≡◌, ◌≢◌, refl, true, false, none, some, [], ◌∷◌, arith, ◌==◌, if◌then◌else◌,
  Ptr, null,
}
use csc369_os_a.Kmalloc.{Block, PtrMap, Kmalloc, kmalloc_max, kh_put, kh_get, malloc}
use csc369_os_a.Kmalloc.Accounting.{IsAccounted, IsUnused, live_count, malloc-IsAccounted}

abbrev pub live_block : ℕ → Block
live_block n = record { size = n; freed = false }

-- each address is in the map once
abbrev pub HasUniqueKeys : PtrMap → Type 0
HasUniqueKeys [] = Unit {0}
HasUniqueKeys ((p, b) ∷ m) = (kh_get p m ≡ none) × HasUniqueKeys m

pub kh_get-kh_put :
    (p q : Ptr) (b : Block) (m : PtrMap)
    → kh_get q (kh_put p b m) ≡ (if p == q then some b else kh_get q m)
unfolding kh_get kh_put
kh_get-kh_put p q b [] = ground arith
kh_get-kh_put p q b ((r, c) ∷ m) = ground (arith, kh_get-kh_put p q b m)

pub kh_put-HasUniqueKeys :
    (p : Ptr) (b : Block) (m : PtrMap) → HasUniqueKeys m → HasUniqueKeys (kh_put p b m)
unfolding kh_get kh_put
kh_put-HasUniqueKeys p b [] u = ground arith
kh_put-HasUniqueKeys p b ((r, c) ∷ m) (n, u) =
    ground (arith, kh_put-HasUniqueKeys p b m u, kh_get-kh_put p r b m)

none-IsUnused : (p : Ptr) (m : PtrMap) → kh_get p m ≡ none → IsUnused p m
unfolding kh_get
none-IsUnused p [] h = tt
none-IsUnused p ((r, c) ∷ m) h = ground (arith, none-IsUnused p m)

-- No block is live if each that the map holds is freed.
pub live_count_zero :
    (m : PtrMap)
    → HasUniqueKeys m
    → ((p : Ptr) (b : Block) → kh_get p m ≡ some b → b.freed ≡ true)
    → live_count m ≡ 0
unfolding kh_get
live_count_zero [] u all = refl
live_count_zero ((p, b) ∷ m) (n, u) all =
    ground (arith, all p b, live_count_zero m u (λ q c e. all q c (ground (arith, n))))

-- The allocator behind an allocation that succeeds.
pub record Malloced (m : Ptr) (n : ℕ) (k k' : Kmalloc) : Type 0 where
  pub accounted : IsAccounted k'
  pub keys : HasUniqueKeys k'.malloc_map
  pub blocks :
      (q : Ptr)
      → kh_get q k'.malloc_map ≡ (if m == q then some (live_block n) else kh_get q k.malloc_map)

pub malloc-Malloced :
    (m : Ptr) (n : ℕ) (k : Kmalloc)
    → m ≢ null
    → n < kmalloc_max
    → k.bytes_malloced + n ≤ kmalloc_max
    → IsAccounted k
    → HasUniqueKeys k.malloc_map
    → kh_get m k.malloc_map ≡ none
    → Malloced m n k (malloc m n k).1
unfolding malloc
malloc-Malloced m n k ne small room v u unused = record {
  accounted = malloc-IsAccounted m n k (none-IsUnused m k.malloc_map unused) v;
  keys = ground (arith, kh_put-HasUniqueKeys m (live_block n) k.malloc_map u);
  blocks = λ q. ground (arith, kh_get-kh_put m q (live_block n) k.malloc_map);
}

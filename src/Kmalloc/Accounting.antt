-- ===== src/Kmalloc/Accounting.antt =====
-- The counters of csc369_kmalloc.c against its map of blocks.
use csc369_os_a.Base.{
  ℕ, ◌+◌, ◌-◌, ◌≤◌, ◌<◌, ◌≡◌, refl, ◌≢◌, ◌↔◌, true, false, some, [], ◌∷◌, arith, ◌==◌,
  if◌then◌else◌, Ptr, null,
}
use csc369_os_a.Kmalloc.{
  Block, PtrMap, Kmalloc, kmalloc_max, kh_put, kh_get, malloc, free, current_bytes, is_leak_free,
}

-- The number of blocks that are not freed, and their bytes.
abbrev pub live_count : PtrMap → ℕ
live_count [] = 0
live_count ((p, b) ∷ m) = (if b.freed then 0 else 1) + live_count m

abbrev pub live_bytes : PtrMap → ℕ
live_bytes [] = 0
live_bytes ((p, b) ∷ m) = (if b.freed then 0 else b.size) + live_bytes m

-- The counters agree with the map, and no total has passed the limit.
pub record IsAccounted (k : Kmalloc) : Type 0 where
  pub count : k.num_mallocs ≡ k.num_frees + live_count k.malloc_map
  pub bytes : k.bytes_malloced ≡ k.bytes_freed + live_bytes k.malloc_map
  pub limit : k.bytes_malloced ≤ kmalloc_max

-- The map holds no block at the address, or a freed one: what libc's `malloc` returns.
abbrev pub IsUnused : Ptr → PtrMap → Type 0
IsUnused p [] = Unit {0}
IsUnused p ((q, b) ∷ m) = if q == p then (b.freed ≡ true) else IsUnused p m

live-kh_put :
    (p : Ptr) (n : ℕ) (m : PtrMap)
    → IsUnused p m
    → let m' = kh_put p (record { size = n; freed = false }) m in
      (live_count m' ≡ live_count m + 1) × (live_bytes m' ≡ live_bytes m + n)
unfolding kh_put
live-kh_put p n [] h = omega arith
live-kh_put p n ((q, b) ∷ m) h = ground (arith, live-kh_put p n m)

live-kh_put_freed :
    (p : Ptr) (b : Block) (m : PtrMap)
    → kh_get p m ≡ some b
    → b.freed ≡ false
    → let m' = kh_put p (record b { freed = true }) m in
      (live_count m' + 1 ≡ live_count m) × (live_bytes m' + b.size ≡ live_bytes m)
unfolding kh_put kh_get
live-kh_put_freed p b [] h e = ground arith
live-kh_put_freed p b ((q, c) ∷ m) h e = ground (arith, live-kh_put_freed p b m)

-- `CSC369_malloc` keeps the accounting, whatever it answers, if libc hands out an unused address.
pub malloc-IsAccounted :
    (m : Ptr) (n : ℕ) (k : Kmalloc)
    → IsUnused m k.malloc_map
    → IsAccounted k
    → IsAccounted (malloc m n k).1
unfolding malloc
malloc-IsAccounted m n k u v = ground (arith, live-kh_put m n k.malloc_map u)

live-kh_get :
    (p : Ptr) (b : Block) (m : PtrMap)
    → kh_get p m ≡ some b
    → b.freed ≡ false
    → (1 ≤ live_count m) × (b.size ≤ live_bytes m)
unfolding kh_get
live-kh_get p b [] h e = ground arith
live-kh_get p b ((q, c) ∷ m) h e = ground (arith, live-kh_get p b m)

kh_get-kh_put_self : (p : Ptr) (b : Block) (m : PtrMap) → kh_get p (kh_put p b m) ≡ some b
unfolding kh_get kh_put
kh_get-kh_put_self p b [] = ground arith
kh_get-kh_put_self p b ((q, c) ∷ m) = ground (arith, kh_get-kh_put_self p b m)

-- what CSC369_free makes of the counters and the map
abbrev pub freed_by : Ptr → Block → Kmalloc → Kmalloc
freed_by p b k = record k {
  num_frees = k.num_frees + 1;
  bytes_freed = k.bytes_freed + b.size;
  malloc_map = kh_put p (record b { freed = true }) k.malloc_map;
}

pub free-freed_by :
    (p : Ptr) (b : Block) (k : Kmalloc)
    → p ≢ null
    → kh_get p k.malloc_map ≡ some b
    → b.freed ≡ false
    → 0 < b.size
    → IsAccounted k
    → (free p k ≡ some (freed_by p b k)) × IsAccounted (freed_by p b k)
unfolding free
free-freed_by p b k ne h live pos v =
    let some_live = live-kh_get p b k.malloc_map h live in
    let less = live-kh_put_freed p b k.malloc_map h live in (ground arith, omega arith)

-- `CSC369_free` of a live block that is not empty passes its asserts, counts one free of the
-- block's bytes, keeps the accounting and marks the block.
pub free-live :
    (p : Ptr) (b : Block) (k : Kmalloc)
    → p ≢ null
    → kh_get p k.malloc_map ≡ some b
    → b.freed ≡ false
    → 0 < b.size
    → IsAccounted k
    → (k' : Kmalloc) × (free p k ≡ some k')
      × IsAccounted k'
      × (k'.num_frees ≡ k.num_frees + 1)
      × (k'.bytes_freed ≡ k.bytes_freed + b.size)
      × (kh_get p k'.malloc_map ≡ some (record b { freed = true }))
free-live p b k ne h live pos v =
    let (run, accounted) = free-freed_by p b k ne h live pos v in
    (freed_by p b k, run, accounted, refl, refl, kh_get-kh_put_self p _ k.malloc_map)

live_bytes_of_none : (m : PtrMap) → live_count m ≡ 0 → live_bytes m ≡ 0
live_bytes_of_none [] h = ground arith
live_bytes_of_none ((q, c) ∷ m) h = ground (arith, live_bytes_of_none m)

-- The assert of CSC369_MallocCurrentBytes holds.
pub current_bytes_lem :
    (k : Kmalloc) → IsAccounted k → current_bytes k ≡ some (live_bytes k.malloc_map)
unfolding current_bytes
current_bytes_lem k v =
    let e : k.bytes_malloced - k.bytes_freed ≡ live_bytes k.malloc_map = omega (arith, v.bytes) in
    ground (arith, v.bytes, e)

-- With no tolerance `CSC369_MallocIsLeakFree` passes its asserts, and says true exactly when no
-- block of the map is live.
pub is_leak_free-live_count :
    (k : Kmalloc) → IsAccounted k → (is_leak_free 0 0 k ≡ some true) ↔ (live_count k.malloc_map ≡ 0)
unfolding is_leak_free
is_leak_free-live_count k v = (ground arith, ground (arith, live_bytes_of_none k.malloc_map))

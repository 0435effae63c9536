-- ===== src/Kmalloc.antt =====
-- A2-zengzix2/src/csc369_kmalloc.c: the tracked allocator. The hash table of khash.h is a map from
-- addresses to blocks, as an association list; the FREED bit of a size is a field of its own. What
-- libc's `malloc` returns is an argument. Log messages and `verbose` are left out.
pub mod Accounting
pub mod Blocks
mod Tests
use csc369_os_a.Base.{
  ℕ, ◌+◌, ◌-◌, ◌*◌, ◌^◌, Bool, true, false, not, ◌&&◌, ◌||◌, Option, none, some, List, [], ◌∷◌, ltb,
  leb, ◌==◌, if◌then◌else◌, Ptr, null,
}

-- CSC369_KMALLOC_MAX, 2 GB
abbrev pub kmalloc_max : ℕ
kmalloc_max = 2 * 2 ^ 30

-- LONG_MAX
abbrev pub long_max : ℕ
long_max = 2 ^ 63 - 1

-- A value of `malloc_map`: the size, and the FREED bit.
pub record Block : Type 0 where
  pub size : ℕ
  pub freed : Bool

abbrev pub PtrMap : Type 0
PtrMap = List (Ptr × Block)

-- kh_put and the write through kh_value
unfoldable pub kh_put : Ptr → Block → PtrMap → PtrMap
kh_put p b [] = (p, b) ∷ []
kh_put p b ((q, c) ∷ m) = if q == p then (p, b) ∷ m else (q, c) ∷ kh_put p b m

-- kh_get and kh_value; `none` is kh_end
unfoldable pub kh_get : Ptr → PtrMap → Option Block
kh_get p [] = none
kh_get p ((q, c) ∷ m) = if q == p then some c else kh_get p m

-- The global variables of csc369_kmalloc.c.
pub record Kmalloc : Type 0 where
  pub num_mallocs : ℕ
  pub num_frees : ℕ
  pub bytes_malloced : ℕ
  pub bytes_freed : ℕ
  pub malloc_map : PtrMap

-- CSC369_MallocInit
abbrev pub malloc_init : Kmalloc
malloc_init = record {
  num_mallocs = 0;
  num_frees = 0;
  bytes_malloced = 0;
  bytes_freed = 0;
  malloc_map = [];
}

-- CSC369_malloc, where libc's `malloc` returns `m`.
unfoldable pub malloc : Ptr → ℕ → Kmalloc → Ptr × Kmalloc
malloc m size k =
    if leb kmalloc_max size
    then (null, k)
    else if ltb kmalloc_max (k.bytes_malloced + size)
    then (null, k)
    else if m == null
    then (null, k)
    else (
      m,
      record k {
        num_mallocs = k.num_mallocs + 1;
        bytes_malloced = k.bytes_malloced + size;
        malloc_map = kh_put m (record { size = size; freed = false }) k.malloc_map;
      },
    )

-- The asserts of CSC369_free before it counts a free of `size` bytes.
unfoldable pub free_asserts : ℕ → Kmalloc → Bool
free_asserts size k =
    not (size == 0)
    && (ltb size long_max
        && (ltb k.num_frees k.num_mallocs && leb size (k.bytes_malloced - k.bytes_freed)))

-- The part of CSC369_free for an address that the map holds.
unfoldable pub free_block : Ptr → Block → Kmalloc → Option Kmalloc
unfolding free_asserts
free_block p b k =
    if b.freed
    then none
    else if free_asserts b.size k
    then some (record k {
      num_frees = k.num_frees + 1;
      bytes_freed = k.bytes_freed + b.size;
      malloc_map = kh_put p (record b { freed = true }) k.malloc_map;
    })
    else none

-- CSC369_free. `none` is an abort: a failed assert, or libc's `free` of an address that is not
-- allocated.
unfoldable pub free : Ptr → Kmalloc → Option Kmalloc
unfolding free_block
free p k =
    if p == null
    then some k
    else elim (kh_get p k.malloc_map) [ none ↦ none | some b ↦ free_block p b k ]

-- CSC369_MallocCurrentBytes, with its assert
unfoldable pub current_bytes : Kmalloc → Option ℕ
current_bytes k =
    if leb k.bytes_freed k.bytes_malloced then some (k.bytes_malloced - k.bytes_freed) else none

-- CSC369_MallocCurrentCount, with its assert
unfoldable pub current_count : Kmalloc → Option ℕ
current_count k = if leb k.num_frees k.num_mallocs then some (k.num_mallocs - k.num_frees) else none

-- CSC369_MallocCount
pub malloc_count : Kmalloc → ℕ
malloc_count k = k.num_mallocs

-- CSC369_MallocBytes
pub malloc_bytes : Kmalloc → ℕ
malloc_bytes k = k.bytes_malloced

-- CSC369_MallocIsLeakFree
unfoldable pub is_leak_free : ℕ → ℕ → Kmalloc → Option Bool
unfolding current_bytes current_count
is_leak_free num_mallocs_tol num_bytes_tol k = elim (current_bytes k) [
  | none ↦ none
  | some bytes ↦ elim (current_count k) [
    | none ↦ none
    | some count ↦ some (not (ltb num_bytes_tol bytes || ltb num_mallocs_tol count))
  ]
]

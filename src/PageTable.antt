-- ===== src/PageTable.antt =====
-- A2-zengzix2/src/csc369_page_table.c: page table entries and the three-level page table, over an
-- explicit heap of entries and tables.
pub mod View
pub mod Tree
pub mod Grow
pub mod GrowTable
pub mod Allocate
pub mod Search
pub mod Owned
pub mod Free
pub mod Destroy
pub mod Within
pub mod Cleared
pub mod Destroyed
pub mod Emptied
pub mod Create
pub mod Entry
pub mod Tests
use csc369_os_a.Base.{
  ℕ, zero, suc, ◌+◌, ◌*◌, ◌/◌, ◌%◌, ◌^◌, Bool, false, Option, none, some, ltb, ◌==◌, if◌then◌else◌,
  Ptr, null, M, pure, fault, ◌>>=◌, ◌>>◌, check, modify, update,
}
use csc369_os_a.Kmalloc
use csc369_os_a.Kmalloc.{Kmalloc}

-- An `off_t` into the swap file; `none` is CSC369_INVALID_SWAP, which is -1.
abbrev pub Offset : Type 0
Offset = Option ℕ

-- csc369_pte_t
pub record Pte : Type 0 where
  pub frame_number : ℕ
  pub swap_offset : Offset
  pub valid : Bool
  pub dirty : Bool
  pub reference : Bool
  pub on_swap : Bool
  pub page_table : Ptr

-- CSC369_PageTable, with the array of 4096 pointers that it owns and the array's address
pub record PageTable : Type 0 where
  pub array : Ptr
  pub ptes : ℕ → Ptr

-- The heap of this file: its entries and tables, the allocator, and the address that libc's
-- `malloc` hands out next.
pub record Heap : Type 0 where
  pub pte : Ptr → Option Pte
  pub table : Ptr → Option PageTable
  pub kmalloc : Kmalloc
  pub next : Ptr

abbrev pub H : Type 0 → Type 0
H = M Heap

-- 1 << (CSC369_VADDR_PAGE_NUMBER_BITS / 3)
abbrev pub table_size : ℕ
table_size = 2 ^ (36 / 3)

-- sizeof(csc369_pte_t), sizeof(CSC369_PageTable), sizeof(csc369_pte_t*)
abbrev pub sizeof_pte : ℕ
sizeof_pte = 32

abbrev pub sizeof_page_table : ℕ
sizeof_page_table = 8

abbrev pub sizeof_ptr : ℕ
sizeof_ptr = 8

unfoldable pub malloc : ℕ → H Ptr
malloc size h =
    let (p, k) = Kmalloc.malloc h.next size h.kmalloc in
    some (p, record h { kmalloc = k; next = h.next + 1 })

-- A table whose array is at the freed address cannot be used again.
abbrev pub without_owner : Ptr → Option PageTable → Option PageTable
without_owner p none = none
without_owner p (some tb) = if tb.array == p then none else some tb

-- `CSC369_free`; what is at the address is gone, and with an array the table that has it.
unfoldable pub free : Ptr → H (Unit {0})
free p h = elim (Kmalloc.free p h.kmalloc) [
  | none ↦ none
  | some k ↦ some (
    tt,
    record h {
      pte = update h.pte p none;
      table = λ t. without_owner p (update h.table p none t);
      kmalloc = k;
    },
  )
]

-- The entry at an address; a fault at NULL and at an address that holds none.
unfoldable pub load_pte : Ptr → H Pte
load_pte p h = if p == null then none else elim (h.pte p) [ none ↦ none | some e ↦ some (e, h) ]

unfoldable pub write_pte : Ptr → Pte → H (Unit {0})
write_pte p e h = some (tt, record h { pte = update h.pte p (some e) })

-- The table at an address; a fault at NULL and at an address that holds none.
unfoldable pub load_table : Ptr → H PageTable
load_table t h =
    if t == null then none else elim (h.table t) [ none ↦ none | some tb ↦ some (tb, h) ]

-- `page_table->ptes[i]`, a fault out of range
unfoldable pub load_slot : Ptr → ℕ → H Ptr
unfolding load_table
load_slot t i = do tb ← load_table t; check (ltb i table_size); pure (tb.ptes i)

-- `page_table->ptes[i] = p`, a fault out of range
unfoldable pub store_slot : Ptr → ℕ → Ptr → H (Unit {0})
unfolding load_table
store_slot t i p = do
  tb ← load_table t
  check (ltb i table_size)
  modify λ h. record h { table = update h.table t (some (record tb { ptes = update tb.ptes i p })) }

-- `pte->page_table = t`
unfoldable pub store_page_table : Ptr → Ptr → H (Unit {0})
unfolding load_pte write_pte
store_page_table p t = do e ← load_pte p; write_pte p (record e { page_table = t })

-- What CSC369_PTECreate writes into a new entry.
abbrev pub init_pte : Pte
init_pte = record {
  frame_number = 0;
  swap_offset = none;
  valid = false;
  dirty = false;
  reference = false;
  on_swap = false;
  page_table = null;
}

-- CSC369_PTECreate
unfoldable pub pte_create : H Ptr
unfolding malloc write_pte
pte_create = do
  p ← malloc sizeof_pte
  if p == null then pure null else (do write_pte p init_pte; pure p)

-- CSC369_PTEIsValid and the other accessors; a NULL argument fails their assert.
unfoldable pub pte_is_valid : Ptr → H Bool
unfolding load_pte
pte_is_valid p = do e ← load_pte p; pure e.valid

unfoldable pub pte_set_valid : Ptr → Bool → H (Unit {0})
unfolding load_pte write_pte
pte_set_valid p v = do e ← load_pte p; write_pte p (record e { valid = v })

unfoldable pub pte_is_dirty : Ptr → H Bool
unfolding load_pte
pte_is_dirty p = do e ← load_pte p; pure e.dirty

unfoldable pub pte_set_dirty : Ptr → Bool → H (Unit {0})
unfolding load_pte write_pte
pte_set_dirty p v = do e ← load_pte p; write_pte p (record e { dirty = v })

unfoldable pub pte_is_referenced : Ptr → H Bool
unfolding load_pte
pte_is_referenced p = do e ← load_pte p; pure e.reference

unfoldable pub pte_set_referenced : Ptr → Bool → H (Unit {0})
unfolding load_pte write_pte
pte_set_referenced p v = do e ← load_pte p; write_pte p (record e { reference = v })

unfoldable pub pte_is_on_swap : Ptr → H Bool
unfolding load_pte
pte_is_on_swap p = do e ← load_pte p; pure e.on_swap

unfoldable pub pte_set_on_swap : Ptr → Bool → H (Unit {0})
unfolding load_pte write_pte
pte_set_on_swap p v = do e ← load_pte p; write_pte p (record e { on_swap = v })

unfoldable pub pte_get_frame_number : Ptr → H ℕ
unfolding load_pte
pte_get_frame_number p = do e ← load_pte p; pure e.frame_number

unfoldable pub pte_set_frame_number : Ptr → ℕ → H (Unit {0})
unfolding load_pte write_pte
pte_set_frame_number p n = do e ← load_pte p; write_pte p (record e { frame_number = n })

unfoldable pub pte_get_swap_offset : Ptr → H Offset
unfolding load_pte
pte_get_swap_offset p = do e ← load_pte p; pure e.swap_offset

unfoldable pub pte_set_swap_offset : Ptr → Offset → H (Unit {0})
unfolding load_pte write_pte
pte_set_swap_offset p o = do e ← load_pte p; write_pte p (record e { swap_offset = o })

-- CSC369_PageTableCreate. If the second allocation fails the first is not given back.
unfoldable pub page_table_create : H Ptr
unfolding malloc
page_table_create = do
  t ← malloc sizeof_page_table
  if t == null then pure null else (do
    a ← malloc (sizeof_ptr * table_size)
    if a == null then pure null else (do
      modify
          λ h. record h { table = update h.table t (some (record { array = a; ptes = λ _. null })) }
      pure t))

-- The indices into the tables of levels 1 to 3, as CSC369_PageTableAllocate computes them.
abbrev pub page_number_1 : ℕ → ℕ
page_number_1 va = va / 2 ^ 36

abbrev pub page_number_2 : ℕ → ℕ
page_number_2 va = (va / 2 ^ 24) % 2 ^ 12

abbrev pub page_number_3 : ℕ → ℕ
page_number_3 va = (va / 2 ^ 12) % 2 ^ 12

-- One level of CSC369_PageTableAllocate: the entry in a slot, made if the slot is NULL.
unfoldable pub slot_pte : Ptr → ℕ → H Ptr
unfolding load_slot store_slot pte_create
slot_pte t i = do
  p ← load_slot t i
  if p == null then (do n ← pte_create; store_slot t i n) else pure tt
  load_slot t i

-- One level of CSC369_PageTableAllocate: the table below an entry, made if there is none.
unfoldable pub pte_table : Ptr → H Ptr
unfolding load_pte store_page_table page_table_create
pte_table p = do
  e ← load_pte p
  if e.page_table == null then (do t ← page_table_create; store_page_table p t) else pure tt
  e ← load_pte p
  pure e.page_table

-- CSC369_PageTableAllocate
unfoldable pub page_table_allocate : Ptr → ℕ → H Ptr
page_table_allocate t va = do
  pte_1 ← slot_pte t (page_number_1 va)
  t_2 ← pte_table pte_1
  pte_2 ← slot_pte t_2 (page_number_2 va)
  t_3 ← pte_table pte_2
  slot_pte t_3 (page_number_3 va)

-- ===== src/PageTable/GrowTable.antt =====
-- One level of CSC369_PageTableAllocate: the heap after a new table.
use csc369_os_a.Base.{
  ℕ, ◌+◌, ◌*◌, ◌≤◌, ◌<◌, ◌≡◌, refl, ◌≢◌, true, some, ◌==◌, if◌then◌else◌, Bool-cases, Option-cases,
  inl, inr, arith, Ptr, null, update,
}
use csc369_os_a.Base.Returns.{Returns, returns}
use csc369_os_a.Kmalloc
use csc369_os_a.Kmalloc.{Kmalloc, kh_get, kmalloc_max}
use csc369_os_a.PageTable.{Pte, Heap, table_size, sizeof_page_table, sizeof_ptr, pte_table}
use csc369_os_a.PageTable.View.{below, has_pte, has_table}
use csc369_os_a.Kmalloc.Accounting.{IsAccounted}
use csc369_os_a.Kmalloc.Blocks.{live_block, HasUniqueKeys, malloc-Malloced}
use csc369_os_a.PageTable.Owned.{block, IsStored, IsOwned, unused}
use csc369_os_a.PageTable.Owned.NewTable.{NewTable, NewTable-IsStored, NewTable-IsRooted}
use csc369_os_a.PageTable.Tree.{IsTree, Grown, Grown-refl, no_pte}
use csc369_os_a.PageTable.Grow.{malloc-ok}

-- the bytes of a new table
abbrev pub sizeof_table : ℕ
sizeof_table = sizeof_page_table + sizeof_ptr * table_size

-- the heap with a new table below the entry `e` at `p`
abbrev with_table : Heap → Ptr → Pte → Heap
with_table h p e = record h {
  kmalloc =
      (Kmalloc.malloc (h.next + 1) (sizeof_ptr * table_size)
        (Kmalloc.malloc h.next sizeof_page_table h.kmalloc).1).1;
  next = h.next + 1 + 1;
  pte = update h.pte p (some (record e { page_table = h.next }));
  table = update h.table h.next (some (record { array = h.next + 1; ptes = λ _. null }));
}

-- the allocator after the two allocations of a table
abbrev pub table_kmalloc : Heap → Kmalloc
table_kmalloc h =
    (Kmalloc.malloc (h.next + 1) (sizeof_ptr * table_size)
      (Kmalloc.malloc h.next sizeof_page_table h.kmalloc).1).1

pub table_stored :
    {mm : Ptr} (h : Heap)
    → IsTree h
    → h.kmalloc.bytes_malloced + sizeof_table ≤ kmalloc_max
    → IsStored mm h
    → IsAccounted (table_kmalloc h)
      × HasUniqueKeys (table_kmalloc h).malloc_map
      × ((q : Ptr)
          → kh_get q (table_kmalloc h).malloc_map ≡ (
              if h.next == q
              then some (live_block sizeof_page_table)
              else if h.next + 1 == q
              then some (live_block (sizeof_ptr * table_size))
              else block h q))
table_stored h v room s =
    let (_, bytes) =
      malloc-ok h.next sizeof_page_table h.kmalloc (omega (arith, v.next_pos)) (omega arith)
        (omega arith) in
    let a =
      malloc-Malloced h.next sizeof_page_table h.kmalloc (omega (arith, v.next_pos)) (omega arith)
        (omega arith) s.accounted s.keys (unused s h.next (omega arith)) in
    let b =
      malloc-Malloced (h.next + 1) (sizeof_ptr * table_size)
        (Kmalloc.malloc h.next sizeof_page_table h.kmalloc).1 (omega arith) (omega arith)
        (omega arith) a.accounted a.keys
        (ground (arith, a.blocks (h.next + 1), unused s (h.next + 1) (omega arith))) in
    (
      b.accounted,
      b.keys,
      λ q. ground (arith, a.blocks q, b.blocks q, unused s (h.next + 1) (omega arith)),
    )

pub record Below (h : Heap) (p : Ptr) (t : Ptr) (h' : Heap) : Type 0 where
  pub grown : Grown h h'
  pub tree : IsTree h'
  pub entry : t ≢ null
  pub held : below h' p ≡ t
  pub live : has_table h' t ≡ true
  pub bytes : h'.kmalloc.bytes_malloced ≤ h.kmalloc.bytes_malloced + sizeof_table
  pub owned : (mm root : Ptr) → IsOwned mm root h → IsOwned mm root h'

module _ (h : Heap) (p : Ptr) (e : Pte) (v : IsTree h) (at : h.pte p ≡ some e) where
  pte_table-hit : e.page_table ≢ null → pte_table p h ≡ some (e.page_table, h)
  unfolding pte_table
  pte_table-hit ne = ground (arith, no_pte v)

  module _ (room : h.kmalloc.bytes_malloced + sizeof_table ≤ kmalloc_max) where
    first_ok :
        ((Kmalloc.malloc h.next sizeof_page_table h.kmalloc).0 ≡ h.next)
        × ((Kmalloc.malloc h.next sizeof_page_table h.kmalloc).1.bytes_malloced
            ≡ h.kmalloc.bytes_malloced + sizeof_page_table)
    first_ok = malloc-ok h.next _ h.kmalloc (omega (arith, v.next_pos)) (omega arith) (omega arith)

    second_ok :
        let k = (Kmalloc.malloc h.next sizeof_page_table h.kmalloc).1 in
        let r = Kmalloc.malloc (h.next + 1) (sizeof_ptr * table_size) k in
        (r.0 ≡ h.next + 1) × (r.1.bytes_malloced ≡ k.bytes_malloced + sizeof_ptr * table_size)
    second_ok = malloc-ok (h.next + 1) _ _ (omega arith) (omega arith) (omega (arith, first_ok))

    pte_table-miss : e.page_table ≡ null → pte_table p h ≡ some (h.next, with_table h p e)
    unfolding pte_table
    pte_table-miss z = ground (arith, no_pte v, v.next_pos, first_ok, second_ok)

    with_table-Grown : e.page_table ≡ null → Grown h (with_table h p e)
    with_table-Grown z = record {
      slots = λ u j. ground (arith, v.table_lt h.next);
      belows = λ q. ground (arith, v.table_lt h.next);
      ptes = λ q. ground arith;
      tables = λ u. ground arith;
      statuses = λ q. ground arith;
    }

    below-with_table :
        (q : Ptr) → below (with_table h p e) q ≡ (if p == q then h.next else below h q)
    below-with_table q = ground arith

    below_lt : (q : Ptr) → below h q ≢ null → below h q < h.next
    below_lt q ne = (v.table_lt _ (v.below_table q ne)).1

    with_table-IsTree : e.page_table ≡ null → IsTree (with_table h p e)
    with_table-IsTree z = record {
      next_pos = omega arith;
      pte_lt = λ q. ground (arith, v.pte_lt q, v.pte_lt p);
      table_lt = λ u. ground (arith, v.table_lt u, v.next_pos);
      slot_pte = λ u j. ground (arith, v.slot_pte u j);
      below_table = λ q. ground (arith, v.below_table q);
      slot_unique = λ u w j k. ground (arith, v.slot_unique u w j k);
      below_unique = λ q r.
          rw (below-with_table q, below-with_table r)
            (ground (arith, v.below_unique q r, below_lt q, below_lt r));
    }

    with_table-NewTable :
        {mm : Ptr} → IsStored mm h → e.page_table ≡ null → NewTable h (with_table h p e)
    with_table-NewTable s z =
        let (k, keys, blocks) = table_stored h v room s in
        record {
          next = refl;
          accounted = k;
          keys = keys;
          blocks = blocks;
          ptes = λ q. ground arith;
          tables = λ u. ground arith;
          arrays = λ u. ground arith;
          slots = λ u j. ground (arith, v.table_lt h.next);
        }

    with_table-IsOwned :
        e.page_table ≡ null
        → (mm root : Ptr) → IsOwned mm root h
        → IsOwned mm root (with_table h p e)
    with_table-IsOwned z mm root (s, r) =
        let c = with_table-NewTable s z in
        (
          NewTable-IsStored v c s,
          NewTable-IsRooted p v c below-with_table (ground arith) (ground arith) r,
        )

-- One level of the allocation returns the table below its entry, in a heap that grew at most by it.
pub pte_table-Below :
    {h : Heap} (p : Ptr)
    → IsTree h
    → has_pte h p ≡ true
    → h.kmalloc.bytes_malloced + sizeof_table ≤ kmalloc_max
    → Returns (Below h p) (pte_table p h)
pte_table-Below {h} p v has room = elim (Option-cases (h.pte p)) [
  | inl e ↦ ground arith
  | inr (e, at) ↦ elim (Bool-cases (e.page_table == null)) [
    | inl z ↦
        let z' : e.page_table ≡ null = ground arith in
        rw (pte_table-miss h p e v at room z') (
          returns (record {
            grown = with_table-Grown h p e v at room z';
            tree = with_table-IsTree h p e v at room z';
            entry = ground (arith, v.next_pos);
            held = ground arith;
            live = ground arith;
            bytes = omega (arith, first_ok h p e v at room, second_ok h p e v at room);
            owned = with_table-IsOwned h p e v at room z';
          }))
    | inr nz ↦
        let ne : e.page_table ≢ null = ground arith in
        rw (pte_table-hit h p e v at ne) (
          returns (record {
            grown = Grown-refl h;
            tree = v;
            entry = ne;
            held = ground arith;
            live = ground (arith, v.below_table p);
            bytes = omega arith;
            owned = λ mm root o. o;
          }))
  ]
]

pub pte_table_of_below :
    {h : Heap} (p : Ptr) → IsTree h → below h p ≢ null → pte_table p h ≡ some (below h p, h)
pte_table_of_below {h} p v ne = elim (Option-cases (h.pte p)) [
  | inl e ↦ ground arith
  | inr (e, at) ↦ ground (arith, pte_table-hit h p e v at)
]

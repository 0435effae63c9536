-- ===== src/PageTable/Create.antt =====
-- CSC369_PageTableCreate.
use csc369_os_a.Base.{ℕ, ◌+◌, ◌*◌, ◌≤◌, ◌≡◌, ◌≢◌, refl, true, false, some, arith, Ptr, null, update}
use csc369_os_a.Base.Returns.{Returns, returns}
use csc369_os_a.Kmalloc
use csc369_os_a.Kmalloc.{Kmalloc, kmalloc_max}
use csc369_os_a.PageTable.{Heap, table_size, sizeof_page_table, sizeof_ptr, page_table_create}
use csc369_os_a.PageTable.View.{slot, has_pte, has_table, walk}
use csc369_os_a.PageTable.Tree.{IsTree, Grown, no_pte, no_table}
use csc369_os_a.PageTable.Grow.{malloc-ok}
use csc369_os_a.PageTable.GrowTable.{sizeof_table, table_stored}
use csc369_os_a.PageTable.Owned.{IsStored, IsOwned}
use csc369_os_a.PageTable.Owned.NewTable.{NewTable, NewTable-IsStored, first-IsRooted}

-- A new table `t` with no entry, beside what the heap held.
pub record Created (h : Heap) (t : Ptr) (h' : Heap) : Type 0 where
  pub grown : Grown h h'
  pub tree : IsTree h'
  pub live : has_table h' t ≡ true
  pub entry : t ≢ null
  pub fresh : has_table h t ≢ true
  pub empty : (va : ℕ) → walk h' t va ≡ null
  pub bytes : h'.kmalloc.bytes_malloced ≡ h.kmalloc.bytes_malloced + sizeof_table
  -- if the table is the first object, the page table owns what it has allocated
  pub owned :
      (mm : Ptr)
      → IsStored mm h
      → ((q : Ptr) → has_pte h q ≡ false)
      → ((u : Ptr) → has_table h u ≡ false)
      → IsOwned mm t h'

abbrev with_root : Heap → Heap
with_root h = record h {
  kmalloc =
      (Kmalloc.malloc (h.next + 1) (sizeof_ptr * table_size)
        (Kmalloc.malloc h.next sizeof_page_table h.kmalloc).1).1;
  next = h.next + 1 + 1;
  table = update h.table h.next (some (record { array = h.next + 1; ptes = λ _. null }));
}

module _ (h : Heap) (v : IsTree h)
    (room : h.kmalloc.bytes_malloced + sizeof_table ≤ kmalloc_max) where
  first_ok :
      ((Kmalloc.malloc h.next sizeof_page_table h.kmalloc).0 ≡ h.next)
      × ((Kmalloc.malloc h.next sizeof_page_table h.kmalloc).1.bytes_malloced
          ≡ h.kmalloc.bytes_malloced + sizeof_page_table)
  first_ok = malloc-ok h.next _ h.kmalloc (omega (arith, v.next_pos)) (omega arith) (omega arith)

  second_ok :
      let k = (Kmalloc.malloc h.next sizeof_page_table h.kmalloc).1 in
      let r = Kmalloc.malloc (h.next + 1) (sizeof_ptr * table_size) k in
      (r.0 ≡ h.next + 1) × (r.1.bytes_malloced ≡ k.bytes_malloced + sizeof_ptr * table_size)
  second_ok = malloc-ok (h.next + 1) _ _ (omega arith) (omega arith) (omega (arith, first_ok))

  create_run : page_table_create h ≡ some (h.next, with_root h)
  unfolding page_table_create
  create_run = ground (arith, v.next_pos, first_ok, second_ok)

  root-Grown : Grown h (with_root h)
  root-Grown = record {
    slots = λ u j. ground (arith, v.table_lt h.next);
    belows = λ q. ground arith;
    ptes = λ q. ground arith;
    tables = λ u. ground arith;
    statuses = λ q. ground arith;
  }

  root-IsTree : IsTree (with_root h)
  root-IsTree = record {
    next_pos = omega arith;
    pte_lt = λ q. ground (arith, v.pte_lt q);
    table_lt = λ u. ground (arith, v.table_lt u, v.next_pos);
    slot_pte = λ u j. ground (arith, v.slot_pte u j);
    below_table = λ q. ground (arith, v.below_table q);
    slot_unique = λ u w j k. ground (arith, v.slot_unique u w j k);
    below_unique = λ q r. ground (arith, v.below_unique q r);
  }

  root_slot : (i : ℕ) → slot (with_root h) h.next i ≡ null
  root_slot i = ground arith

  root_walk : (va : ℕ) → walk (with_root h) h.next va ≡ null
  unfolding walk
  root_walk va = ground (arith, no_pte v, no_table v, v.next_pos)

  root-IsOwned :
      (mm : Ptr)
      → IsStored mm h
      → ((q : Ptr) → has_pte h q ≡ false)
      → ((u : Ptr) → has_table h u ≡ false)
      → IsOwned mm h.next (with_root h)
  root-IsOwned mm s n m =
      let (k, keys, blocks) = table_stored h v room s in
      let c : NewTable h (with_root h) = record {
        next = refl;
        accounted = k;
        keys = keys;
        blocks = blocks;
        ptes = λ q. refl;
        tables = λ u. ground arith;
        arrays = λ u. ground arith;
        slots = λ u j. ground (arith, v.table_lt h.next);
      } in
      (NewTable-IsStored v c s, first-IsRooted v c (λ q. refl) n m)

-- In a heap with room, CSC369_PageTableCreate returns a new table in which no address has an entry;
-- the tables and entries that the heap holds stay as they are.
pub page_table_create-Created :
    {h : Heap}
    → IsTree h
    → h.kmalloc.bytes_malloced + sizeof_table ≤ kmalloc_max
    → Returns (Created h) (page_table_create h)
page_table_create-Created {h} v room = rw (create_run h v room) (
    returns (record {
      grown = root-Grown h v room;
      tree = root-IsTree h v room;
      live = ground arith;
      entry = omega (arith, v.next_pos);
      fresh = ground (arith, v.table_lt h.next);
      empty = root_walk h v room;
      bytes = omega (arith, first_ok h v room, second_ok h v room);
      owned = root-IsOwned h v room;
    }))

-- ===== src/PageTable/Grow.antt =====
-- One level of CSC369_PageTableAllocate: the heap after a new entry, and after a new table.
use csc369_os_a.Base.{
  ℕ, ◌+◌, ◌≤◌, ◌<◌, ◌≡◌, refl, ◌≢◌, true, ◌&&◌, some, ◌==◌, if◌then◌else◌, Bool-cases, inl, inr,
  arith, Ptr, null, update, Option-cases,
}
use csc369_os_a.Base.Returns.{Returns, returns}
use csc369_os_a.Kmalloc
use csc369_os_a.Kmalloc.{Kmalloc, kmalloc_max}
use csc369_os_a.PageTable.{PageTable, Heap, table_size, sizeof_pte, init_pte, slot_pte}
use csc369_os_a.PageTable.View.{slot, has_pte, has_table}
use csc369_os_a.Kmalloc.Blocks.{malloc-Malloced}
use csc369_os_a.PageTable.Owned.{IsStored, IsOwned, unused}
use csc369_os_a.PageTable.Owned.NewPte.{NewPte, NewPte-IsStored, NewPte-IsRooted}
use csc369_os_a.PageTable.Tree.{IsTree, Grown, Grown-refl, no_table}

pub malloc-ok :
    (m n : ℕ) (k : Kmalloc)
    → m ≢ null
    → n < kmalloc_max
    → k.bytes_malloced + n ≤ kmalloc_max
    → ((Kmalloc.malloc m n k).0 ≡ m)
      × ((Kmalloc.malloc m n k).1.bytes_malloced ≡ k.bytes_malloced + n)
unfolding Kmalloc.malloc
malloc-ok m n k ne small room = ground arith

-- the heap with a new entry in slot `i` of the table `tb` at `t`
abbrev with_pte : Heap → Ptr → PageTable → ℕ → Heap
with_pte h t tb i = record h {
  kmalloc = (Kmalloc.malloc h.next sizeof_pte h.kmalloc).1;
  next = h.next + 1;
  pte = update h.pte h.next (some init_pte);
  table = update h.table t (some (record tb { ptes = update tb.ptes i h.next }));
}

pub record Slot (h : Heap) (t : Ptr) (i : ℕ) (p : Ptr) (h' : Heap) : Type 0 where
  pub grown : Grown h h'
  pub tree : IsTree h'
  pub entry : p ≢ null
  pub held : slot h' t i ≡ p
  pub live : has_pte h' p ≡ true
  pub bytes : h'.kmalloc.bytes_malloced ≤ h.kmalloc.bytes_malloced + sizeof_pte
  pub owned : (mm root : Ptr) → IsOwned mm root h → IsOwned mm root h'

module _ (h : Heap) (t : Ptr) (tb : PageTable) (i : ℕ) (v : IsTree h) (e : h.table t ≡ some tb)
    (lt : i < table_size) where
  slot_pte-hit : tb.ptes i ≢ null → slot_pte t i h ≡ some (tb.ptes i, h)
  unfolding slot_pte
  slot_pte-hit ne = ground (arith, no_table v)

  module _ (room : h.kmalloc.bytes_malloced + sizeof_pte ≤ kmalloc_max) where
    slot_pte-miss : tb.ptes i ≡ null → slot_pte t i h ≡ some (h.next, with_pte h t tb i)
    unfolding slot_pte
    slot_pte-miss z = ground (arith, no_table v, v.next_pos, malloc-ok h.next sizeof_pte h.kmalloc)

    with_pte-Grown : tb.ptes i ≡ null → Grown h (with_pte h t tb i)
    with_pte-Grown z = record {
      slots = λ u j. ground (arith, v.pte_lt h.next);
      belows = λ p. ground (arith, v.pte_lt h.next);
      ptes = λ p. ground arith;
      tables = λ u. ground arith;
      statuses = λ p. ground (arith, v.pte_lt h.next);
    }

    slot-with_pte :
        (u j : ℕ)
        → slot (with_pte h t tb i) u j ≡ (if (t == u) && (i == j) then h.next else slot h u j)
    slot-with_pte u j = ground arith

    slot_lt : (u j : ℕ) → slot h u j ≢ null → slot h u j < h.next
    slot_lt u j ne = (v.pte_lt _ (v.slot_pte u j ne)).1

    with_pte-IsTree : tb.ptes i ≡ null → IsTree (with_pte h t tb i)
    with_pte-IsTree z = record {
      next_pos = omega arith;
      pte_lt = λ p. ground (arith, v.pte_lt p, v.next_pos);
      table_lt = λ u. ground (arith, v.table_lt u, v.table_lt t);
      slot_pte = λ u j. ground (arith, v.slot_pte u j, v.slot_pte t j);
      below_table = λ p. ground (arith, v.below_table p, v.pte_lt h.next);
      slot_unique = λ u w j k.
          rw (slot-with_pte u j, slot-with_pte w k)
            (ground (arith, v.slot_unique u w j k, slot_lt u j, slot_lt w k));
      below_unique = λ p q. ground (arith, v.below_unique p q);
    }

    with_pte-NewPte : {mm : Ptr} → IsStored mm h → NewPte t i h (with_pte h t tb i)
    with_pte-NewPte s = record {
      next = refl;
      malloced =
          malloc-Malloced h.next sizeof_pte h.kmalloc (omega (arith, v.next_pos)) (omega arith) room
            s.accounted s.keys (unused s h.next (omega arith));
      ptes = λ q. ground arith;
      tables = λ u. ground arith;
      arrays = λ u. ground arith;
      slots = slot-with_pte;
      belows = λ q. ground (arith, v.pte_lt h.next);
    }

    with_pte-IsOwned :
        tb.ptes i ≡ null → (mm root : Ptr) → IsOwned mm root h → IsOwned mm root (with_pte h t tb i)
    with_pte-IsOwned z mm root (s, r) =
        let c = with_pte-NewPte s in
        (
          NewPte-IsStored v c (ground arith) lt (ground arith) s,
          NewPte-IsRooted v c (ground arith) lt (ground arith) r,
        )

-- One level of the allocation returns the entry of its slot, in a heap that grew at most by it.
pub slot_pte-Slot :
    {h : Heap} (t : Ptr) (i : ℕ)
    → IsTree h
    → has_table h t ≡ true
    → i < table_size
    → h.kmalloc.bytes_malloced + sizeof_pte ≤ kmalloc_max
    → Returns (Slot h t i) (slot_pte t i h)
slot_pte-Slot {h} t i v has lt room = elim (Option-cases (h.table t)) [
  | inl e ↦ ground arith
  | inr (tb, e) ↦ elim (Bool-cases (tb.ptes i == null)) [
    | inl z ↦
        let z' : tb.ptes i ≡ null = ground arith in
        rw (slot_pte-miss h t tb i v e lt room z') (
          returns (record {
            grown = with_pte-Grown h t tb i v e lt room z';
            tree = with_pte-IsTree h t tb i v e lt room z';
            entry = ground (arith, v.next_pos);
            held = ground arith;
            live = ground arith;
            bytes = ground (arith, v.next_pos, malloc-ok h.next sizeof_pte h.kmalloc);
            owned = with_pte-IsOwned h t tb i v e lt room z';
          }))
    | inr nz ↦
        let ne : tb.ptes i ≢ null = ground arith in
        rw (slot_pte-hit h t tb i v e lt ne) (
          returns (record {
            grown = Grown-refl h;
            tree = v;
            entry = ne;
            held = ground arith;
            live = ground (arith, v.slot_pte t i);
            bytes = omega arith;
            owned = λ mm root o. o;
          }))
  ]
]

pub slot_pte_of_slot :
    {h : Heap} (t : Ptr) (i : ℕ)
    → IsTree h
    → i < table_size
    → slot h t i ≢ null
    → slot_pte t i h ≡ some (slot h t i, h)
slot_pte_of_slot {h} t i v lt ne = elim (Option-cases (h.table t)) [
  | inl e ↦ ground arith
  | inr (tb, e) ↦ ground (arith, slot_pte-hit h t tb i v e lt)
]

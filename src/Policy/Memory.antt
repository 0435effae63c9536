-- ===== src/Policy/Memory.antt =====
-- What may change with no effect on the pages: the reference and dirty bits of entries, the
-- statistics, and a policy's own state.
use csc369_os_a.Base.{ℕ, ◌≡◌, ◌∙◌, refl, sym, ap, subst, some, Ptr, arith}
use csc369_os_a.PageTable.{Pte, Heap}
use csc369_os_a.PageTable.View.{slot, below, has_pte, has_table, status, walk}
use csc369_os_a.PageTable.Tree.{IsTree}
use csc369_os_a.PageTable.Owned.{IsOwned-same}
use csc369_os_a.PageTable.Entry.{
  with_entry, status-with_entry, has_pte-with_entry, below-with_entry,
}
use csc369_os_a.Links.{Links}
use csc369_os_a.Machine.{Machine}
use csc369_os_a.Coremap.Consistent.{Consistent, Owns, page_byte}

-- The two heaps hold the same tables, and entries that differ at most in their reference and
-- dirty bits.
pub record SameTables (h h' : Heap) : Type 0 where
  pub table : h'.table ≡ h.table
  pub next : h'.next ≡ h.next
  pub kmalloc : h'.kmalloc ≡ h.kmalloc
  pub ptes : (q : Ptr) → has_pte h' q ≡ has_pte h q
  pub belows : (q : Ptr) → below h' q ≡ below h q
  pub valid : (q : Ptr) → (status h' q).valid ≡ (status h q).valid
  pub on_swap : (q : Ptr) → (status h' q).on_swap ≡ (status h q).on_swap
  pub frame_number : (q : Ptr) → (status h' q).frame_number ≡ (status h q).frame_number
  pub swap_offset : (q : Ptr) → (status h' q).swap_offset ≡ (status h q).swap_offset

pub SameTables-refl : (h : Heap) → SameTables h h
SameTables-refl h = record {
  table = refl;
  next = refl;
  kmalloc = refl;
  ptes = λ q. refl;
  belows = λ q. refl;
  valid = λ q. refl;
  on_swap = λ q. refl;
  frame_number = λ q. refl;
  swap_offset = λ q. refl;
}

pub SameTables-trans : {g h k : Heap} → SameTables g h → SameTables h k → SameTables g k
SameTables-trans a b = record {
  table = b.table ∙ a.table;
  next = b.next ∙ a.next;
  kmalloc = b.kmalloc ∙ a.kmalloc;
  ptes = λ q. b.ptes q ∙ a.ptes q;
  belows = λ q. b.belows q ∙ a.belows q;
  valid = λ q. b.valid q ∙ a.valid q;
  on_swap = λ q. b.on_swap q ∙ a.on_swap q;
  frame_number = λ q. b.frame_number q ∙ a.frame_number q;
  swap_offset = λ q. b.swap_offset q ∙ a.swap_offset q;
}

-- The entries agree but for their reference and dirty bits.
pub record SameStatus (e e' : Pte) : Type 0 where
  pub valid : e'.valid ≡ e.valid
  pub on_swap : e'.on_swap ≡ e.on_swap
  pub frame_number : e'.frame_number ≡ e.frame_number
  pub swap_offset : e'.swap_offset ≡ e.swap_offset
  pub page_table : e'.page_table ≡ e.page_table

pub with_entry-same :
    (h : Heap) (p : Ptr) (e e' : Pte)
    → h.pte p ≡ some e
    → SameStatus e e'
    → SameTables h (with_entry h p e')
unfolding with_entry
with_entry-same h p e e' at s =
    let below_e : e'.page_table ≡ below h p = ground (arith, s.page_table) in
    let st = status-with_entry h p e' (ground arith) below_e in
    record {
      table = refl;
      next = refl;
      kmalloc = refl;
      ptes = has_pte-with_entry h p e' (ground arith) below_e;
      belows = below-with_entry h p e' (ground arith) below_e;
      valid = λ q. ground (arith, st q, s.valid);
      on_swap = λ q. ground (arith, st q, s.on_swap);
      frame_number = λ q. ground (arith, st q, s.frame_number);
      swap_offset = λ q. ground (arith, st q, s.swap_offset);
    }

-- All that the memory manager relies on is the same.
pub record SameMemory (m m' : Machine) : Type 0 where
  pub heap : SameTables m.heap m'.heap
  pub mm : m'.mm ≡ m.mm
  pub page_table : m'.page_table ≡ m.page_table
  pub swap : m'.swap ≡ m.swap
  pub frames : m'.frames ≡ m.frames
  pub frame_count : m'.frame_count ≡ m.frame_count
  pub memsize : m'.memsize ≡ m.memsize
  pub policy : m'.policy ≡ m.policy

pub SameMemory-refl : (m : Machine) → SameMemory m m
SameMemory-refl m = record {
  heap = SameTables-refl m.heap;
  mm = refl;
  page_table = refl;
  swap = refl;
  frames = refl;
  frame_count = refl;
  memsize = refl;
  policy = refl;
}

-- A machine with another heap of the same tables, and with other links.
pub SameMemory_but :
    {m m' : Machine} {h : Heap} {l : Links}
    → m' ≡ record m { heap = h; links = l }
    → SameTables m.heap h
    → SameMemory m m'
SameMemory_but {m} {m'} e s = record {
  heap = subst (λ g. SameTables m.heap g) (sym (ap (λ (x : Machine). x.heap) e)) s;
  mm = ap (λ (x : Machine). x.mm) e;
  page_table = ap (λ (x : Machine). x.page_table) e;
  swap = ap (λ (x : Machine). x.swap) e;
  frames = ap (λ (x : Machine). x.frames) e;
  frame_count = ap (λ (x : Machine). x.frame_count) e;
  memsize = ap (λ (x : Machine). x.memsize) e;
  policy = ap (λ (x : Machine). x.policy) e;
}

module _ {h h' : Heap} (s : SameTables h h') where
  pub slot-same : (t : Ptr) (i : ℕ) → slot h' t i ≡ slot h t i
  slot-same t i = ground (arith, s.table)

  pub has_table-same : (t : Ptr) → has_table h' t ≡ has_table h t
  has_table-same t = ground (arith, s.table)

  pub walk-same : (t : Ptr) (va : ℕ) → walk h' t va ≡ walk h t va
  unfolding walk
  walk-same t va = simp (slot-same, s.belows)

  pub IsTree-same : IsTree h → IsTree h'
  IsTree-same v = record {
    next_pos = omega (arith, v.next_pos, s.next);
    pte_lt = λ q e. let (a, b) = v.pte_lt q (sym (s.ptes q) ∙ e) in (a, omega (arith, s.next));
    table_lt =
        λ t e. let (a, b) = v.table_lt t (sym (has_table-same t) ∙ e) in (a, omega (arith, s.next));
    slot_pte = λ t i. rw (slot-same t i) (λ ne. s.ptes _ ∙ v.slot_pte t i ne);
    below_table = λ q. rw (s.belows q) (λ ne. has_table-same _ ∙ v.below_table q ne);
    slot_unique = λ t u i j. rw (slot-same t i, slot-same u j) (v.slot_unique t u i j);
    below_unique = λ p q. rw (s.belows p, s.belows q) (v.below_unique p q);
  }

module _ {m m' : Machine} (s : SameMemory m m') where
  pub Consistent-same : {x : ℕ} → Consistent x m → Consistent x m'
  Consistent-same {x} c = record {
    tree = IsTree-same s.heap c.tree;
    root = ground (arith, has_table-same s.heap m.page_table, c.root, s.page_table);
    swap = rw s.swap c.swap;
    memsize = s.memsize ∙ c.memsize ∙ sym s.frame_count;
    physmem = ground (arith, c.physmem, s.swap, s.frame_count);
    valid = λ q. rw (s.heap.valid q, s.heap.frame_number q, s.frames, s.frame_count) (c.valid q);
    held = λ i. rw (s.frames, s.frame_count, s.heap.valid, s.heap.frame_number) (c.held i);
    slots = λ q o. rw (s.heap.swap_offset q, s.swap) (c.slots q o);
    slots_unique = λ p q o. rw (s.heap.swap_offset p, s.heap.swap_offset q) (c.slots_unique p q o);
    swapped = λ q. rw (s.heap.on_swap q, s.heap.swap_offset q, s.swap) (c.swapped q);
  }

  pub Owns-same : Owns m → Owns m'
  Owns-same o =
      rw (s.mm, s.page_table)
        (IsOwned-same m.heap m'.heap s.heap.table s.heap.next s.heap.kmalloc s.heap.ptes
          s.heap.belows o)

  pub page_byte-same : (q : Ptr) (j : ℕ) → page_byte m' q j ≡ page_byte m q j
  page_byte-same q j =
      rw (s.heap.valid q, s.heap.on_swap q, s.heap.frame_number q, s.heap.swap_offset q, s.swap)

  pub walk_page-same : (va : ℕ) → walk m'.heap m'.page_table va ≡ walk m.heap m.page_table va
  walk_page-same va = rw s.page_table (walk-same s.heap m.page_table va)

pub SameMemory-trans : {a b c : Machine} → SameMemory a b → SameMemory b c → SameMemory a c
SameMemory-trans s t = record {
  heap = SameTables-trans s.heap t.heap;
  mm = t.mm ∙ s.mm;
  page_table = t.page_table ∙ s.page_table;
  swap = t.swap ∙ s.swap;
  frames = t.frames ∙ s.frames;
  frame_count = t.frame_count ∙ s.frame_count;
  memsize = t.memsize ∙ s.memsize;
  policy = t.policy ∙ s.policy;
}

-- ===== src/PageTable/Owned/NewPte.antt =====
-- A new page table entry of csc369_page_table.c keeps the ownership of blocks.
use csc369_os_a.Base.{
  ℕ, ◌+◌, ◌*◌, ◌<◌, ◌≡◌, ◌⊎◌, inl, inr, true, false, ◌&&◌, some, arith, ◌==◌, if◌then◌else◌, Ptr,
  null, Bool-cases,
}
use csc369_os_a.Kmalloc.{Block}
use csc369_os_a.Kmalloc.Blocks.{live_block, Malloced}
use csc369_os_a.PageTable.{Heap, table_size, sizeof_pte, sizeof_ptr}
use csc369_os_a.PageTable.View.{slot, below, has_pte, has_table}
use csc369_os_a.PageTable.Tree.{IsTree, no_pte}
use csc369_os_a.PageTable.Owned.{
  block, array, Owner, manager, entry, table, array_at, IsStored, IsRooted,
}

-- `h'` is `h` with a new entry in slot `i` of `t`
pub record NewPte (t : Ptr) (i : ℕ) (h h' : Heap) : Type 0 where
  pub next : h'.next ≡ h.next + 1
  pub malloced : Malloced h.next sizeof_pte h.kmalloc h'.kmalloc
  pub ptes : (q : Ptr) → has_pte h' q ≡ (if h.next == q then true else has_pte h q)
  pub tables : (u : Ptr) → has_table h' u ≡ has_table h u
  pub arrays : (u : Ptr) → array h' u ≡ array h u
  pub slots :
      (u : Ptr) (j : ℕ) → slot h' u j ≡ (if (t == u) && (i == j) then h.next else slot h u j)
  pub belows : (q : Ptr) → below h' q ≡ below h q

module _ {t : Ptr} {i : ℕ} {h h' : Heap} (v : IsTree h) (c : NewPte t i h h')
    (has : has_table h t ≡ true) (lt : i < table_size) (free : slot h t i ≡ null) where
  NewPte-owner :
      {mm : Ptr} (s : IsStored mm h) (p : Ptr) (b : Block)
      → block h' p ≡ some b
      → b.freed ≡ false
      → Owner mm h' p
  NewPte-owner s p b e l = elim (Bool-cases (h.next == p)) [
    | inl new ↦ entry (ground (arith, c.ptes p))
    | inr old ↦ elim (s.owner p b (ground (arith, c.malloced.blocks p)) l) [
      | manager x ↦ manager x
      | entry x ↦ entry (ground (arith, c.ptes p))
      | table x ↦ table (ground (arith, c.tables p))
      | array_at u x y ↦ array_at u (ground (arith, c.tables u)) (ground (arith, c.arrays u))
    ]
  ]

  pub NewPte-IsStored : {mm : Ptr} → IsStored mm h → IsStored mm h'
  NewPte-IsStored {mm} s =
      let (n, pos, at) = s.mm_block in
      let (p0, pn) = s.known mm (live_block n) at in
      record {
        accounted = c.malloced.accounted;
        keys = c.malloced.keys;
        known = λ p b e. ground (arith, c.malloced.blocks p, s.known p b, c.next, v.next_pos);
        mm_block = (n, pos, ground (arith, c.malloced.blocks mm));
        mm_pte = ground (arith, c.ptes mm, s.mm_pte);
        mm_table = ground (arith, c.tables mm, s.mm_table);
        mm_array = λ u x. ground (arith, c.tables u, c.arrays u, s.mm_array u);
        pte_block = λ p x. ground (arith, c.ptes p, c.malloced.blocks p, s.pte_block p);
        table_block =
            λ u x. ground (arith, c.tables u, c.malloced.blocks u, s.table_block u, v.table_lt u);
        array_block = λ u x. rw (c.arrays u) (
            ground (
              arith,
              c.tables u,
              c.malloced.blocks (array h u),
              s.array_block u,
              s.known (array h u) (live_block (sizeof_ptr * table_size)),
              v.next_pos,
            ));
        array_unique = λ u w x y.
            ground (arith, c.tables u, c.tables w, c.arrays u, c.arrays w, s.array_unique u w);
        owner = NewPte-owner s;
      }

  NewPte-held :
      {root : Ptr} (r : IsRooted root h) (p : Ptr)
      → has_pte h' p ≡ true
      → (u : Ptr) × (j : ℕ) × (slot h' u j ≡ p)
  NewPte-held r p x = elim (Bool-cases (h.next == p)) [
    | inl new ↦ (t, i, ground (arith, c.slots t i))
    | inr old ↦
        let (u, j, e) = r.held p (ground (arith, c.ptes p)) in
        (u, j, ground (arith, c.slots u j, c.ptes p, no_pte v))
  ]

  NewPte-hung :
      {root : Ptr} (r : IsRooted root h) (u : Ptr)
      → has_table h' u ≡ true
      → (u ≡ root) ⊎ ((p : Ptr) × (below h' p ≡ u))
  NewPte-hung r u x = elim (r.hung u (ground (arith, c.tables u))) [
    | inl e ↦ inl e
    | inr (p, e) ↦ inr (p, ground (arith, c.belows p))
  ]

  pub NewPte-IsRooted : {root : Ptr} → IsRooted root h → IsRooted root h'
  NewPte-IsRooted {root} r = record {
    root_table = ground (arith, c.tables root, r.root_table);
    root_top = λ p. ground (arith, c.belows p, r.root_top p);
    slot_lt = λ u j. ground (arith, c.slots u j, r.slot_lt u j, v.table_lt t);
    below_lt = λ p. ground (arith, c.belows p, r.below_lt p);
    held = λ p x. NewPte-held r p x;
    hung = λ u x. NewPte-hung r u x;
  }

-- ===== src/PageTable/Owned/NewTable.antt =====
-- A new table of csc369_page_table.c keeps the ownership of blocks.
use csc369_os_a.Base.{
  ℕ, ◌+◌, ◌*◌, ◌≡◌, ◌⊎◌, inl, inr, true, false, some, arith, ◌==◌, if◌then◌else◌, Ptr, null,
  Bool-cases,
}
use csc369_os_a.Kmalloc.{Block}
use csc369_os_a.Kmalloc.Accounting.{IsAccounted}
use csc369_os_a.Kmalloc.Blocks.{live_block, HasUniqueKeys}
use csc369_os_a.PageTable.{Heap, table_size, sizeof_page_table, sizeof_ptr}
use csc369_os_a.PageTable.View.{slot, below, has_pte, has_table}
use csc369_os_a.PageTable.Tree.{IsTree, no_table}
use csc369_os_a.PageTable.Owned.{
  block, array, Owner, manager, entry, table, array_at, IsStored, IsRooted,
}

-- `h'` is `h` with a new table in which every slot is NULL
pub record NewTable (h h' : Heap) : Type 0 where
  pub next : h'.next ≡ h.next + 1 + 1
  pub accounted : IsAccounted h'.kmalloc
  pub keys : HasUniqueKeys h'.kmalloc.malloc_map
  pub blocks :
      (q : Ptr)
      → block h' q ≡ (
          if h.next == q
          then some (live_block sizeof_page_table)
          else if h.next + 1 == q
          then some (live_block (sizeof_ptr * table_size))
          else block h q)
  pub ptes : (q : Ptr) → has_pte h' q ≡ has_pte h q
  pub tables : (u : Ptr) → has_table h' u ≡ (if h.next == u then true else has_table h u)
  pub arrays : (u : Ptr) → array h' u ≡ (if h.next == u then h.next + 1 else array h u)
  pub slots : (u : Ptr) (j : ℕ) → slot h' u j ≡ slot h u j

module _ {h h' : Heap} (v : IsTree h) (c : NewTable h h') where
  NewTable-owner :
      {mm : Ptr} (s : IsStored mm h) (q : Ptr) (b : Block)
      → block h' q ≡ some b
      → b.freed ≡ false
      → Owner mm h' q
  NewTable-owner s q b e l = elim (Bool-cases (h.next == q)) [
    | inl new ↦ table (ground (arith, c.tables q))
    | inr old ↦ elim (Bool-cases (h.next + 1 == q)) [
      | inl new ↦
          array_at h.next (ground (arith, c.tables h.next)) (ground (arith, c.arrays h.next))
      | inr older ↦ elim (s.owner q b (ground (arith, c.blocks q)) l) [
        | manager x ↦ manager x
        | entry x ↦ entry (ground (arith, c.ptes q))
        | table x ↦ table (ground (arith, c.tables q))
        | array_at u x y ↦
            array_at u (ground (arith, c.tables u)) (ground (arith, c.arrays u, v.table_lt u))
      ]
    ]
  ]

  pub NewTable-IsStored : {mm : Ptr} → IsStored mm h → IsStored mm h'
  NewTable-IsStored {mm} s =
      let (n, pos, at) = s.mm_block in
      let (p0, pn) = s.known mm (live_block n) at in
      record {
        accounted = c.accounted;
        keys = c.keys;
        known = λ q b e. ground (arith, c.blocks q, s.known q b, c.next, v.next_pos);
        mm_block = (n, pos, ground (arith, c.blocks mm));
        mm_pte = ground (arith, c.ptes mm, s.mm_pte);
        mm_table = ground (arith, c.tables mm, s.mm_table);
        mm_array = λ u x. ground (arith, c.tables u, c.arrays u, s.mm_array u);
        pte_block = λ q x. ground (arith, c.ptes q, c.blocks q, s.pte_block q, v.pte_lt q);
        table_block = λ u x. ground (arith, c.tables u, c.blocks u, s.table_block u, v.table_lt u);
        array_block = λ u x. elim (Bool-cases (h.next == u)) [
          | inl new ↦ rw (c.arrays u, new) (ground (arith, c.blocks (h.next + 1)))
          | inr old ↦
              rw (c.arrays u, old)
                (ground (
                  arith,
                  c.tables u,
                  c.blocks (array h u),
                  s.array_block u,
                  s.known (array h u) (live_block (sizeof_ptr * table_size)),
                  v.next_pos,
                ))
        ];
        array_unique = λ u w x y. ground (
          arith,
          c.tables u,
          c.tables w,
          c.arrays u,
          c.arrays w,
          s.array_unique u w,
          s.array_block u,
          s.array_block w,
          s.known (array h u) (live_block (sizeof_ptr * table_size)),
          s.known (array h w) (live_block (sizeof_ptr * table_size)),
        );
        owner = NewTable-owner s;
      }

-- it hangs below the entry `p`
module _ (p : Ptr) {h h' : Heap} (v : IsTree h) (c : NewTable h h')
    (belows : (q : Ptr) → below h' q ≡ (if p == q then h.next else below h q))
    (has : has_pte h p ≡ true) (free : below h p ≡ null) where
  NewTable-hung :
      {root : Ptr} (r : IsRooted root h) (u : Ptr)
      → has_table h' u ≡ true
      → (u ≡ root) ⊎ ((q : Ptr) × (below h' q ≡ u))
  NewTable-hung r u x = elim (Bool-cases (h.next == u)) [
    | inl new ↦ inr (p, ground (arith, belows p))
    | inr old ↦ elim (r.hung u (ground (arith, c.tables u))) [
      | inl e ↦ inl e
      | inr (q, e) ↦ inr (q, ground (arith, belows q, c.tables u, no_table v))
    ]
  ]

  pub NewTable-IsRooted : {root : Ptr} → IsRooted root h → IsRooted root h'
  NewTable-IsRooted {root} r = record {
    root_table = ground (arith, c.tables root, r.root_table);
    root_top = λ q. ground (arith, belows q, r.root_top q, r.root_table, v.table_lt root);
    slot_lt = λ u j. ground (arith, c.slots u j, r.slot_lt u j);
    below_lt = λ q. ground (arith, belows q, r.below_lt q, v.pte_lt p);
    held = λ q x.
        let (u, j, e) = r.held q (ground (arith, c.ptes q)) in (u, j, ground (arith, c.slots u j));
    hung = λ u x. NewTable-hung r u x;
  }

-- it is the first
module _ {h h' : Heap} (v : IsTree h) (c : NewTable h h')
    (belows : (q : Ptr) → below h' q ≡ below h q) (no_entry : (q : Ptr) → has_pte h q ≡ false)
    (no_other : (u : Ptr) → has_table h u ≡ false) where
  pub first-IsRooted : IsRooted h.next h'
  first-IsRooted = record {
    root_table = ground (arith, c.tables h.next);
    root_top = λ q. ground (arith, belows q, no_entry q, v.next_pos);
    slot_lt = λ u j. ground (arith, c.slots u j, no_other u);
    below_lt = λ q. ground (arith, belows q, no_entry q);
    held = λ q x. absurd (ground (arith, c.ptes q, no_entry q));
    hung = λ u x. inl (ground (arith, c.tables u, no_other u));
  }

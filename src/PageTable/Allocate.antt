-- ===== src/PageTable/Allocate.antt =====
-- CSC369_PageTableAllocate: the entry of an address, in a heap that has grown.
use csc369_os_a.Base.{ℕ, ◌+◌, ◌*◌, ◌^◌, ◌≤◌, ◌<◌, ◌≡◌, ◌≢◌, true, some, arith, Ptr, null}
use csc369_os_a.Base.Returns
use csc369_os_a.Base.Returns.{Returns}
use csc369_os_a.Kmalloc.{kmalloc_max}
use csc369_os_a.PageTable.{
  Heap, sizeof_pte, page_table_allocate, page_number_1, page_number_2, page_number_3,
}
use csc369_os_a.PageTable.View.{slot, below, has_pte, has_table, walk}
use csc369_os_a.PageTable.Owned.{IsOwned}
use csc369_os_a.PageTable.Tree.{IsTree, Grown, Grown-trans, slot_ne, below_ne}
use csc369_os_a.PageTable.Grow.{slot_pte-Slot, slot_pte_of_slot}
use csc369_os_a.PageTable.GrowTable.{pte_table-Below, sizeof_table, pte_table_of_below}

-- the most that one allocation takes: three entries and two tables
abbrev pub sizeof_path : ℕ
sizeof_path = 3 * sizeof_pte + 2 * sizeof_table

-- `p` is the entry of `va` in `h'`, a heap that `h` has grown to.
pub record Mapped (h : Heap) (t : Ptr) (va : ℕ) (p : Ptr) (h' : Heap) : Type 0 where
  pub grown : Grown h h'
  pub tree : IsTree h'
  pub entry : p ≢ null
  pub live : has_pte h' p ≡ true
  pub found : walk h' t va ≡ p
  pub bytes : h'.kmalloc.bytes_malloced ≤ h.kmalloc.bytes_malloced + sizeof_path
  pub owned : (mm root : Ptr) → IsOwned mm root h → IsOwned mm root h'

module _ {h h' : Heap} (g : Grown h h') where
  slot-kept : (t : Ptr) (i : ℕ) {p : Ptr} → slot h t i ≡ p → p ≢ null → slot h' t i ≡ p
  slot-kept t i e ne = ground (arith, g.slots t i)

  below-kept : (p : Ptr) {t : Ptr} → below h p ≡ t → t ≢ null → below h' p ≡ t
  below-kept p e ne = ground (arith, g.belows p)

  pub has_table-kept : (t : Ptr) → has_table h t ≡ true → has_table h' t ≡ true
  has_table-kept t e = ground (arith, g.tables t)

  pub has_pte-kept : (p : Ptr) → has_pte h p ≡ true → has_pte h' p ≡ true
  has_pte-kept p e = ground (arith, g.ptes p)

walk_lem :
    (h : Heap) (t : Ptr) (va : ℕ) {p1 t2 p2 t3 p : Ptr}
    → slot h t (page_number_1 va) ≡ p1
    → below h p1 ≡ t2
    → slot h t2 (page_number_2 va) ≡ p2
    → below h p2 ≡ t3
    → slot h t3 (page_number_3 va) ≡ p
    → walk h t va ≡ p
unfolding walk
walk_lem h t va a b c d e = rw (a, b, c, d, e)

-- CSC369_PageTableAllocate faults nowhere: for any 48-bit address, in a heap with room for a path,
-- it returns an entry that the three indices of the address then lead to. Entries and tables are
-- only added, no status of an entry changes, and the heap stays a tree.
pub page_table_allocate-Mapped :
    {h : Heap} (t : Ptr) (va : ℕ)
    → IsTree h
    → has_table h t ≡ true
    → va < 2 ^ 48
    → h.kmalloc.bytes_malloced + sizeof_path ≤ kmalloc_max
    → Returns (Mapped h t va) (page_table_allocate t va h)
unfolding page_table_allocate walk
page_table_allocate-Mapped {h} t va v has lt room =
    Returns.bind (slot_pte-Slot t (page_number_1 va) v has (omega arith) (omega arith)) λ p1 h1 a.
      Returns.bind (pte_table-Below p1 a.tree a.live (omega (arith, a.bytes))) λ t2 h2 b.
        Returns.bind
          (slot_pte-Slot t2 (page_number_2 va) b.tree b.live (omega arith)
            (omega (arith, a.bytes, b.bytes)))
          λ p2 h3 c.
            Returns.bind
              (pte_table-Below p2 c.tree c.live (omega (arith, a.bytes, b.bytes, c.bytes)))
              λ t3 h4 d.
                Returns.mono
                  (slot_pte-Slot t3 (page_number_3 va) d.tree d.live (omega arith)
                    (omega (arith, a.bytes, b.bytes, c.bytes, d.bytes)))
                  λ p h5 e. record {
                    grown =
                        Grown-trans a.grown
                          (Grown-trans b.grown (Grown-trans c.grown (Grown-trans d.grown e.grown)));
                    tree = e.tree;
                    entry = e.entry;
                    live = e.live;
                    found =
                        let g4 = e.grown in
                        let g3 = Grown-trans d.grown g4 in
                        let g2 = Grown-trans c.grown g3 in
                        let g1 = Grown-trans b.grown g2 in
                        walk_lem h5 t va (slot-kept g1 t _ a.held a.entry)
                          (below-kept g2 p1 b.held b.entry) (slot-kept g3 t2 _ c.held c.entry)
                          (below-kept g4 p2 d.held d.entry) e.held;
                    bytes = omega (arith, a.bytes, b.bytes, c.bytes, d.bytes, e.bytes);
                    owned = λ mm root o.
                        e.owned mm root
                          (d.owned mm root (c.owned mm root (b.owned mm root (a.owned mm root o))));
                  }

-- For a 48-bit address that has an entry already, CSC369_PageTableAllocate returns it and changes
-- nothing.
pub page_table_allocate_of_walk :
    {h : Heap} (t : Ptr) (va : ℕ)
    → IsTree h
    → va < 2 ^ 48
    → walk h t va ≢ null
    → page_table_allocate t va h ≡ some (walk h t va, h)
unfolding page_table_allocate walk
page_table_allocate_of_walk {h} t va v lt ne =
    let n2 = slot_ne v _ _ ne in
    let m2 = below_ne v _ n2 in
    let n1 = slot_ne v _ _ m2 in
    let m1 = below_ne v _ n1 in
    rw (
      slot_pte_of_slot t (page_number_1 va) v (omega arith) m1,
      pte_table_of_below (slot h t (page_number_1 va)) v n1,
      slot_pte_of_slot _ (page_number_2 va) v (omega arith) m2,
      pte_table_of_below _ v n2,
      slot_pte_of_slot _ (page_number_3 va) v (omega arith) ne,
    )

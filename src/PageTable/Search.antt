-- ===== src/PageTable/Search.antt =====
-- CSC369_PageTableSearch.
use csc369_os_a.Base.{
  ℕ, ◌/◌, ◌%◌, ◌^◌, ◌≤◌, ◌<◌, ◌≡◌, ◌≢◌, true, some, none, Option-cases, Bool-cases, inl, inr, arith,
  Ptr, null, ◌==◌, ◌∙◌, pure, ◌>>=◌, if◌then◌else◌,
}
use csc369_os_a.PageTable.{
  H, Heap, table_size, load_slot, load_pte, page_number_1, page_number_2, page_number_3,
}
use csc369_os_a.PageTable.View.{slot, below, has_pte, has_table, walk}
use csc369_os_a.PageTable.Tree.{IsTree, no_pte, no_table, slot_ne, below_ne}

-- The index of level 3 that CSC369_PageTableSearch computes.
abbrev pub search_number_3 : ℕ → ℕ
search_number_3 va = (va / 2 ^ 12) % 2 ^ 24

-- CSC369_PageTableSearch
unfoldable pub page_table_search : Ptr → ℕ → H Ptr
page_table_search t va = do
  pte_1 ← load_slot t (page_number_1 va)
  if pte_1 == null then pure null else (do
    e_1 ← load_pte pte_1
    if e_1.page_table == null then pure null else (do
      pte_2 ← load_slot e_1.page_table (page_number_2 va)
      if pte_2 == null then pure null else (do
        e_2 ← load_pte pte_2
        if e_2.page_table == null
            then pure null
            else (do load_slot e_2.page_table (search_number_3 va)))))

module _ {h : Heap} (v : IsTree h) where
  load_slot_lem :
      (t : Ptr) (i : ℕ)
      → has_table h t ≡ true
      → i < table_size
      → load_slot t i h ≡ some (slot h t i, h)
  unfolding load_slot
  load_slot_lem t i has lt = ground (arith, no_table v)

  load_slot_out : (t : Ptr) (i : ℕ) → table_size ≤ i → load_slot t i h ≡ none
  unfolding load_slot
  load_slot_out t i le = ground arith

  -- One level of the search below an entry.
  load_below :
      (p : Ptr) (k : Ptr → H Ptr)
      → p ≢ null
      → has_pte h p ≡ true
      → (do e ← load_pte p; if e.page_table == null then pure null else k e.page_table) h
        ≡ (if below h p == null then some (null, h) else k (below h p) h)
  unfolding load_pte
  load_below p k ne has = elim (Option-cases (h.pte p)) [
    | inl e ↦ ground arith
    | inr (e, at) ↦ ground arith
  ]

  -- One level of the search in a table.
  load_entry :
      (t : Ptr) (i : ℕ) (k : Ptr → H Ptr)
      → has_table h t ≡ true
      → i < table_size
      → (do p ← load_slot t i; if p == null then pure null else k p) h
        ≡ (if slot h t i == null then some (null, h) else k (slot h t i) h)
  load_entry t i k has lt = rw (load_slot_lem t i has lt) (ground arith)

  module _ (t : Ptr) (va : ℕ) (has : has_table h t ≡ true) (lt : va < 2 ^ 48) where
    search_two :
        let p1 = slot h t (page_number_1 va) in
        let t2 = below h p1 in
        let p2 = slot h t2 (page_number_2 va) in
        let t3 = below h p2 in
        page_table_search t va h ≡ (
          if p1 == null
          then some (null, h)
          else if t2 == null
          then some (null, h)
          else if p2 == null
          then some (null, h)
          else if t3 == null
          then some (null, h)
          else load_slot t3 (search_number_3 va) h)
    unfolding page_table_search
    search_two =
        let p1 = slot h t (page_number_1 va) in
        let t2 = below h p1 in
        let p2 = slot h t2 (page_number_2 va) in
        load_entry t (page_number_1 va) _ has (omega arith) ∙ elim (Bool-cases (p1 == null)) [
          | inl z ↦ rw z
          | inr n ↦ rw n (
              load_below p1 _ (ground arith) (v.slot_pte _ _ (ground arith))
              ∙ elim (Bool-cases (t2 == null)) [
                | inl z ↦ rw z
                | inr m ↦ rw m (
                    load_entry t2 (page_number_2 va) _ (v.below_table _ (ground arith))
                      (omega arith)
                    ∙ elim (Bool-cases (p2 == null)) [
                      | inl z ↦ rw z
                      | inr l ↦
                          rw l (load_below p2 _ (ground arith) (v.slot_pte _ _ (ground arith)))
                    ])
              ])
        ]

    -- For a 48-bit address whose bits 24 to 35 are 0, CSC369_PageTableSearch returns the entry of the
    -- address, NULL where there is none, and changes nothing.
    pub page_table_search_of_zero :
        page_number_2 va ≡ 0 → page_table_search t va h ≡ some (walk h t va, h)
    unfolding walk
    page_table_search_of_zero z =
        let p1 = slot h t (page_number_1 va) in
        let p2 = slot h (below h p1) (page_number_2 va) in
        let same : search_number_3 va ≡ page_number_3 va = omega arith in
        search_two
        ∙ ground (
          arith,
          no_pte v,
          no_table v,
          same,
          v.below_table p2,
          load_slot_lem (below h p2) (page_number_3 va),
        )

    -- For a 48-bit address with an entry, where bits 24 to 35 are not all 0, CSC369_PageTableSearch reads out of the
    -- range of the third table.
    pub page_table_search_of_ne_zero :
        page_number_2 va ≢ 0 → walk h t va ≢ null → page_table_search t va h ≡ none
    unfolding walk
    page_table_search_of_ne_zero nz ne =
        let n2 = slot_ne v _ _ ne in
        let m2 = below_ne v _ n2 in
        let n1 = slot_ne v _ _ m2 in
        let m1 = below_ne v _ n1 in
        let p2 = slot h (below h (slot h t (page_number_1 va))) (page_number_2 va) in
        search_two ∙ ground (arith, load_slot_out (below h p2) (search_number_3 va))

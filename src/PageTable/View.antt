-- ===== src/PageTable/View.antt =====
-- What a heap of page tables holds, read without faults: slots, tables below entries, the status of
-- an entry, and the entry that the three levels of indices lead to.
use csc369_os_a.Base.{ℕ, Bool, true, false, Option, none, some, Ptr, null}
use csc369_os_a.PageTable.{
  Pte, PageTable, Heap, init_pte, page_number_1, page_number_2, page_number_3,
}

abbrev pub is_some {ℓ} : {A : Type ℓ} → Option A → Bool
is_some none = false
is_some (some a) = true

abbrev pub slot_of : Option PageTable → ℕ → Ptr
slot_of none i = null
slot_of (some tb) i = tb.ptes i

abbrev pub below_of : Option Pte → Ptr
below_of none = null
below_of (some e) = e.page_table

abbrev pub status_of : Option Pte → Pte
status_of none = init_pte
status_of (some e) = record e { page_table = null }

-- the pointer in a slot of a table, NULL where there is none
abbrev pub slot : Heap → Ptr → ℕ → Ptr
slot h t i = slot_of (h.table t) i

-- the table below an entry, NULL where there is none
abbrev pub below : Heap → Ptr → Ptr
below h p = below_of (h.pte p)

abbrev pub has_pte : Heap → Ptr → Bool
has_pte h p = is_some (h.pte p)

abbrev pub has_table : Heap → Ptr → Bool
has_table h t = is_some (h.table t)

-- the fields of an entry but for the table below it; those of a new entry where there is none
abbrev pub status : Heap → Ptr → Pte
status h p = status_of (h.pte p)

-- the entry of a virtual address, NULL where none is allocated
unfoldable pub walk : Heap → Ptr → ℕ → Ptr
walk h t va =
    slot h (below h (slot h (below h (slot h t (page_number_1 va))) (page_number_2 va)))
      (page_number_3 va)

-- ===== src/PageTable/Destroy.antt =====
-- CSC369_PageTableDestroy and CSC369_PTEDestroy.
use csc369_os_a.Base.{ℕ, zero, suc, ◌+◌, ◌==◌, if◌then◌else◌, Ptr, null, pure, fault, ◌>>=◌, ◌>>◌}
use csc369_os_a.PageTable.{H, table_size, load_pte, load_table, load_slot, free}

-- CSC369_PTEDestroy, with what destroys the table below
unfoldable pub pte_destroy : (Ptr → H (Unit {0})) → Ptr → H (Unit {0})
unfolding load_pte free
pte_destroy destroy p = do
  e ← load_pte p
  if e.page_table == null then pure tt else destroy e.page_table
  free p

-- The loop of CSC369_PageTableDestroy, from slot `i` on for `n` slots.
unfoldable pub destroy_slots : (Ptr → H (Unit {0})) → Ptr → ℕ → ℕ → H (Unit {0})
unfolding load_slot
destroy_slots destroy t zero i = pure tt
destroy_slots destroy t (suc n) i = do
  p ← load_slot t i
  if p == null then pure tt else destroy p
  destroy_slots destroy t n (i + 1)

-- CSC369_PageTableDestroy on fuel, one unit for each level of tables
unfoldable pub page_table_destroy : ℕ → Ptr → H (Unit {0})
unfolding destroy_slots pte_destroy load_table free
page_table_destroy zero t = fault
page_table_destroy (suc f) t = do
  tb ← load_table t
  destroy_slots (pte_destroy (page_table_destroy f)) t table_size 0
  free tb.array
  free t

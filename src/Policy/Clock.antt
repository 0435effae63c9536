-- ===== src/Policy/Clock.antt =====
-- A2-zengzix2/src/csc369_policy_clock.c: the clock. The ring of frames has no head of its own: the
-- variable `list` points at the entry of one of them.
use csc369_os_a.Base.{
  ℕ, zero, suc, ◌+◌, true, false, not, if◌then◌else◌, ◌==◌, Ptr, null, pure, fault, ◌>>=◌, ◌>>◌,
  gets, modify, require,
}
use csc369_os_a.PageTable.{pte_is_referenced, pte_set_referenced, pte_get_frame_number}
use csc369_os_a.Links.{
  frame_entry, container_of, list_init, list_entry_init, list_entry_is_linked, list_add_tail,
  list_del, list_destroy, get_next,
}
use csc369_os_a.Machine.{Sim, in_heap, in_links, get_frame}

-- CSC369_PolicyClockInit
unfoldable pub clock_init : Sim (Unit {0})
clock_init = pure tt

unfoldable pub set_hand : Ptr → Sim (Unit {0})
set_hand e = modify λ m. record m { clock_hand = e }

unfoldable pub set_list : Ptr → Sim (Unit {0})
set_list e = modify λ m. record m { clock_list = e }

-- CSC369_PolicyClockOnRef
unfoldable pub clock_on_ref : ℕ → Sim (Unit {0})
unfolding set_hand set_list
clock_on_ref i = do
  frame ← get_frame i
  in_heap (pte_set_referenced frame.pte true)
  list ← gets (λ m. m.clock_list)
  let curr_entry = frame_entry i
  if list == null
      then (do
        in_links (list_entry_init curr_entry)
        set_list curr_entry
        in_links (list_init curr_entry)
        set_hand curr_entry)
      else (do
        linked ← in_links (list_entry_is_linked curr_entry)
        if not linked
            then (do
              in_links (list_entry_init curr_entry)
              in_links (list_add_tail list curr_entry)
              set_hand curr_entry)
            else pure tt)

-- The end of CSC369_PolicyClockEvict: the entry at the hand leaves the ring.
unfoldable pub clock_take : Ptr → Ptr → Sim ℕ
unfolding set_list
clock_take hand pte = do
  n ← in_links (get_next hand)
  set_list n
  in_links (list_del hand)
  in_links (list_entry_init hand)
  list ← gets (λ m. m.clock_list)
  if hand == list then set_list null else pure tt
  in_heap (pte_get_frame_number pte)

-- The loop of CSC369_PolicyClockEvict on fuel, one unit for each entry that the hand passes.
unfoldable pub clock_loop : ℕ → Sim ℕ
unfolding clock_take set_hand
clock_loop zero = fault
clock_loop (suc f) = do
  hand ← gets (λ m. m.clock_hand)
  i ← require (container_of hand)
  curr_frame ← get_frame i
  referenced ← in_heap (pte_is_referenced curr_frame.pte)
  let rest = (do
    in_heap (pte_set_referenced curr_frame.pte false)
    n ← in_links (get_next hand)
    set_hand n
    clock_loop f)
  if not referenced then clock_take hand curr_frame.pte else rest

-- CSC369_PolicyClockEvict. Once round clears every reference bit, so one frame more than there are
-- is fuel enough.
unfoldable pub clock_evict : Sim ℕ
unfolding clock_loop set_hand
clock_evict = do
  hand ← gets (λ m. m.clock_hand)
  n ← in_links (get_next hand)
  set_hand n
  m ← gets (λ m. m)
  clock_loop (m.frame_count + 1)

-- CSC369_PolicyClockCleanup
unfoldable pub clock_cleanup : Sim (Unit {0})
clock_cleanup = do list ← gets (λ m. m.clock_list); in_links (list_destroy list)

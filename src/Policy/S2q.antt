-- ===== src/Policy/S2q.antt =====
-- A2-zengzix2/src/csc369_policy_s2q.c: simplified 2Q, with the queues A1 and Am.
use csc369_os_a.Base.{
  ℕ, zero, suc, ◌+◌, ◌/◌, true, false, not, ltb, ◌==◌, if◌then◌else◌, Ptr, pure, fault, ◌>>=◌, ◌>>◌,
  check, gets, require,
}
use csc369_os_a.PageTable.{pte_is_referenced, pte_set_referenced, pte_get_frame_number}
use csc369_os_a.Links.{
  L, a1_head, am_head, frame_entry, container_of, list_init, list_entry_init, list_entry_is_linked,
  list_add_head, list_add_tail, list_del, list_first_entry, list_last_entry, list_destroy, get_next,
}
use csc369_os_a.Machine.{Sim, in_heap, in_links, get_frame}

-- CSC369_PolicyS2QInit
unfoldable pub s2q_init : Sim (Unit {0})
s2q_init = do in_links (list_init a1_head); in_links (list_init am_head)

-- CSC369_PolicyS2QOnRef
unfoldable pub s2q_on_ref : ℕ → Sim (Unit {0})
s2q_on_ref i = do
  frame ← get_frame i
  check (not frame.free)
  let curr_entry = frame_entry i
  linked ← in_links (list_entry_is_linked curr_entry)
  if not linked then in_links (list_add_tail a1_head curr_entry) else (do
    referenced ← in_heap (pte_is_referenced frame.pte)
    if not referenced then in_heap (pte_set_referenced frame.pte true) else pure tt
    in_links (list_del curr_entry)
    in_links (list_add_head am_head curr_entry))

-- `list_for_each(pos, list) i++`, on fuel: the number of entries from `pos` on
unfoldable pub list_count : ℕ → Ptr → Ptr → ℕ → L ℕ
list_count zero head pos i = fault
list_count (suc f) head pos i =
    let rest = (do n ← get_next pos; list_count f head n (i + 1)) in
    if pos == head then pure i else rest

-- CSC369_PolicyS2QEvict. A1 holds each frame at most once, so one more than their number is fuel
-- enough to count it.
unfoldable pub s2q_evict : Sim ℕ
unfolding list_count
s2q_evict = do
  m ← gets (λ m. m)
  first ← in_links (list_first_entry a1_head)
  i ← in_links (list_count (m.frame_count + 1) a1_head first 0)
  evict_entry ←
      in_links
        (if ltb (m.memsize / 10) i then list_first_entry a1_head else list_last_entry am_head)
  j ← require (container_of evict_entry)
  in_links (list_del evict_entry)
  in_links (list_entry_init evict_entry)
  evict_frame ← get_frame j
  in_heap (pte_set_referenced evict_frame.pte false)
  in_heap (pte_get_frame_number evict_frame.pte)

-- CSC369_PolicyS2QCleanup
unfoldable pub s2q_cleanup : Sim (Unit {0})
s2q_cleanup = do in_links (list_destroy a1_head); in_links (list_destroy am_head)

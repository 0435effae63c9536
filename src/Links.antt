-- ===== src/Links.antt =====
-- A2-zengzix2/src/list.h: circular doubly-linked lists whose entries are embedded in the frames.
-- Entries have addresses of their own: the list heads `A1` and `Am` of the S2Q policy, then the
-- entry of each frame.
pub mod Ring
pub mod Insert
use csc369_os_a.Base.{
  ℕ, ◌+◌, ◌-◌, Bool, not, Option, none, some, ltb, ◌==◌, if◌then◌else◌, Ptr, null, M, pure, ◌>>=◌,
  ◌>>◌, check, gets, modify, update,
}

abbrev pub a1_head : Ptr
a1_head = 1

abbrev pub am_head : Ptr
am_head = 2

-- `&frame->framelist_entry` of frame `i`
abbrev pub frame_entry : ℕ → Ptr
frame_entry i = i + 3

-- container_of(entry, CSC369_Frame, framelist_entry), as a frame number; `none` for an entry that
-- is in no frame
abbrev pub container_of : Ptr → Option ℕ
container_of e = if ltb e 3 then none else some (e - 3)

-- list_entry, for every entry
pub record Links : Type 0 where
  pub next : Ptr → Ptr
  pub prev : Ptr → Ptr

abbrev pub L : Type 0 → Type 0
L = M Links

-- `entry->next` and `entry->prev`, read and written; a fault at NULL
unfoldable pub get_next : Ptr → L Ptr
get_next e = do check (not (e == null)); gets λ l. l.next e

unfoldable pub get_prev : Ptr → L Ptr
get_prev e = do check (not (e == null)); gets λ l. l.prev e

unfoldable pub set_next : Ptr → Ptr → L (Unit {0})
set_next e v = do check (not (e == null)); modify λ l. record l { next = update l.next e v }

unfoldable pub set_prev : Ptr → Ptr → L (Unit {0})
set_prev e v = do check (not (e == null)); modify λ l. record l { prev = update l.prev e v }

unfoldable pub list_init : Ptr → L (Unit {0})
unfolding set_next set_prev
list_init head = do set_next head head; set_prev head head

unfoldable pub list_entry_init : Ptr → L (Unit {0})
unfolding set_next set_prev
list_entry_init entry = do set_next entry null; set_prev entry null

unfoldable pub list_entry_is_linked : Ptr → L Bool
unfolding get_next
list_entry_is_linked entry = do n ← get_next entry; pure (not (n == null))

-- __list_insert
unfoldable pub list_insert : (entry prev next : Ptr) → L (Unit {0})
unfolding set_next set_prev
list_insert entry prev next = do
  set_prev next entry
  set_next entry next
  set_prev entry prev
  set_next prev entry

unfoldable pub list_add_head : (list entry : Ptr) → L (Unit {0})
unfolding get_next list_insert
list_add_head list entry = do n ← get_next list; list_insert entry list n

unfoldable pub list_add_tail : (list entry : Ptr) → L (Unit {0})
unfolding get_prev list_insert
list_add_tail list entry = do p ← get_prev list; list_insert entry p list

unfoldable pub list_del : Ptr → L (Unit {0})
unfolding get_next get_prev set_next set_prev list_entry_init
list_del entry = do
  n ← get_next entry
  p ← get_prev entry
  set_prev n p
  p ← get_prev entry
  n ← get_next entry
  set_next p n
  list_entry_init entry

-- list_first_entry and list_last_entry
unfoldable pub list_first_entry : Ptr → L Ptr
unfolding get_next
list_first_entry = get_next

unfoldable pub list_last_entry : Ptr → L Ptr
unfolding get_prev
list_last_entry = get_prev

-- list_destroy
abbrev pub list_destroy : Ptr → L (Unit {0})
list_destroy list = pure tt

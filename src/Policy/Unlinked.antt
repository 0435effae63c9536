-- ===== src/Policy/Unlinked.antt =====
-- list_entry_init, list_init and list_entry_is_linked of an entry, as the policies call them.
use csc369_os_a.Base.{ℕ, ◌<◌, ◌≡◌, ◌≢◌, some, not, ◌==◌, Ptr, null, update, arith}
use csc369_os_a.Links.{Links, list_init, list_entry_init, list_entry_is_linked}
use csc369_os_a.Links.Ring.{after, Ring}

-- an entry with no links
abbrev pub cleared : Links → Ptr → Links
cleared l c = record { next = update l.next c null; prev = update l.prev c null }

abbrev pub alone : Links → Ptr → Links
alone l c = record {
  next = update (update l.next c null) c c;
  prev = update (update l.prev c null) c c;
}

module _ (l : Links) (c : Ptr) (ne : c ≢ null) where
  pub clear_run : list_entry_init c l ≡ some (tt, cleared l c)
  unfolding list_entry_init
  clear_run = ground arith

  pub alone_run : list_init c (cleared l c) ≡ some (tt, alone l c)
  unfolding list_init
  alone_run = ground arith

  pub linked_run : list_entry_is_linked c l ≡ some (not (l.next c == null), l)
  unfolding list_entry_is_linked
  linked_run = ground arith

pub cleared-Ring :
    {l : Links} {n : ℕ} {s : ℕ → Ptr} {pos : Ptr → ℕ} (c : Ptr)
    → ((k : ℕ) → k < n → s k ≢ c)
    → Ring l n s pos
    → Ring (cleared l c) n s pos
cleared-Ring {n = n} c new r = record {
  entry = r.entry;
  place = r.place;
  next = λ k a. ground (arith, r.next k, new k);
  prev = λ k a. ground (arith, r.prev k, new (after n k));
}

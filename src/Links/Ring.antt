-- ===== src/Links/Ring.antt =====
-- Rings of linked entries (list.h): the entries in order, and what insertion and deletion make of
-- them.
use csc369_os_a.Base.{
  ℕ, ◌+◌, ◌-◌, ◌<◌, ◌≡◌, ◌≢◌, ◌∙◌, sym, ap, some, ltb, ◌==◌, if◌then◌else◌, Ptr, null, update,
  arith,
}
use csc369_os_a.Base.Returns.{Returns, returns}
use csc369_os_a.Links.{Links, list_del}

-- the place after `k` in a ring of `n`
abbrev pub after : ℕ → ℕ → ℕ
after n k = if k + 1 == n then 0 else k + 1

-- The entries `s 0` to `s (n - 1)`, each linked to the next, and the last to the first; `pos` is the
-- place of an entry.
pub record Ring (l : Links) (n : ℕ) (s : ℕ → Ptr) (pos : Ptr → ℕ) : Type 0 where
  pub entry : (k : ℕ) → k < n → s k ≢ null
  pub place : (k : ℕ) → k < n → pos (s k) ≡ k
  pub next : (k : ℕ) → k < n → l.next (s k) ≡ s (after n k)
  pub prev : (k : ℕ) → k < n → l.prev (s (after n k)) ≡ s k

-- The entry is one of the ring.
abbrev pub In : ℕ → (ℕ → Ptr) → (Ptr → ℕ) → Ptr → Type 0
In n s pos e = (pos e < n) × (s (pos e) ≡ e)

abbrev pub deleted : Links → Ptr → Links
deleted l e = record {
  next = update (update l.next (l.prev e) (l.next e)) e null;
  prev = update (update l.prev (l.next e) (l.prev e)) e null;
}

abbrev pub without : ℕ → (ℕ → Ptr) → ℕ → Ptr
without h s k = if ltb k h then s k else s (k + 1)

abbrev pub place_without : ℕ → (Ptr → ℕ) → Ptr → ℕ
place_without h pos e = if ltb h (pos e) then pos e - 1 else pos e

-- the place before `k` in a ring of `n`
abbrev pub before : ℕ → ℕ → ℕ
before n k = if k == 0 then n - 1 else k - 1

module _ {l : Links} {n : ℕ} {s : ℕ → Ptr} {pos : Ptr → ℕ} (r : Ring l n s pos) where
  apart : (i j : ℕ) → i < n → j < n → s i ≡ s j → i ≡ j
  apart i j a b e = sym (r.place i a) ∙ ap pos e ∙ r.place j b

  after-before : (k : ℕ) → k < n → after n (before n k) ≡ k
  after-before k lt = ground arith

  before_lt : (k : ℕ) → k < n → before n k < n
  before_lt k lt = ground arith

  pub prev_of : (k : ℕ) → k < n → l.prev (s k) ≡ s (before n k)
  prev_of k lt =
      ap (λ i. l.prev (s i)) (sym (after-before k lt)) ∙ r.prev (before n k) (before_lt k lt)

  module _ (h : ℕ) (lt : h < n) where
    abbrev e : Ptr
    e = s h

    pub del_run : list_del e l ≡ some (tt, deleted l e)
    unfolding list_del
    del_run =
        ground (
          arith,
          r.entry h lt,
          r.next h lt,
          prev_of h lt,
          r.entry (after n h),
          r.entry (before n h),
        )

    -- where the entry at place `k` was before the deletion
    abbrev old : ℕ → ℕ
    old k = if ltb k h then k else k + 1

    old_lt : (k : ℕ) → k < n - 1 → (old k < n) × (old k ≢ h)
    old_lt k a = ground arith

    deleted_next : (k : ℕ) → k < n - 1 → (deleted l e).next (s (old k)) ≡ s (old (after (n - 1) k))
    deleted_next k a = ground (
      arith,
      r.next (old k),
      r.next h lt,
      prev_of h lt,
      apart (old k) h,
      apart (old k) (before n h),
    )

    deleted_prev : (k : ℕ) → k < n - 1 → (deleted l e).prev (s (old (after (n - 1) k))) ≡ s (old k)
    deleted_prev k a = ground (
      arith,
      r.prev (old k),
      prev_of h lt,
      r.next h lt,
      apart (old (after (n - 1) k)) h,
      apart (old (after (n - 1) k)) (after n h),
    )

    -- The ring without the entry.
    pub deleted-Ring : Ring (deleted l e) (n - 1) (without h s) (place_without h pos)
    deleted-Ring = record {
      entry = λ k a. ground (arith, r.entry (old k));
      place = λ k a. ground (arith, r.place (old k));
      next = λ k a. ground (arith, deleted_next k a);
      prev = λ k a. ground (arith, deleted_prev k a);
    }

    -- list_del of an entry of a ring, which may be the only one, leaves the ring without it, and the
    -- entry not linked.
    pub list_del-Ring :
        Returns
          (λ _ l'.
            Ring l' (n - 1) (without h s) (place_without h pos)
            × (l'.next e ≡ null)
            × (l'.prev e ≡ null))
          (list_del e l)
    list_del-Ring = rw del_run (returns (deleted-Ring, ground arith, ground arith))

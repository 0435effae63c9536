-- ===== src/Links/Insert.antt =====
-- Insertion into a ring of linked entries (list.h).
use csc369_os_a.Base.{
  ℕ, ◌+◌, ◌-◌, ◌≤◌, ◌<◌, ◌≡◌, ◌≢◌, ◌∙◌, sym, ap, subst, some, ltb, ◌==◌, if◌then◌else◌, Ptr, null,
  update, arith,
}
use csc369_os_a.Base.Returns.{Returns, returns}
use csc369_os_a.Links.{Links, list_add_head, list_add_tail}
use csc369_os_a.Links.Ring.{after, Ring, prev_of, before}

abbrev pub inserted : Links → Ptr → Ptr → Ptr → Links
inserted l e p n = record {
  next = update (update l.next e n) p e;
  prev = update (update l.prev n e) e p;
}

-- the entries with `e` at place `g`
abbrev pub with : ℕ → Ptr → (ℕ → Ptr) → ℕ → Ptr
with g e s k = if ltb k g then s k else if k == g then e else s (k - 1)

abbrev pub place_with : ℕ → Ptr → (Ptr → ℕ) → Ptr → ℕ
place_with g e pos q = if q == e then g else if ltb (pos q) g then pos q else pos q + 1

module _ {l : Links} {n : ℕ} {s : ℕ → Ptr} {pos : Ptr → ℕ} (r : Ring l n s pos) (e : Ptr)
    (ne : e ≢ null) (new : (k : ℕ) → k < n → s k ≢ e) where
  -- the new entry between the places `g - 1` and `g`
  module _ (g : ℕ) (pos_g : 0 < g) (le : g ≤ n) where
    abbrev l' : Links
    l' = inserted l e (s (g - 1)) (s (if g == n then 0 else g))

    apart : (i j : ℕ) → i < n → j < n → s i ≡ s j → i ≡ j
    apart i j a b x = sym (r.place i a) ∙ ap pos x ∙ r.place j b

    pub inserted-Ring : Ring l' (n + 1) (with g e s) (place_with g e pos)
    inserted-Ring = record {
      entry = λ k a. ground (arith, r.entry k, r.entry (k - 1));
      place = λ k a. ground (arith, r.place k, r.place (k - 1), new k, new (k - 1));
      next = λ k a. ground (
        arith,
        r.next k,
        r.next (k - 1),
        new k,
        new (k - 1),
        apart k (g - 1),
        apart (k - 1) (g - 1),
      );
      prev = λ k a. ground (
        arith,
        r.prev k,
        r.prev (k - 1),
        new (after n k),
        new (after n (k - 1)),
        apart (after n k) (if g == n then 0 else g),
        apart (after n (k - 1)) (if g == n then 0 else g),
        new 0,
        new (g - 1),
      );
    }

  pub add_head_run :
      (h : ℕ) → h < n → list_add_head (s h) e l ≡ some (tt, inserted l e (s h) (s (after n h)))
  unfolding list_add_head
  add_head_run h lt =
      ground (arith, r.entry h lt, r.next h lt, r.entry (after n h), new h, new (after n h))

  pub add_tail_run :
      (h : ℕ) → h < n → list_add_tail (s h) e l ≡ some (tt, inserted l e (s (before n h)) (s h))
  unfolding list_add_tail
  add_tail_run h lt =
      ground (arith, r.entry h lt, prev_of r h lt, r.entry (before n h), new h, new (before n h))

  -- list_add_head after an entry of a ring, with an entry that is not in it, puts the new entry at
  -- the next place.
  pub list_add_head-Ring :
      (h : ℕ)
      → h < n
      → Returns
          (λ _ l'. Ring l' (n + 1) (with (h + 1) e s) (place_with (h + 1) e pos))
          (list_add_head (s h) e l)
  list_add_head-Ring h lt =
      let i : h + 1 - 1 ≡ h = omega arith in
      rw (add_head_run h lt) (
        returns (
          subst
            (λ k.
              Ring (inserted l e (s k) (s (after n h))) (n + 1) (with (h + 1) e s)
                (place_with (h + 1) e pos))
            i (inserted-Ring (h + 1) (omega arith) (omega arith))))

  -- list_add_tail before the first entry of a ring, with an entry that is not in it, puts the new
  -- entry at the last place.
  pub list_add_tail-Ring :
      0 < n
      → Returns
          (λ _ l'. Ring l' (n + 1) (with n e s) (place_with n e pos))
          (list_add_tail (s 0) e l)
  list_add_tail-Ring pos_n =
      let i : (if n == n then 0 else n) ≡ 0 = ground arith in
      rw (add_tail_run 0 pos_n) (
        returns (
          subst
            (λ k. Ring (inserted l e (s (n - 1)) (s k)) (n + 1) (with n e s) (place_with n e pos)) i
            (inserted-Ring n pos_n (omega arith))))

-- ===== src/Policy/ClockTake.antt =====
-- The end of CSC369_PolicyClockEvict: the entry at the hand leaves the ring.
use csc369_os_a.Base.{
  ℕ, ◌+◌, ◌-◌, ◌<◌, ◌≡◌, ◌≢◌, inl, inr, ◌∙◌, ap, fun_ext, true, false, some, ◌==◌, if◌then◌else◌,
  Ptr, null, update, arith, Bool-cases,
}
use csc369_os_a.PageTable.View.{has_pte, status}
use csc369_os_a.PageTable.{pte_get_frame_number}
use csc369_os_a.PageTable.Tree.{no_pte}
use csc369_os_a.Links.{Links, list_entry_init, get_next}
use csc369_os_a.Links.Ring.{
  after, before, deleted, without, place_without, prev_of, del_run, deleted-Ring,
}
use csc369_os_a.Machine.{Machine, in_heap, in_links}
use csc369_os_a.Coremap.Consistent.{Consistent}
use csc369_os_a.Policy.Clock.{clock_take}
use csc369_os_a.Policy.Marks.{frame_number_run}
use csc369_os_a.Policy.ClockRing.{ClockTracked}

pub next_run : (l : Links) (e : Ptr) → e ≢ null → get_next e l ≡ some (l.next e, l)
unfolding get_next
next_run l e ne = ground arith

-- list_del has reset the entry already
pub reset_run :
    (l : Links) (e : Ptr) → e ≢ null → list_entry_init e (deleted l e) ≡ some (tt, deleted l e)
unfolding list_entry_init
reset_run l e ne =
    let a : update (deleted l e).next e null ≡ (deleted l e).next = fun_ext λ q. ground arith in
    let b : update (deleted l e).prev e null ≡ (deleted l e).prev = fun_ext λ q. ground arith in
    let c : (e == null) ≡ false = ground arith in
    rw (c) (
      ap (λ f. some (tt, record { next = f; prev = update (deleted l e).prev e null })) a
      ∙ ap (λ f. some (tt, record { next = (deleted l e).next; prev = f })) b)

module _ (m : Machine) (c : Consistent m.frame_count m) (t : ClockTracked m.frame_count m) (h : ℕ)
    (lt : h < t.n) where
  abbrev e : Ptr
  e = t.s h

  abbrev f : ℕ
  f = e - 3

  abbrev list' : Ptr
  list' = if e == m.links.next e then null else m.links.next e

  abbrev pub taken : Machine
  taken = record m { links = deleted m.links e; clock_list = list' }

  held :
      ((status m.heap (m.frames f).pte).valid ≡ true)
      × ((status m.heap (m.frames f).pte).frame_number ≡ f)
  held = ground (arith, c.held f, t.frames h lt)

  pub take_run : clock_take e (m.frames f).pte m ≡ some (f, taken)
  unfolding clock_take in_heap in_links
  take_run =
      let p = (m.frames f).pte in
      let ne : p ≢ null = ground (arith, no_pte c.tree, held) in
      let live : has_pte m.heap p ≡ true = ground (arith, held) in
      let fr : pte_get_frame_number p m.heap ≡ some (f, m.heap) =
        frame_number_run m.heap p ne live ∙ ap (λ j. some (j, m.heap)) (held.1) in
      rw
        (
          next_run m.links e (t.ring.entry h lt),
          del_run t.ring h lt,
          reset_run m.links e (t.ring.entry h lt),
        )
        (elim (Bool-cases (e == m.links.next e)) [ inl q ↦ rw (q, fr) | inr q ↦ rw (q, fr) ])

  -- The frame of the entry is set aside, and the others keep their ring.
  pub taken-Tracked : ClockTracked f taken
  taken-Tracked = record {
    n = t.n - 1;
    s = without h t.s;
    pos = place_without h t.pos;
    ring = deleted-Ring t.ring h lt;
    frames = λ k l. ground (
      arith,
      t.frames k,
      t.frames (k + 1),
      t.frames h lt,
      t.ring.place k,
      t.ring.place (k + 1),
      t.ring.place h lt,
    );
    members = λ i l ne b. ground (arith, t.members i l, t.ring.place h lt);
    unlinked = λ i l w.
        ground (arith, t.unlinked i l, t.frames h lt, t.frames (before t.n h), prev_of t.ring h lt);
    list = ground (arith, t.ring.next h lt, t.ring.place (after t.n h), t.ring.place h lt);
    hand = λ x pos. absurd (ground (arith, t.frames h lt));
  }

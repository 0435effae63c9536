-- ===== src/Policy/ClockRef.antt =====
-- CSC369_PolicyClockOnRef keeps the ring.
use csc369_os_a.Base.{
  ℕ, ◌+◌, ◌-◌, ◌<◌, ◌≡◌, ◌≢◌, inl, inr, ◌∙◌, refl, sym, ap, true, false, some, ◌==◌, if◌then◌else◌,
  Ptr, null, arith,
}
use csc369_os_a.Base.Returns
use csc369_os_a.Base.Returns.{Returns, returns}
use csc369_os_a.PageTable.{Heap}
use csc369_os_a.PageTable.View.{has_pte}
use csc369_os_a.PageTable.Tree.{no_pte}
use csc369_os_a.Links.{Links, list_add_tail}
use csc369_os_a.Links.Ring.{after, before}
use csc369_os_a.Links.Insert.{inserted, with, place_with, inserted-Ring, add_tail_run}
use csc369_os_a.Machine.{Machine, in_heap, in_links}
use csc369_os_a.Coremap.Consistent.{Consistent}
use csc369_os_a.Coremap.Allocate.{get_frame_at}
use csc369_os_a.Policy.Clock.{clock_on_ref}
use csc369_os_a.Policy.Memory.{SameMemory, SameMemory_but, SameTables}
use csc369_os_a.Policy.Marks.{Marked, Referenced, marked}
use csc369_os_a.Policy.ClockRing.{ClockTracked}
use csc369_os_a.Policy.Unlinked.{cleared, alone, clear_run, alone_run, linked_run, cleared-Ring}

module _ (m : Machine) (i : ℕ) (lt : i < m.frame_count) (busy : (m.frames i).free ≡ false)
    (c : Consistent m.frame_count m) where
  abbrev p : Ptr
  p = (m.frames i).pte

  live : has_pte m.heap p ≡ true
  live = ground (arith, c.held i lt (omega arith) busy)

  mark : (h : Heap) × Marked m.heap p true h
  mark = marked m.heap p (ground (arith, no_pte c.tree, live)) live true

  abbrev m1 : Machine
  m1 = record m { heap = mark.0 }

  abbrev entry : Ptr
  entry = i + 3

  same :
      (l : Links) (a b : Ptr)
      → SameMemory m (record m1 { links = l; clock_list = a; clock_hand = b })
  same l a b = record {
    heap = mark.1.same;
    mm = refl;
    page_table = refl;
    swap = refl;
    frames = refl;
    frame_count = refl;
    memsize = refl;
    policy = refl;
  }

  -- the frame is in the ring
  old_run : m.clock_list ≢ null → m.links.next entry ≢ null → clock_on_ref i m ≡ some (tt, m1)
  unfolding clock_on_ref in_heap in_links
  old_run ln nn =
      let a : (m.clock_list == null) ≡ false = ground arith in
      let b : (m.links.next entry == null) ≡ false = ground arith in
      rw (get_frame_at m i lt, mark.1.run, a, linked_run m.links entry (omega arith), b)

  -- the ring is empty
  empty_run :
      m.clock_list ≡ null
      → clock_on_ref i m
        ≡ some
            (tt, record m1 { links = alone m.links entry; clock_list = entry; clock_hand = entry })
  unfolding clock_on_ref in_heap in_links
  empty_run ln =
      let a : (m.clock_list == null) ≡ true = ground arith in
      rw (
        get_frame_at m i lt,
        mark.1.run,
        a,
        clear_run m.links entry (omega arith),
        alone_run m.links entry (omega arith),
      )

  new_run :
      (l : Links)
      → m.clock_list ≢ null
      → m.links.next entry ≡ null
      → list_add_tail m.clock_list entry (cleared m.links entry) ≡ some (tt, l)
      → clock_on_ref i m ≡ some (tt, record m1 { links = l; clock_hand = entry })
  unfolding clock_on_ref in_heap in_links
  new_run l ln nn add =
      let a : (m.clock_list == null) ≡ false = ground arith in
      let b : (m.links.next entry == null) ≡ true = ground arith in
      rw (
        get_frame_at m i lt,
        mark.1.run,
        a,
        linked_run m.links entry (omega arith),
        b,
        clear_run m.links entry (omega arith),
        add,
      )

  not_in : (x : ℕ) (t : ClockTracked x m) → i ≡ x → (k : ℕ) → k < t.n → t.s k ≢ entry
  not_in x t e k l = ground (arith, t.frames k l)

  -- the ring of one frame
  alone-Tracked :
      (t : ClockTracked i m)
      → t.n ≡ 0
      → ClockTracked m.frame_count
          (record m1 { links = alone m.links entry; clock_list = entry; clock_hand = entry })
  alone-Tracked t z = record {
    n = 1;
    s = λ k. entry;
    pos = λ q. 0;
    ring = record {
      entry = λ k l. omega arith;
      place = λ k l. omega arith;
      next = λ k l. ground arith;
      prev = λ k l. ground arith;
    };
    frames = λ k l. (omega arith, omega arith, omega arith, ground arith);
    members = λ j l ne b. ground (arith, t.members j l);
    unlinked = λ j l f. ground (arith, t.unlinked j l);
    list = inr (omega arith, refl);
    hand = λ e pos. (omega arith, refl);
  }

  -- the ring with the frame before place `h`
  module _ (t : ClockTracked i m) (h : ℕ) (hl : h < t.n) where
    abbrev g : ℕ
    g = if h == 0 then t.n else h

    abbrev links' : Links
    links' = inserted (cleared m.links entry) entry (t.s (g - 1)) (t.s (if g == t.n then 0 else g))

    joined-Tracked :
        m.clock_list ≡ t.s h
        → ClockTracked m.frame_count (record m1 { links = links'; clock_hand = entry })
    joined-Tracked at = record {
      n = t.n + 1;
      s = with g entry t.s;
      pos = place_with g entry t.pos;
      ring =
          inserted-Ring (cleared-Ring entry (not_in i t refl) t.ring) entry (omega arith)
            (not_in i t refl) g (ground arith) (ground arith);
      frames = λ k l. ground (arith, t.frames k, t.frames (k - 1));
      members = λ j l ne b. ground (arith, t.members j l);
      unlinked = λ j l f. ground (arith, t.unlinked j l, t.frames (g - 1));
      list = inr (ground (arith, t.ring.place h hl, not_in i t refl h hl));
      hand = λ e pos. ground arith;
    }

    joined_run :
        m.clock_list ≡ t.s h
        → list_add_tail m.clock_list entry (cleared m.links entry) ≡ some (tt, links')
    joined_run at =
        let a : g - 1 ≡ before t.n h = ground arith in
        let b : (if g == t.n then 0 else g) ≡ h = ground arith in
        ap (λ q. list_add_tail q entry (cleared m.links entry)) at
        ∙ add_tail_run (cleared-Ring entry (not_in i t refl) t.ring) entry (omega arith)
            (not_in i t refl) h hl
        ∙ ap (λ j. some (tt, inserted (cleared m.links entry) entry (t.s j) (t.s h))) (sym a)
        ∙ ap (λ j. some (tt, inserted (cleared m.links entry) entry (t.s (g - 1)) (t.s j))) (sym b)

  abbrev Known : Unit {0} → Machine → Type 0
  Known _ m' = SameMemory m m' × (m'.stats ≡ m.stats) × ClockTracked m.frame_count m'

  -- A frame that was set aside joins the ring.
  pub clock_on_ref_new : ClockTracked i m → Returns Known (clock_on_ref i m)
  clock_on_ref_new t = elim t.list [
    | inl (ln, z) ↦ rw (empty_run ln) (returns (same _ _ _, refl, alone-Tracked t z))
    | inr (l, at) ↦
        let h = t.pos m.clock_list in
        rw
          (new_run (links' t h l) (ground (arith, t.ring.entry h l)) (t.unlinked i lt (inl refl))
            (joined_run t h l (sym at)))
          (returns (same _ _ _, refl, joined-Tracked t h l (sym at)))
  ]

  pub clock_on_ref_old :
      ClockTracked m.frame_count m
      → Returns
          (λ _ m'.
            (m' ≡ record m { heap = m'.heap })
            × SameTables m.heap m'.heap
            × Referenced m.heap p m'.heap
            × ClockTracked m.frame_count m')
          (clock_on_ref i m)
  clock_on_ref_old t =
      let (k, at) = t.members i lt (omega arith) busy in
      rw
        (old_run (ground (arith, t.list, t.ring.entry (t.pos m.clock_list)))
          (ground (arith, t.ring.next (t.pos entry) k, t.ring.entry (after t.n (t.pos entry)))))
        (returns (
          refl,
          mark.1.same,
          (mark.1.reference, mark.1.others),
          record {
            n = t.n;
            s = t.s;
            pos = t.pos;
            ring = t.ring;
            frames = t.frames;
            members = t.members;
            unlinked = t.unlinked;
            list = t.list;
            hand = t.hand;
          },
        ))

  -- It keeps the law of a policy.
  pub clock_on_ref_old-Known : ClockTracked m.frame_count m → Returns Known (clock_on_ref i m)
  clock_on_ref_old-Known t =
      Returns.mono (clock_on_ref_old t)
        λ _ m' (e, tables, _, t'). (SameMemory_but e tables, ap (λ (x : Machine). x.stats) e, t')

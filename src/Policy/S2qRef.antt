-- ===== src/Policy/S2qRef.antt =====
-- CSC369_PolicyS2QOnRef keeps the queues.
use csc369_os_a.Base.{
  List, ◌∷◌, ℕ, ◌+◌, ◌-◌, ◌<◌, ◌≡◌, ◌≢◌, inl, inr, ◌∙◌, refl, sym, ap, subst, Bool, true, false,
  some, not, ◌==◌, if◌then◌else◌, Ptr, null, arith, Bool-cases, pure,
}
use csc369_os_a.Base.Returns
use csc369_os_a.Base.Returns.{Returns, returns}
use csc369_os_a.PageTable.{Heap, pte_is_referenced, pte_set_referenced}
use csc369_os_a.PageTable.View.{has_pte, status}
use csc369_os_a.PageTable.Tree.{no_pte}
use csc369_os_a.Links.{Links, a1_head, am_head, list_add_head, list_add_tail, list_del}
use csc369_os_a.Links.Ring.{after, deleted, del_run}
use csc369_os_a.Links.Insert.{inserted, add_head_run, add_tail_run}
use csc369_os_a.Machine.{Machine, in_heap, in_links}
use csc369_os_a.Coremap.Consistent.{Consistent}
use csc369_os_a.Coremap.Allocate.{get_frame_at}
use csc369_os_a.Policy.S2q.{s2q_on_ref}
use csc369_os_a.Policy.Memory.{SameMemory, SameMemory_but, SameTables, SameTables-refl}
use csc369_os_a.Policy.Marks.{marked, Referenced, referenced_run}
use csc369_os_a.Policy.S2qQueues.{Queue, Queue-kept, S2qTracked}
use csc369_os_a.Policy.S2qOrder.{queue, remove, Ordered}
use csc369_os_a.Policy.S2qMoves.{join_links, join_a1, join_am, leave_a1, leave_am, out_a1, out_am}
use csc369_os_a.Policy.Unlinked.{linked_run}

module _ (m : Machine) (i : ℕ) (lt : i < m.frame_count) (busy : (m.frames i).free ≡ false)
    (c : Consistent m.frame_count m) where
  abbrev p : Ptr
  p = (m.frames i).pte

  abbrev entry : Ptr
  entry = i + 3

  live : (p ≢ null) × (has_pte m.heap p ≡ true)
  live = ground (arith, c.held i lt (omega arith) busy, no_pte c.tree)

  same :
      (h : Heap) (l : Links) → SameTables m.heap h → SameMemory m (record m { heap = h; links = l })
  same h l s = record {
    heap = s;
    mm = refl;
    page_table = refl;
    swap = refl;
    frames = refl;
    frame_count = refl;
    memsize = refl;
    policy = refl;
  }

  -- the queues with another heap
  with_heap :
      {a1 am : List Ptr} (l : Links) (h : Heap)
      → Ordered m.frame_count (record m { links = l }) a1 am
      → Ordered m.frame_count (record m { heap = h; links = l }) a1 am
  with_heap l h (t, o1, o2) = (
    record {
      a1 = Queue-kept t.a1 (λ k a. (refl, refl)) refl (λ j ne. refl);
      am = Queue-kept t.am (λ k a. (refl, refl)) refl (λ j ne. refl);
      apart = t.apart;
      members = t.members;
      unlinked = t.unlinked;
    },
    o1,
    o2,
  )

  abbrev Known : Unit {0} → Machine → Type 0
  Known _ m' = SameMemory m m' × (m'.stats ≡ m.stats) × S2qTracked m.frame_count m'

  -- The first reference to the page in a frame puts the frame at the end of A1.
  new_run :
      (l : Links)
      → m.links.next entry ≡ null
      → list_add_tail a1_head entry m.links ≡ some (tt, l)
      → s2q_on_ref i m ≡ some (tt, record m { links = l })
  unfolding s2q_on_ref in_links
  new_run l z add =
      let b : (m.links.next entry == null) ≡ true = ground arith in
      rw (get_frame_at m i lt, busy, linked_run m.links entry (omega arith), b, add)

  pub s2q_on_ref_new : S2qTracked i m → Returns Known (s2q_on_ref i m)
  s2q_on_ref_new t =
      let q = t.a1 in
      let n : (if q.n == q.n then 0 else q.n) ≡ 0 = ground arith in
      let add : list_add_tail a1_head entry m.links ≡ some (tt, join_links q i q.n) =
        ap (λ e. list_add_tail e entry m.links) (sym q.head_at)
        ∙ add_tail_run q.ring entry (omega arith) (out_a1 i lt busy t) 0 q.some_place
        ∙ ap (λ k. some (tt, inserted m.links entry (q.s (q.n - 1)) (q.s k))) (sym n) in
      rw (new_run (join_links q i q.n) (t.unlinked i lt (inl refl)) add)
        (returns (same m.heap _ (SameTables-refl m.heap), refl, (join_a1 i lt busy t).0))

  abbrev reference : Bool
  reference = (status m.heap p).reference

  -- the reference bit is set
  touch :
      (h : Heap) × SameTables m.heap h
      × Referenced m.heap p h
      × ((if not reference then in_heap (pte_set_referenced p true) else pure tt) m
          ≡ some (tt, record m { heap = h }))
  unfolding in_heap
  touch = elim (Bool-cases reference) [
    | inl b ↦ (m.heap, SameTables-refl m.heap, (b, λ q d. refl), rw b)
    | inr b ↦
        let (h, k) = marked m.heap p live.0 live.1 true in
        (h, k.same, (k.reference, k.others), rw (b, k.run))
  ]

  is_referenced_run : in_heap (pte_is_referenced p) m ≡ some (reference, m)
  unfolding in_heap
  is_referenced_run = rw (referenced_run m.heap p live.0 live.1)

  old_run :
      (l1 l2 : Links)
      → m.links.next entry ≢ null
      → list_del entry m.links ≡ some (tt, l1)
      → list_add_head am_head entry l1 ≡ some (tt, l2)
      → s2q_on_ref i m ≡ some (tt, record m { heap = touch.0; links = l2 })
  unfolding s2q_on_ref in_links
  old_run l1 l2 nn del add =
      let b : (m.links.next entry == null) ≡ false = ground arith in
      rw (
        get_frame_at m i lt,
        busy,
        linked_run m.links entry (omega arith),
        b,
        is_referenced_run,
        touch.3,
        del,
        add,
      )

  -- All but the heap and the links is the same, the reference bit of the frame's entry is set, and
  -- the queues are `a1` and `am`.
  abbrev Moved : List Ptr → List Ptr → Unit {0} → Machine → Type 0
  Moved a1 am _ m' =
      (m' ≡ record m { heap = m'.heap; links = m'.links })
      × SameTables m.heap m'.heap
      × Referenced m.heap p m'.heap
      × Ordered m.frame_count m' a1 am

  -- A frame that has left its queue goes to the front of Am.
  to_front :
      (l1 : Links) (a1 am : List Ptr)
      → m.links.next entry ≢ null
      → list_del entry m.links ≡ some (tt, l1)
      → Ordered i (record m { links = l1 }) a1 am
      → Returns (Moved a1 (entry ∷ am)) (s2q_on_ref i m)
  to_front l1 a1 am nn del (t, o1, o2) =
      let q = t.am in
      let m' = record m { links = l1 } in
      let add : list_add_head am_head entry l1 ≡ some (tt, join_links q i 1) =
        ap (λ e. list_add_head e entry l1) (sym q.head_at)
        ∙ add_head_run q.ring entry (omega arith) (out_am {m = m'} i lt busy t) 0 q.some_place in
      let (t', p1, p2) = with_heap _ touch.0 (join_am {m = m'} i lt busy t) in
      rw (old_run l1 (join_links q i 1) nn del add)
        (returns (refl, touch.1, touch.2, (t', p1 ∙ o1, p2 ∙ ap (λ r. entry ∷ r) o2)))

  -- From place `h` of a queue, where the frame is, to the front of Am.
  from_place :
      {head : Ptr} (q : Queue head m.frame_count m m.links) (h : ℕ) (a1 am : Ptr → List Ptr)
      → h < q.n
      → q.s h ≡ entry
      → Ordered (q.s h - 3) (record m { links = deleted m.links (q.s h) }) (a1 (q.s h)) (am (q.s h))
      → Returns (Moved (a1 entry) (entry ∷ am entry)) (s2q_on_ref i m)
  from_place q h a1 am l at left =
      let del : list_del entry m.links ≡ some (tt, deleted m.links entry) =
        subst (λ e. list_del e m.links ≡ some (tt, deleted m.links e)) at (del_run q.ring h l) in
      let e : q.s h - 3 ≡ i = omega (arith, at) in
      let nn : m.links.next entry ≢ null =
        ground (arith, q.ring.next h l, q.ring.entry (after q.n h)) in
      let left1 =
        subst (λ x. Ordered (q.s h - 3) (record m { links = deleted m.links x }) (a1 x) (am x)) at
          left in
      to_front (deleted m.links entry) (a1 entry) (am entry) nn del (
        subst (λ x. Ordered x (record m { links = deleted m.links entry }) (a1 entry) (am entry)) e
          left1)

  pub s2q_on_ref_old :
      (t : S2qTracked m.frame_count m)
      → Returns
          (λ _ m'.
            (m' ≡ record m { heap = m'.heap; links = m'.links })
            × SameTables m.heap m'.heap
            × Referenced m.heap p m'.heap
            × Ordered m.frame_count m'
                (remove entry (queue t.a1))
                (entry ∷ remove entry (queue t.am)))
          (s2q_on_ref i m)
  s2q_on_ref_old t =
      let a1 : Ptr → List Ptr = λ e. remove e (queue t.a1) in
      let am : Ptr → List Ptr = λ e. remove e (queue t.am) in
      elim (t.members i lt (omega arith) busy) [
        | inl (l, at) ↦
            let h = t.a1.pos entry in
            let pos : 0 < h = ground (arith, t.a1.head_at) in
            from_place t.a1 h a1 am l at (leave_a1 t h pos l)
        | inr (l, at) ↦
            let h = t.am.pos entry in
            let pos : 0 < h = ground (arith, t.am.head_at) in
            from_place t.am h a1 am l at (leave_am t h pos l)
      ]

  -- It keeps the law of a policy.
  pub s2q_on_ref_old-Known : S2qTracked m.frame_count m → Returns Known (s2q_on_ref i m)
  s2q_on_ref_old-Known t = Returns.mono (s2q_on_ref_old t) λ _ m' (e, tables, _, (t', _, _)).
      (SameMemory_but e tables, ap (λ (x : Machine). x.stats) e, t')

-- ===== src/Policy/S2qEvict.antt =====
-- CSC369_PolicyS2QEvict takes a victim from one of the queues.
use csc369_os_a.Base.{
  ℕ, zero, suc, ◌+◌, ◌-◌, ◌/◌, ◌≤◌, ◌<◌, ◌≡◌, ◌≢◌, inl, inr, ◌∙◌, refl, sym, ap, subst, true, false,
  Option, some, ltb, ◌==◌, if◌then◌else◌, Ptr, null, arith, Bool-cases, ◌>>=◌, ◌>>◌, require,
}
use native.Mathlib.Decide.{ℕ_discrete}
use csc369_os_a.Base.Returns.{Returns, returns}
use csc369_os_a.PageTable.{pte_set_referenced, pte_get_frame_number}
use csc369_os_a.PageTable.View.{has_pte}
use csc369_os_a.PageTable.Tree.{no_pte}
use csc369_os_a.Links.{
  Links, a1_head, am_head, container_of, list_del, list_entry_init, list_first_entry,
  list_last_entry, get_next, get_prev,
}
use csc369_os_a.Links.Ring.{after, before, deleted, del_run, prev_of}
use csc369_os_a.Machine.{Machine, in_heap, in_links, get_frame}
use csc369_os_a.Coremap.Consistent.{Consistent}
use csc369_os_a.Coremap.Allocate.{get_frame_at}
use csc369_os_a.Policy.S2q.{s2q_evict, list_count}
use csc369_os_a.Policy.Memory.{SameMemory}
use csc369_os_a.Policy.Marks.{marked, frame_number_run}
use csc369_os_a.Policy.S2qQueues.{Queue, S2qTracked, s2q_stable, s2q_count, a1_count}
use csc369_os_a.Policy.S2qMoves.{leave_a1, leave_am}
use csc369_os_a.Policy.ClockTake.{next_run, reset_run}

list_count_end :
    (fuel : ℕ) (head : Ptr) (i : ℕ) (l : Links)
    → 0 < fuel
    → list_count fuel head head i l ≡ some (i, l)
unfolding list_count
list_count_end zero head i l pos = absurd (omega arith)
list_count_end (suc fuel) head i l pos = ground arith

list_count_step :
    (fuel : ℕ) (head e : Ptr) (i : ℕ) (l : Links)
    → e ≢ head
    → e ≢ null
    → list_count (suc fuel) head e i l ≡ list_count fuel head (l.next e) (i + 1) l
unfolding list_count
list_count_step fuel head e i l d ne =
    let b : (e == head) ≡ false = ground arith in rw (b, next_run l e ne)

-- The loop that counts a queue ends at the head, with the number of entries from place `k` on.
list_count_run :
    {head : Ptr} {x : ℕ} {m : Machine} {l : Links} (q : Queue head x m l) (fuel k i : ℕ)
    → 0 < k
    → k < q.n
    → q.n + 1 ≤ fuel + k
    → list_count fuel (q.s 0) (q.s k) i l ≡ some (i + (q.n - k), l)
list_count_run q zero k i pos lt fit = absurd (omega arith)
list_count_run {l = l} q (suc fuel) k i pos lt fit =
    let d : q.s k ≢ q.s 0 = ground (arith, q.ring.place k lt, q.ring.place 0 q.some_place) in
    list_count_step fuel (q.s 0) (q.s k) i l d (q.ring.entry k lt)
    ∙ ap (λ e. list_count fuel (q.s 0) e (i + 1) l) (q.ring.next k lt)
    ∙ elim (ℕ_discrete (k + 1) q.n) [
      | yes e ↦
          let z : after q.n k ≡ 0 = ground arith in
          let r : i + 1 ≡ i + (q.n - k) = omega arith in
          rw z (list_count_end fuel (q.s 0) (i + 1) l (omega arith) ∙ ap (λ j. some (j, l)) r)
      | no ne ↦
          let z : after q.n k ≡ k + 1 = ground arith in
          let r : i + 1 + (q.n - (k + 1)) ≡ i + (q.n - k) = omega arith in
          rw z (
            list_count_run q fuel (k + 1) (i + 1) (omega arith) (omega arith) (omega arith)
            ∙ ap (λ j. some (j, l)) r)
    ]

-- The number of entries of a queue.
queue_length :
    {head : Ptr} {x : ℕ} {m : Machine} {l : Links} (q : Queue head x m l) (fuel : ℕ)
    → q.n ≤ fuel
    → list_count fuel head (q.s (after q.n 0)) 0 l ≡ some (q.n - 1, l)
queue_length {head} {l = l} q fuel fit =
    ap (λ e. list_count fuel e (q.s (after q.n 0)) 0 l) (sym q.head_at) ∙ elim (ℕ_discrete 1 q.n) [
      | yes e ↦
          let z : after q.n 0 ≡ 0 = ground arith in
          let r : 0 ≡ q.n - 1 = omega arith in
          rw z (list_count_end fuel (q.s 0) 0 l (omega arith) ∙ ap (λ j. some (j, l)) r)
      | no ne ↦
          let z : after q.n 0 ≡ 1 = ground arith in
          let r : 0 + (q.n - 1) ≡ q.n - 1 = omega arith in
          rw z (
            list_count_run q fuel 1 0 (omega arith) (omega (arith, q.some_place)) (omega arith)
            ∙ ap (λ j. some (j, l)) r)
    ]

module _ (m : Machine) (c : Consistent m.frame_count m) (t : S2qTracked m.frame_count m) where
  abbrev Victim : ℕ → Machine → Type 0
  Victim f m' = (f < m.frame_count) × SameMemory m m' × (m'.stats ≡ m.stats) × S2qTracked f m'

  -- the entry that is evicted
  abbrev chosen : Ptr
  chosen =
      if ltb (m.memsize / 10) (t.a1.n - 1)
      then t.a1.s (after t.a1.n 0)
      else t.am.s (before t.am.n 0)

  first_run : list_first_entry a1_head m.links ≡ some (t.a1.s (after t.a1.n 0), m.links)
  unfolding list_first_entry
  first_run =
      let q = t.a1 in
      subst (λ e. get_next e m.links ≡ some (m.links.next e, m.links)) q.head_at
        (next_run m.links (q.s 0) (q.ring.entry 0 q.some_place))
      ∙ ap (λ e. some (e, m.links)) (ap m.links.next (sym q.head_at) ∙ q.ring.next 0 q.some_place)

  last_run : list_last_entry am_head m.links ≡ some (t.am.s (before t.am.n 0), m.links)
  unfolding list_last_entry get_prev
  last_run =
      let q = t.am in
      ap (λ e. some (e, m.links)) (ap m.links.prev (sym q.head_at) ∙ prev_of q.ring 0 q.some_place)

  -- what is left once the entry `e` is chosen
  abbrev finish : Ptr → Machine → Option (ℕ × Machine)
  finish e = do
    j ← require (container_of e)
    in_links (list_del e)
    in_links (list_entry_init e)
    evict_frame ← get_frame j
    in_heap (pte_set_referenced evict_frame.pte false)
    in_heap (pte_get_frame_number evict_frame.pte)

  finish-Victim :
      (e : Ptr)
      → 3 ≤ e
      → e - 3 < m.frame_count
      → (m.frames (e - 3)).free ≡ false
      → list_del e m.links ≡ some (tt, deleted m.links e)
      → S2qTracked (e - 3) (record m { links = deleted m.links e })
      → Returns Victim (finish e m)
  unfolding in_links in_heap
  finish-Victim e big lt busy del left =
      let f = e - 3 in
      let p = (m.frames f).pte in
      let ml = record m { links = deleted m.links e } in
      let held = c.held f lt (omega arith) busy in
      let ne : p ≢ null = ground (arith, no_pte c.tree, held) in
      let live : has_pte m.heap p ≡ true = ground (arith, held) in
      let box : container_of e ≡ some f = ground arith in
      let (h, k) = marked m.heap p ne live false in
      let live' : has_pte h p ≡ true = k.same.ptes p ∙ live in
      let fr : pte_get_frame_number p h ≡ some (f, h) =
        frame_number_run h p ne live' ∙ ap (λ j. some (j, h)) (k.same.frame_number p ∙ held.1) in
      rw (box, del, reset_run m.links e (omega arith), get_frame_at ml f lt, k.run, fr)
        (returns (
          lt,
          record {
            heap = k.same;
            mm = refl;
            page_table = refl;
            swap = refl;
            frames = refl;
            frame_count = refl;
            memsize = refl;
            policy = refl;
          },
          refl,
          s2q_stable f ml (record ml { heap = h }) left
              (record {
                links = refl;
                clock_list = refl;
                clock_hand = refl;
                rr_next = refl;
                frame_count = refl;
                memsize = refl;
                free = λ i ne. refl;
              }),
        ))

  evict_run : s2q_evict m ≡ finish chosen m
  unfolding s2q_evict in_links
  evict_run =
      rw (first_run, queue_length t.a1 (m.frame_count + 1) (a1_count m t))
        (elim (Bool-cases (ltb (m.memsize / 10) (t.a1.n - 1))) [
          | inl b ↦ rw (b, first_run)
          | inr b ↦ rw (b, last_run)
        ])

  pub s2q_evict-Victim :
      0 < m.frame_count
      → ((i : ℕ) → i < m.frame_count → (m.frames i).free ≡ false)
      → Returns Victim (s2q_evict m)
  s2q_evict-Victim pos busy = rw evict_run (elim (Bool-cases (ltb (m.memsize / 10) (t.a1.n - 1))) [
    | inl b ↦
        let q = t.a1 in
        let two : 1 < q.n = ground arith in
        let z : after q.n 0 ≡ 1 = ground arith in
        let (big, lt, _, used) = q.frames 1 (omega arith) two in
        rw (b, z)
          (finish-Victim (q.s 1) big lt used (del_run q.ring 1 two)
            (leave_a1 t 1 (omega arith) two).0)
    | inr b ↦
        let q = t.am in
        let few : t.a1.n - 1 ≤ m.memsize / 10 = ground arith in
        let two : 1 < q.n = omega (arith, s2q_count m t busy, few, c.memsize, pos) in
        let (big, lt, _, used) = q.frames (q.n - 1) (omega arith) (omega arith) in
        rw b (
          finish-Victim (q.s (q.n - 1)) big lt used (del_run q.ring (q.n - 1) (omega arith))
            (leave_am t (q.n - 1) (omega arith) (omega arith)).0)
  ])

-- ===== src/Policy/ClockLoop.antt =====
-- CSC369_PolicyClockEvict finds a victim before its hand has passed an entry twice.
use csc369_os_a.Base.{
  ℕ, zero, suc, ◌+◌, ◌-◌, ◌≤◌, ◌<◌, ◌≡◌, ◌≢◌, inl, inr, ◌∙◌, refl, sym, ap, subst, Bool, true,
  false, some, ltb, if◌then◌else◌, Ptr, null, arith, Bool-cases,
}
use csc369_os_a.Base.Returns.{Returns, returns}
use csc369_os_a.PageTable.{Heap}
use csc369_os_a.PageTable.View.{has_pte, status}
use csc369_os_a.PageTable.Tree.{no_pte}
use csc369_os_a.Links.{container_of}
use csc369_os_a.Links.Ring.{after}
use csc369_os_a.Machine.{Machine, in_heap, in_links}
use csc369_os_a.Coremap.Consistent.{Consistent}
use csc369_os_a.Coremap.Allocate.{get_frame_at}
use csc369_os_a.Policy.Clock.{clock_take, clock_loop, clock_evict, set_hand}
use csc369_os_a.Policy.Memory.{
  SameMemory, SameTables, SameTables-refl, SameTables-trans, Consistent-same,
}
use csc369_os_a.Policy.Marks.{Marked, marked, referenced_run}
use csc369_os_a.Policy.ClockRing.{ClockTracked, clock_count}
use csc369_os_a.Policy.ClockTake.{next_run, take_run, taken-Tracked}

-- the place `d` steps after `start`, in a ring of `n`
abbrev place : ℕ → ℕ → ℕ → ℕ
place n start d = if ltb (start + d) n then start + d else start + d - n

module _ (m : Machine) (c : Consistent m.frame_count m) (t : ClockTracked m.frame_count m) where
  -- the machine with other reference bits, and the hand at place `k`
  abbrev at_place : Heap → ℕ → Machine
  at_place h k = record m { heap = h; clock_hand = t.s k }

  -- the reference bit of the page at place `k`
  abbrev bit_at : Heap → ℕ → Bool
  bit_at h k = (status h (m.frames (t.s k - 3)).pte).reference

  abbrev Victim : ℕ → Machine → Type 0
  Victim f m' = (f < m.frame_count) × SameMemory m m' × (m'.stats ≡ m.stats) × ClockTracked f m'

  module _ (h : Heap) (s : SameTables m.heap h) (k : ℕ) (lt : k < t.n) where
    abbrev mk : Machine
    mk = at_place h k

    abbrev f : ℕ
    f = t.s k - 3

    same_k : SameMemory m mk
    same_k = record {
      heap = s;
      mm = refl;
      page_table = refl;
      swap = refl;
      frames = refl;
      frame_count = refl;
      memsize = refl;
      policy = refl;
    }

    ck : Consistent mk.frame_count mk
    ck = Consistent-same same_k c

    tk : ClockTracked mk.frame_count mk
    tk = record {
      n = t.n;
      s = t.s;
      pos = t.pos;
      ring = t.ring;
      frames = t.frames;
      members = t.members;
      unlinked = t.unlinked;
      list = t.list;
      hand = λ e pos. (omega (arith, t.ring.place k lt, lt), ap t.s (t.ring.place k lt));
    }

    take-Victim : Returns Victim (clock_take (t.s k) (m.frames f).pte mk)
    unfolding tk
    take-Victim = rw (take_run mk ck tk k lt) (
        returns (
          (t.frames k lt).1,
          record {
            heap = s;
            mm = refl;
            page_table = refl;
            swap = refl;
            frames = refl;
            frame_count = refl;
            memsize = refl;
            policy = refl;
          },
          refl,
          taken-Tracked mk ck tk k lt,
        ))

    abbrev p : Ptr
    p = (m.frames f).pte

    live : (p ≢ null) × (has_pte h p ≡ true)
    live = ground (arith, ck.held f, t.frames k lt, no_pte ck.tree)

    mark : (h' : Heap) × Marked h p false h'
    mark = marked h p live.0 live.1 false

    container : container_of (t.s k) ≡ some f
    container = ground (arith, t.frames k lt)

    -- one step of the loop
    loop_step :
        (fuel : ℕ)
        → clock_loop (suc fuel) mk ≡ (
            if bit_at h k
            then clock_loop fuel (at_place mark.0 (after t.n k))
            else clock_take (t.s k) p mk)
    unfolding clock_loop in_heap in_links set_hand
    loop_step fuel =
        rw (container, get_frame_at mk f (t.frames k lt).1, referenced_run h p live.0 live.1)
          (elim (Bool-cases (bit_at h k)) [
            | inl q ↦
                rw (q, mark.1.run, next_run m.links (t.s k) (t.ring.entry k lt), t.ring.next k lt)
            | inr q ↦ rw q
          ])

  -- With fuel for the entries that may still have their bits set, and one more, the loop takes a
  -- victim.
  loop-Victim :
      (fuel start d : ℕ) (h : Heap)
      → SameTables m.heap h
      → start < t.n
      → d ≤ t.n
      → t.n + 1 ≤ fuel + d
      → ((j : ℕ) → j < d → bit_at h (place t.n start j) ≡ false)
      → Returns Victim (clock_loop fuel (at_place h (place t.n start d)))
  loop-Victim zero start d h s a b fit clear = absurd (omega arith)
  loop-Victim (suc fuel) start d h s a b fit clear =
      let k = place t.n start d in
      let lt : k < t.n = ground arith in
      rw (loop_step h s k lt fuel) (elim (Bool-cases (bit_at h k)) [
        | inr q ↦ rw q (take-Victim h s k lt)
        | inl q ↦
            let less : d < t.n = ground (arith, clear 0) in
            let (h', mk) = mark h s k lt in
            let go =
              loop-Victim fuel start (d + 1) h' (SameTables-trans s mk.same) a (omega arith)
                (omega arith)
                (λ j l. ground (
                  arith,
                  clear j,
                  mk.reference,
                  mk.others (m.frames (t.s (place t.n start j) - 3)).pte,
                )) in
            let step : place t.n start (d + 1) ≡ after t.n k = ground arith in
            rw q (subst (λ x. Returns Victim (clock_loop fuel (at_place h' x))) step go)
      ])

  pub clock_evict-Victim :
      0 < m.frame_count
      → ((i : ℕ) → i < m.frame_count → (m.frames i).free ≡ false)
      → Returns Victim (clock_evict m)
  unfolding clock_evict in_links set_hand
  clock_evict-Victim pos busy =
      let some_entry : 0 < t.n = ground (arith, t.members 0 pos (omega arith) (busy 0 pos)) in
      let (l, at) = t.hand refl some_entry in
      let k = t.pos m.clock_hand in
      let ne : m.clock_hand ≢ null = ground (arith, t.ring.entry k l) in
      let nx : m.links.next m.clock_hand ≡ t.s (after t.n k) =
        ap m.links.next (sym at) ∙ t.ring.next k l in
      let inside : after t.n k < t.n = ground arith in
      let first : place t.n (after t.n k) 0 ≡ after t.n k = ground arith in
      let go =
        loop-Victim (m.frame_count + 1) (after t.n k) 0 m.heap (SameTables-refl m.heap) inside
          (omega arith) (omega (arith, clock_count m.frame_count m t))
          (λ j l. absurd (omega arith)) in
      rw (next_run m.links m.clock_hand ne, nx)
        (subst (λ x. Returns Victim (clock_loop (m.frame_count + 1) (at_place m.heap x))) first go)

-- ===== src/Policy/S2qQueues.antt =====
-- The queues A1 and Am of csc369_policy_s2q.c, as rings through their heads.
use csc369_os_a.Base.{
  ℕ, ◌+◌, ◌-◌, ◌≤◌, ◌<◌, ◌≡◌, ◌≢◌, ◌⊎◌, ◌∙◌, ap, true, false, ltb, ◌==◌, if◌then◌else◌, Ptr, null,
  arith,
}
use csc369_os_a.Links.{Links, a1_head, am_head}
use csc369_os_a.Links.Ring.{after, Ring, In}
use csc369_os_a.Machine.{Machine}
use csc369_os_a.Policy.Laws.{SameQueues}
use csc369_os_a.Policy.ClockRing.{injection_le}

-- A queue of frames in use but for frame `x`, with its head at place 0.
pub record Queue (head : Ptr) (x : ℕ) (m : Machine) (l : Links) : Type 0 where
  pub n : ℕ
  pub s : ℕ → Ptr
  pub pos : Ptr → ℕ
  pub ring : Ring l n s pos
  pub some_place : 0 < n
  pub head_at : s 0 ≡ head
  pub frames :
      (k : ℕ)
      → 0 < k
      → k < n
      → (3 ≤ s k) × (s k - 3 < m.frame_count) × (s k - 3 ≢ x) × ((m.frames (s k - 3)).free ≡ false)

-- Every frame in use but `x` is in one of the queues, and the entries of the others are not linked.
pub record S2qTracked (x : ℕ) (m : Machine) : Type 0 where
  pub a1 : Queue a1_head x m m.links
  pub am : Queue am_head x m m.links
  pub apart : (k j : ℕ) → k < a1.n → j < am.n → a1.s k ≢ am.s j
  pub members :
      (i : ℕ)
      → i < m.frame_count
      → i ≢ x
      → (m.frames i).free ≡ false
      → In a1.n a1.s a1.pos (i + 3) ⊎ In am.n am.s am.pos (i + 3)
  pub unlinked :
      (i : ℕ)
      → i < m.frame_count
      → (i ≡ x) ⊎ ((m.frames i).free ≡ true)
      → m.links.next (i + 3) ≡ null

-- A ring is kept where its entries keep their links.
pub Ring-kept :
    {l l' : Links} {n : ℕ} {s : ℕ → Ptr} {pos : Ptr → ℕ}
    → Ring l n s pos
    → ((k : ℕ) → k < n → (l'.next (s k) ≡ l.next (s k)) × (l'.prev (s k) ≡ l.prev (s k)))
    → Ring l' n s pos
Ring-kept {n = n} r h = record {
  entry = r.entry;
  place = r.place;
  next = λ k a. (h k a).0 ∙ r.next k a;
  prev = λ k a. (h (after n k) (ground arith)).1 ∙ r.prev k a;
}

-- A queue in another state, whose frames are the same but for frame `x`.
abbrev pub Queue-kept :
    {head : Ptr} {x : ℕ} {m m' : Machine} {l l' : Links} (q : Queue head x m l)
    → ((k : ℕ) → k < q.n → (l'.next (q.s k) ≡ l.next (q.s k)) × (l'.prev (q.s k) ≡ l.prev (q.s k)))
    → m'.frame_count ≡ m.frame_count
    → ((i : ℕ) → i ≢ x → (m'.frames i).free ≡ (m.frames i).free)
    → Queue head x m' l'
Queue-kept q h fc free = record {
  n = q.n;
  s = q.s;
  pos = q.pos;
  ring = Ring-kept q.ring h;
  some_place = q.some_place;
  head_at = q.head_at;
  frames = λ k p l. ground (arith, q.frames k p l, free (q.s k - 3));
}

pub s2q_stable : (x : ℕ) (m m' : Machine) → S2qTracked x m → SameQueues x m m' → S2qTracked x m'
s2q_stable x m m' t q =
    let same : (e : Ptr) → (m'.links.next e ≡ m.links.next e) × (m'.links.prev e ≡ m.links.prev e) =
      (λ e. (ap (λ (g : Links). g.next e) q.links, ap (λ (g : Links). g.prev e) q.links)) in
    record {
      a1 = Queue-kept t.a1 (λ k l. same (t.a1.s k)) q.frame_count q.free;
      am = Queue-kept t.am (λ k l. same (t.am.s k)) q.frame_count q.free;
      apart = t.apart;
      members = λ i l ne b. ground (arith, t.members i, q.frame_count, q.free i);
      unlinked = λ i l f. ground (arith, t.unlinked i, q.frame_count, q.free i, q.links);
    }

pub s2q_reserve :
    (x : ℕ) (m : Machine)
    → x < m.frame_count
    → (m.frames x).free ≡ true
    → S2qTracked m.frame_count m
    → S2qTracked x m
s2q_reserve x m lt free t = record {
  a1 = record {
    n = t.a1.n;
    s = t.a1.s;
    pos = t.a1.pos;
    ring = t.a1.ring;
    some_place = t.a1.some_place;
    head_at = t.a1.head_at;
    frames = λ k p l. ground (arith, t.a1.frames k p l);
  };
  am = record {
    n = t.am.n;
    s = t.am.s;
    pos = t.am.pos;
    ring = t.am.ring;
    some_place = t.am.some_place;
    head_at = t.am.head_at;
    frames = λ k p l. ground (arith, t.am.frames k p l);
  };
  apart = t.apart;
  members = λ i l ne b. t.members i l (omega arith) b;
  unlinked = λ i l f. ground (arith, t.unlinked i);
}

-- If every frame is in use, the queues hold them all.
pub s2q_count :
    (m : Machine) (t : S2qTracked m.frame_count m)
    → ((i : ℕ) → i < m.frame_count → (m.frames i).free ≡ false)
    → m.frame_count + 2 ≤ t.a1.n + t.am.n
s2q_count m t busy =
    let q = t.a1 in
    let r = t.am in
    omega (
      arith,
      q.some_place,
      r.some_place,
      injection_le (q.n - 1 + (r.n - 1)) m.frame_count
          (λ i.
            if ltb (q.pos (i + 3)) q.n
            then (if q.s (q.pos (i + 3)) == i + 3
                then q.pos (i + 3) - 1
                else q.n - 1 + (r.pos (i + 3) - 1))
            else q.n - 1 + (r.pos (i + 3) - 1))
          (λ i l.
            ground
              (arith, t.members i l (omega arith) (busy i l), q.head_at, r.head_at, q.some_place))
          (λ i j a b e. ground (
            arith,
            t.members i a (omega arith) (busy i a),
            t.members j b (omega arith) (busy j b),
            q.head_at,
            r.head_at,
          )),
    )

-- There are no more entries in A1 than frames.
pub a1_count : (m : Machine) (t : S2qTracked m.frame_count m) → t.a1.n ≤ m.frame_count + 1
a1_count m t =
    let q = t.a1 in
    omega (
      arith,
      injection_le m.frame_count (q.n - 1) (λ k. q.s (k + 1) - 3)
          (λ k l. ground (arith, q.frames (k + 1)))
          (λ j k a b e. ground (
            arith,
            q.frames (j + 1),
            q.frames (k + 1),
            q.ring.place (j + 1),
            q.ring.place (k + 1),
          )),
    )

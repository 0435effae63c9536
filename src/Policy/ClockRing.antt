-- ===== src/Policy/ClockRing.antt =====
-- The ring of frames that csc369_policy_clock.c keeps.
use csc369_os_a.Base.{
  ℕ, zero, suc, ◌+◌, ◌-◌, ◌≤◌, ◌<◌, ◌≡◌, ◌≢◌, ◌⊎◌, inl, ◌∙◌, refl, ap, true, false, ◌==◌,
  if◌then◌else◌, Ptr, null, arith,
}
use csc369_os_a.Links.{Links}
use csc369_os_a.Links.Ring.{after, Ring, In}
use csc369_os_a.Machine.{Machine}
use csc369_os_a.Policy.Laws.{SameQueues, Fresh}

-- The frames in use but for frame `x` form a ring; the entries of the others are not linked. `list`
-- is in the ring, or NULL if it is empty, and so is `hand` once no frame is set aside.
pub record ClockTracked (x : ℕ) (m : Machine) : Type 0 where
  pub n : ℕ
  pub s : ℕ → Ptr
  pub pos : Ptr → ℕ
  pub ring : Ring m.links n s pos
  pub frames :
      (k : ℕ)
      → k < n
      → (3 ≤ s k) × (s k - 3 < m.frame_count) × (s k - 3 ≢ x) × ((m.frames (s k - 3)).free ≡ false)
  pub members : (i : ℕ) → i < m.frame_count → i ≢ x → (m.frames i).free ≡ false → In n s pos (i + 3)
  pub unlinked :
      (i : ℕ)
      → i < m.frame_count
      → (i ≡ x) ⊎ ((m.frames i).free ≡ true)
      → m.links.next (i + 3) ≡ null
  pub list : ((m.clock_list ≡ null) × (n ≡ 0)) ⊎ In n s pos m.clock_list
  pub hand : x ≡ m.frame_count → 0 < n → In n s pos m.clock_hand

pub clock_stable :
    (x : ℕ) (m m' : Machine) → ClockTracked x m → SameQueues x m m' → ClockTracked x m'
clock_stable x m m' t q = record {
  n = t.n;
  s = t.s;
  pos = t.pos;
  ring = record {
    entry = t.ring.entry;
    place = t.ring.place;
    next = λ k l. ap (λ (g : Links). g.next (t.s k)) q.links ∙ t.ring.next k l;
    prev = λ k l. ap (λ (g : Links). g.prev (t.s (after t.n k))) q.links ∙ t.ring.prev k l;
  };
  frames = λ k l. ground (arith, t.frames k l, q.frame_count, q.free (t.s k - 3));
  members = λ i l ne b. ground (arith, t.members i, q.frame_count, q.free i);
  unlinked = λ i l f. ground (arith, t.unlinked i, q.frame_count, q.free i, q.links);
  list = ground (arith, t.list, q.clock_list);
  hand = λ e pos. ground (arith, t.hand, q.clock_hand, q.frame_count);
}

pub clock_start : (m : Machine) → Fresh m → ClockTracked m.frame_count m
clock_start m fresh = record {
  n = 0;
  s = λ k. null;
  pos = λ e. 0;
  ring = record {
    entry = λ k l. absurd (omega arith);
    place = λ k l. absurd (omega arith);
    next = λ k l. absurd (omega arith);
    prev = λ k l. absurd (omega arith);
  };
  frames = λ k l. absurd (omega arith);
  members = λ i l ne b. absurd (ground (arith, fresh.free i));
  unlinked = λ i l f. (fresh.unlinked (i + 3)).0;
  list = inl (fresh.clock_list, refl);
  hand = λ e pos. absurd (omega arith);
}

pub clock_reserve :
    (x : ℕ) (m : Machine)
    → x < m.frame_count
    → (m.frames x).free ≡ true
    → ClockTracked m.frame_count m
    → ClockTracked x m
clock_reserve x m lt free t = record {
  n = t.n;
  s = t.s;
  pos = t.pos;
  ring = t.ring;
  frames = λ k l. ground (arith, t.frames k l);
  members = λ i l ne b. t.members i l (omega arith) b;
  unlinked = λ i l f. ground (arith, t.unlinked i);
  list = t.list;
  hand = λ e pos. absurd (omega arith);
}

-- As many numbers below a bound as there are distinct ones.
pub injection_le :
    (bound n : ℕ) (f : ℕ → ℕ)
    → ((k : ℕ) → k < n → f k < bound)
    → ((j k : ℕ) → j < n → k < n → f j ≡ f k → j ≡ k)
    → n ≤ bound
injection_le zero n f b i = ground (arith, b 0)
injection_le (suc bound) zero f b i = omega arith
injection_le (suc bound) (suc n) f b i = omega (
  arith,
  injection_le bound n (λ k. if f k == bound then f n else f k)
      (λ k l. ground (arith, b k, b n, i k n)) (λ j k a c e. ground (arith, i j k, i j n, i k n)),
)

-- There are no more entries in the ring than frames.
pub clock_count : (x : ℕ) (m : Machine) (t : ClockTracked x m) → t.n ≤ m.frame_count
clock_count x m t =
    injection_le m.frame_count t.n (λ k. t.s k - 3) (λ k l. ground (arith, t.frames k l))
      (λ j k a b e. ground (arith, t.frames j a, t.frames k b, t.ring.place j a, t.ring.place k b))

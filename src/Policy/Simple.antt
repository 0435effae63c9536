-- ===== src/Policy/Simple.antt =====
-- The policies that keep no lists: round robin and random.
use csc369_os_a.Base.{ℕ, ◌<◌, refl, arith}
use csc369_os_a.Base.Returns.{returns}
use csc369_os_a.Machine.{Machine, rr, rand}
use csc369_os_a.Policy.{policy_init, policy_on_ref, policy_evict}
use csc369_os_a.Policy.Rr.{rr_on_ref, rr_evict}
use csc369_os_a.Policy.Rand.{rand_on_ref, rand_evict}
use csc369_os_a.Policy.Memory.{SameMemory, SameTables-refl, SameMemory-refl}
use csc369_os_a.Policy.Laws.{PolicyLaws}

-- The next victim is a frame.
abbrev pub RrTracked : ℕ → Machine → Type 0
RrTracked x m = m.rr_next < m.memsize

pub same_memory :
    (m : Machine) (i n : ℕ) → SameMemory m (record m { rr_next = i; random_calls = n })
same_memory m i n = record {
  heap = SameTables-refl m.heap;
  mm = refl;
  page_table = refl;
  swap = refl;
  frames = refl;
  frame_count = refl;
  memsize = refl;
  policy = refl;
}

-- Round robin.
unfoldable pub rr_laws : PolicyLaws rr
unfolding policy_init policy_on_ref policy_evict rr_on_ref rr_evict
rr_laws = record {
  Tracked = RrTracked;
  stable = λ x m m' t s. omega (arith, s.rr_next, s.memsize);
  start = λ m at pos fresh.
      returns (SameMemory-refl m, refl, omega (arith, fresh.memsize, fresh.rr_next));
  reserve = λ x m lt free t. t;
  evict = λ m at pos c busy t.
      returns (omega (arith, c.memsize), same_memory m _ _, refl, omega (arith, c.memsize));
  on_ref_new = λ x m at lt busy c t. returns (SameMemory-refl m, refl, t);
  on_ref_old = λ x m at lt busy c t. returns (SameMemory-refl m, refl, t);
}

-- Random, whatever `random` returns.
unfoldable pub rand_laws : PolicyLaws rand
unfolding policy_init policy_on_ref policy_evict rand_on_ref rand_evict
rand_laws = record {
  Tracked = λ x m. Unit {0};
  stable = λ x m m' t s. tt;
  start = λ m at pos fresh. returns (SameMemory-refl m, refl, tt);
  reserve = λ x m lt free t. tt;
  evict = λ m at pos c busy t. returns (omega (arith, c.memsize), same_memory m _ _, refl, tt);
  on_ref_new = λ x m at lt busy c t. returns (SameMemory-refl m, refl, tt);
  on_ref_old = λ x m at lt busy c t. returns (SameMemory-refl m, refl, tt);
}

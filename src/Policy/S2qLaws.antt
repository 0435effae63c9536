-- ===== src/Policy/S2qLaws.antt =====
-- Simplified 2Q keeps the laws of a policy.
use csc369_os_a.Base.{◌+◌, ◌≡◌, ◌⊎◌, inl, inr, refl, some, Ptr, update, arith}
use csc369_os_a.Base.Returns.{Returns, returns}
use csc369_os_a.Links.{Links, list_init}
use csc369_os_a.Machine.{Machine, s2q, in_links}
use csc369_os_a.Policy.{policy_init, policy_on_ref, policy_evict}
use csc369_os_a.Policy.S2q.{s2q_init}
use csc369_os_a.Policy.Memory.{SameMemory, SameTables-refl}
use csc369_os_a.Policy.Laws.{PolicyLaws, Fresh}
use csc369_os_a.Policy.S2qQueues.{Queue, S2qTracked, s2q_stable, s2q_reserve}
use csc369_os_a.Policy.S2qRef.{s2q_on_ref_new, s2q_on_ref_old-Known}
use csc369_os_a.Policy.S2qEvict.{s2q_evict-Victim}

-- the links with two empty queues
abbrev two_heads : Links → Links
two_heads l = record {
  next = update (update l.next 1 1) 2 2;
  prev = update (update l.prev 1 1) 2 2;
}

init_run : (m : Machine) → s2q_init m ≡ some (tt, record m { links = two_heads m.links })
unfolding s2q_init list_init in_links
init_run m = refl

module _ (m : Machine) (fresh : Fresh m) where
  abbrev m' : Machine
  m' = record m { links = two_heads m.links }

  abbrev empty : (head : Ptr) → (head ≡ 1) ⊎ (head ≡ 2) → Queue head m.frame_count m' m'.links
  empty head e = record {
    n = 1;
    s = λ k. head;
    pos = λ q. 0;
    ring = record {
      entry = λ k l. omega (arith, e);
      place = λ k l. omega arith;
      next = λ k l. ground (arith, e);
      prev = λ k l. ground (arith, e);
    };
    some_place = omega arith;
    head_at = refl;
    frames = λ k p l. absurd (omega arith);
  }

  start-Tracked : S2qTracked m.frame_count m'
  start-Tracked = record {
    a1 = empty 1 (inl refl);
    am = empty 2 (inr refl);
    apart = λ k j a b. omega arith;
    members = λ i l ne b. absurd (ground (arith, fresh.free i));
    unlinked = λ i l f. ground (arith, fresh.unlinked (i + 3));
  }

  pub init-Known :
      Returns
        (λ _ m'. SameMemory m m' × (m'.stats ≡ m.stats) × S2qTracked m.frame_count m')
        (s2q_init m)
  init-Known = rw (init_run m) (
      returns (
        record {
          heap = SameTables-refl m.heap;
          mm = refl;
          page_table = refl;
          swap = refl;
          frames = refl;
          frame_count = refl;
          memsize = refl;
          policy = refl;
        },
        refl,
        start-Tracked,
      ))

-- Simplified 2Q.
unfoldable pub s2q_laws : PolicyLaws s2q
unfolding policy_init policy_on_ref policy_evict
s2q_laws = record {
  Tracked = S2qTracked;
  stable = s2q_stable;
  start = λ m at pos fresh. init-Known m fresh;
  reserve = s2q_reserve;
  evict = λ m at pos c busy t. s2q_evict-Victim m c t pos busy;
  on_ref_new = λ x m at lt busy c t. s2q_on_ref_new m x lt busy c t;
  on_ref_old = λ x m at lt busy c t. s2q_on_ref_old-Known m x lt busy c t;
}

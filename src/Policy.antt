-- ===== src/Policy.antt =====
-- The replacement policies, and the table through which the simulator calls them
-- (A2-zengzix2/src/csc369_policy.h, the array CSC369_POLICIES of memsim.c).
pub mod Rr
pub mod Rand
pub mod Clock
pub mod S2q
pub mod Memory
pub mod Laws
pub mod Simple
pub mod ClockRing
pub mod Marks
pub mod Unlinked
pub mod ClockRef
pub mod ClockTake
pub mod ClockLoop
pub mod ClockLaws
pub mod S2qQueues
pub mod S2qOrder
pub mod S2qMoves
pub mod S2qRef
pub mod S2qEvict
pub mod S2qLaws
pub mod All
mod Tests
use csc369_os_a.Base.{ℕ}
use csc369_os_a.Machine.{Policy, rand, rr, clock, s2q, Sim}
use Rr.{rr_on_ref, rr_evict}
use Rand.{rand_on_ref, rand_evict}
use Clock.{clock_init, clock_cleanup, clock_on_ref, clock_evict}
use S2q.{s2q_init, s2q_cleanup, s2q_on_ref, s2q_evict}
use csc369_os_a.Base.{pure}

-- CSC369_PolicyInit of the policy
unfoldable pub policy_init : Policy → Sim (Unit {0})
policy_init rand = pure tt
policy_init rr = pure tt
policy_init clock = clock_init
policy_init s2q = s2q_init

-- CSC369_PolicyOnRef of the policy, on the frame of a number
unfoldable pub policy_on_ref : Policy → ℕ → Sim (Unit {0})
policy_on_ref rand = rand_on_ref
policy_on_ref rr = rr_on_ref
policy_on_ref clock = clock_on_ref
policy_on_ref s2q = s2q_on_ref

-- CSC369_PolicyEvict of the policy
unfoldable pub policy_evict : Policy → Sim ℕ
policy_evict rand = rand_evict
policy_evict rr = rr_evict
policy_evict clock = clock_evict
policy_evict s2q = s2q_evict

-- CSC369_PolicyCleanup of the policy
unfoldable pub policy_cleanup : Policy → Sim (Unit {0})
unfolding clock_cleanup s2q_cleanup
policy_cleanup rand = pure tt
policy_cleanup rr = pure tt
policy_cleanup clock = clock_cleanup
policy_cleanup s2q = s2q_cleanup

-- ===== src/Policy/ClockLaws.antt =====
-- The clock keeps the laws of a policy.
use csc369_os_a.Machine.{clock}
use csc369_os_a.Base.Returns.{returns}
use csc369_os_a.Policy.{policy_init, policy_on_ref, policy_evict}
use csc369_os_a.Policy.Clock.{clock_init}
use csc369_os_a.Policy.Memory.{SameMemory-refl}
use csc369_os_a.Policy.Laws.{PolicyLaws}
use csc369_os_a.Policy.ClockRing.{ClockTracked, clock_stable, clock_start, clock_reserve}
use csc369_os_a.Policy.ClockRef.{clock_on_ref_new, clock_on_ref_old-Known}
use csc369_os_a.Policy.ClockLoop.{clock_evict-Victim}
use csc369_os_a.Base.{refl}

-- The clock.
unfoldable pub clock_laws : PolicyLaws clock
unfolding policy_init policy_on_ref policy_evict clock_init
clock_laws = record {
  Tracked = ClockTracked;
  stable = clock_stable;
  start = λ m at pos fresh. returns (SameMemory-refl m, refl, clock_start m fresh);
  reserve = clock_reserve;
  evict = λ m at pos c busy t. clock_evict-Victim m c t pos busy;
  on_ref_new = λ x m at lt busy c t. clock_on_ref_new m x lt busy c t;
  on_ref_old = λ x m at lt busy c t. clock_on_ref_old-Known m x lt busy c t;
}

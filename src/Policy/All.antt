-- ===== src/Policy/All.antt =====
-- Every policy of CSC369_POLICY_NAMES keeps the laws.
use csc369_os_a.Machine.{Policy, rand, rr, clock, s2q}
use csc369_os_a.Policy.Laws.{PolicyLaws}
use csc369_os_a.Policy.Simple.{rr_laws, rand_laws}
use csc369_os_a.Policy.ClockLaws.{clock_laws}
use csc369_os_a.Policy.S2qLaws.{s2q_laws}

pub policy_laws : (p : Policy) → PolicyLaws p
policy_laws rand = rand_laws
policy_laws rr = rr_laws
policy_laws clock = clock_laws
policy_laws s2q = s2q_laws

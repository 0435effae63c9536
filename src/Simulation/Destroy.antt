-- ===== src/Simulation/Destroy.antt =====
-- CSC369_SimulationDestroy, and the check for leaks of `main` in A2-zengzix2/src/memsim.c. The trace,
-- the coremap, physical memory and the swap space are not blocks of the tracked allocator; that they
-- are given back to the C library, and the swap file removed, changes nothing here.
use csc369_os_a.Base.{ℕ, ◌≡◌, refl, some, ◌>>=◌, ◌>>◌, gets}
use csc369_os_a.Base.Returns
use csc369_os_a.Base.Returns.{Returns, returns}
use csc369_os_a.Machine.{Machine, Policy, rand, rr, clock, s2q, Sim, in_heap, in_links}
use csc369_os_a.Policy.{policy_cleanup}
use csc369_os_a.Coremap.Consistent.{Consistent, Owns}
use csc369_os_a.Mm.{mm_destroy}
use csc369_os_a.Mm.Destroy.{IsClean, mm_destroy-IsClean}

unfoldable pub simulation_destroy : Sim (Unit {0})
unfolding mm_destroy policy_cleanup
simulation_destroy = do
  m ← gets (λ m. m)
  in_heap (mm_destroy m.heap.next m.mm m.page_table)
  policy_cleanup m.policy

policy_cleanup_run : (p : Policy) (m : Machine) → policy_cleanup p m ≡ some (tt, m)
unfolding policy_cleanup in_links
policy_cleanup_run rand m = refl
policy_cleanup_run rr m = refl
policy_cleanup_run clock m = refl
policy_cleanup_run s2q m = refl

-- CSC369_SimulationDestroy of a consistent simulation that owns the live blocks of the allocator
-- faults nowhere and leaves no live block, under each of the four policies.
pub simulation_destroy-IsClean :
    (m : Machine) {x : ℕ}
    → Consistent x m
    → Owns m
    → Returns (λ _ m'. IsClean m'.heap) (simulation_destroy m)
unfolding simulation_destroy in_heap
simulation_destroy-IsClean m c o =
    let (_, h, run, clean) = Returns.result (mm_destroy-IsClean c.tree o) in
    rw (run, policy_cleanup_run m.policy (record m { heap = h })) (returns clean)

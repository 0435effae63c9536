-- ===== src/Simulation/Tests.antt =====
-- Runs of the simulator of csc369_simulation.c on a small trace, and the states
-- that other tests start from.
use csc369_os_a.Base.{
  suc, length, put_back, ℕ, ◌≡◌, refl, Bool, true, false, some, List, [], ◌∷◌, arith,
}
use csc369_os_a.Base.Returns.{Returns}
use csc369_os_a.Kmalloc.{malloc_init}
use csc369_os_a.Machine.{MemAccess, store, load, Machine, rr, clock}
use csc369_os_a.Coremap.Consistent.{Consistent, Owns}
use csc369_os_a.Policy.Simple.{rr_laws}
use csc369_os_a.Mm.Destroy.{IsClean}
use csc369_os_a.PageTable.Destroy.{page_table_destroy}
use csc369_os_a.PageTable.Emptied.{Emptied, page_table_destroy-Emptied}
use csc369_os_a.Trace.{Trace}
use csc369_os_a.Simulation.Loop.{paired, simulation_run_trace}
use csc369_os_a.Simulation.Delivered.{deliver, simulation_run_trace-deliver}
use csc369_os_a.Simulation.Destroy.{simulation_destroy, simulation_destroy-IsClean}
use csc369_os_a.Simulation.{simulation_create, simulation_run, execute_mem_instruction}
use csc369_os_a.Simulation.Flat.{Agrees, flat_access}
use csc369_os_a.Simulation.Memory.{Executed, execute_mem_instruction-Executed}
use csc369_os_a.Simulation.Run.{IsTrace, Ready, Ran, flat_run, simulation_run-Ran}
use csc369_os_a.Simulation.Made.{IsNew, malloc_init-IsNew}
use csc369_os_a.Simulation.Create.{Fits, simulation_create-Ready, simulation_run-flat_run}

abbrev st : ℕ → ℕ → MemAccess
st a v = record { type = store; virtual_address = a; value = v }

abbrev ld : ℕ → ℕ → MemAccess
ld a v = record { type = load; virtual_address = a; value = v }

-- three pages in turn, in two frames, and one that is only read
abbrev trace : List MemAccess
trace =
    st 0x1003 7
    ∷ st 0x2004 8
    ∷ st 0x3005 9
    ∷ ld 0x1003 7
    ∷ ld 0x2004 8
    ∷ ld 0x1003 7
    ∷ ld 0x3005 9
    ∷ ld 0x1fff000000 0
    ∷ ld 0x3005 4
    ∷ []

abbrev trace_fits : Fits malloc_init 2 10 160 9
trace_fits = record {
  frames = omega arith;
  physmem = omega arith;
  bitmap = omega arith;
  file = omega arith;
  heap = omega arith;
  swap = omega arith;
}

abbrev trace-IsTrace : IsTrace trace
trace-IsTrace = (
  omega arith,
  omega arith,
  (
    omega arith,
    omega arith,
    (
      omega arith,
      omega arith,
      (
        omega arith,
        omega arith,
        (
          omega arith,
          omega arith,
          (
            omega arith,
            omega arith,
            (omega arith, omega arith, (omega arith, omega arith, (omega arith, omega arith, tt))),
          ),
        ),
      ),
    ),
  ),
)

abbrev expected : List Bool
expected = true ∷ true ∷ true ∷ true ∷ true ∷ true ∷ true ∷ true ∷ false ∷ []

simulation_run-flat_run_example :
    (m m' : Machine) × (simulation_create malloc_init 2 10 clock (λ i. i) 160 ≡ some m)
    × (simulation_run trace m ≡ some (flat_run trace (λ _. 0), m'))
    × Consistent m'.frame_count m'
    × (IsNew malloc_init → Owns m')
simulation_run-flat_run_example =
    simulation_run-flat_run clock malloc_init 2 10 160 (λ i. i) trace trace_fits trace-IsTrace

expected_test : flat_run trace (λ _. 0) ≡ expected
unfolding flat_run flat_access
expected_test = refl

simulation_create-Ready_example :
    (m : Machine) × (simulation_create malloc_init 2 10 rr (λ i. i) 160 ≡ some m)
    × Ready rr_laws 9 m
    × Agrees m (λ _. 0)
    × (IsNew malloc_init → Owns m)
simulation_create-Ready_example =
    simulation_create-Ready rr_laws malloc_init 2 10 160 9 (λ i. i) trace_fits

-- a new simulation with two frames, under round robin
abbrev pub start : Machine
start = (simulation_create-Ready rr_laws malloc_init 2 10 160 9 (λ i. i) trace_fits).0

pub start-Ready : Ready rr_laws 9 start
start-Ready = (simulation_create-Ready rr_laws malloc_init 2 10 160 9 (λ i. i) trace_fits).2

pub start-Agrees : Agrees start (λ _. 0)
start-Agrees = (simulation_create-Ready rr_laws malloc_init 2 10 160 9 (λ i. i) trace_fits).3

simulation_run-Ran_example :
    Returns (Ran start 9 (flat_run trace (λ _. 0))) (simulation_run trace start)
simulation_run-Ran_example =
    simulation_run-Ran rr_laws trace start (λ _. 0) trace-IsTrace start-Ready start-Agrees

execute_mem_instruction-Executed_example :
    Returns
      (Executed rr_laws.Tracked start (st 0x1003 7) (λ _. 0))
      (execute_mem_instruction (st 0x1003 7) start)
execute_mem_instruction-Executed_example =
    execute_mem_instruction-Executed rr_laws start (st 0x1003 7) (λ _. 0) start-Ready.policy
      start-Ready.some_frames start-Ready.consistent start-Ready.tracked (omega arith) (omega arith)
      (omega (arith, start-Ready.heap_room)) (omega (arith, start-Ready.swap_room)) start-Agrees

-- the simulation of the trace at its end
abbrev ended : Machine
ended =
    (simulation_run-flat_run clock malloc_init 2 10 160 (λ i. i) trace trace_fits trace-IsTrace).1

ended-Consistent : Consistent ended.frame_count ended
ended-Consistent =
    (simulation_run-flat_run clock malloc_init 2 10 160 (λ i. i) trace trace_fits trace-IsTrace).4

ended-Owns : Owns ended
ended-Owns =
    (simulation_run-flat_run clock malloc_init 2 10 160 (λ i. i) trace trace_fits trace-IsTrace).5
      malloc_init-IsNew

simulation_destroy-IsClean_example : Returns (λ _ m'. IsClean m'.heap) (simulation_destroy ended)
simulation_destroy-IsClean_example = simulation_destroy-IsClean ended ended-Consistent ended-Owns

page_table_destroy-Emptied_example :
    Returns (λ _. Emptied ended.mm) (page_table_destroy ended.heap.next ended.page_table ended.heap)
page_table_destroy-Emptied_example = page_table_destroy-Emptied ended-Consistent.tree ended-Owns

abbrev two_lines : Trace
two_lines = record {
  file = record {
    unread = b'=' ∷ b'\n' ∷ b'L' ∷ b' ' ∷ b'4' ∷ b' ' ∷ b'0' ∷ b'\n' ∷ [];
    eof = false;
  };
  buffer = [];
  line_number = 0;
}

simulation_run_trace-deliver_example :
    Returns
      (λ accesses t'.
        (m : Machine)
        → simulation_run_trace (st 0 0) (paired two_lines m)
          ≡ put_back (paired t') (simulation_run accesses m))
      (deliver (suc (length two_lines.file.unread)) (st 0 0) two_lines)
simulation_run_trace-deliver_example = simulation_run_trace-deliver (st 0 0) two_lines

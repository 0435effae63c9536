-- ===== src/Simulation/Loop.antt =====
-- CSC369_SimulationRun of A2-zengzix2/src/csc369_simulation.c: the loop over CSC369_TraceRead.
use csc369_os_a.Base.{
  ℕ, zero, suc, Bool, true, false, List, [], ◌∷◌, length, M, pure, fault, ◌>>=◌, put_back,
}
use csc369_os_a.Machine.{MemAccess, Machine, Sim}
use csc369_os_a.Trace.{Trace, T, trace_read}
use csc369_os_a.Simulation.{execute_mem_instruction}

-- struct csc369_simulation_t: the trace, and the objects that a Machine holds
pub record Simulation : Type 0 where
  pub trace : Trace
  pub machine : Machine

abbrev pub paired : Trace → Machine → Simulation
paired t m = record { trace = t; machine = m }

abbrev pub in_trace : {A : Type 0} → T A → M Simulation A
in_trace f s = put_back (λ t. record s { trace = t }) (f s.trace)

abbrev pub in_machine : {A : Type 0} → Sim A → M Simulation A
in_machine f s = put_back (λ m. record s { machine = m }) (f s.machine)

-- the body of the loop, on what CSC369_TraceRead returned; `next` runs the loop again
abbrev pub run_body :
    (MemAccess → M Simulation (List Bool)) → Bool × MemAccess → M Simulation (List Bool)
run_body next (false, access) = pure []
run_body next (true, access) = do
  good ← in_machine (execute_mem_instruction access)
  rest ← next access
  pure (good ∷ rest)

-- the loop, a fault when `fuel` runs out
unfoldable pub run_loop : ℕ → MemAccess → M Simulation (List Bool)
unfolding trace_read execute_mem_instruction
run_loop zero access = fault
run_loop (suc fuel) access = do read ← in_trace (trace_read access); run_body (run_loop fuel) read

-- CSC369_SimulationRun, from what `mem_access` holds at first, with the answer of each access
unfoldable pub simulation_run_trace : MemAccess → M Simulation (List Bool)
unfolding run_loop
simulation_run_trace mem_access s = run_loop (suc (length s.trace.file.unread)) mem_access s

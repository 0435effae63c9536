-- ===== src/Simulation/Delivered.antt =====
-- CSC369_SimulationRun executes the accesses that CSC369_TraceRead delivers, and ends.
use csc369_os_a.Base.{
  ◌∙◌, ℕ, zero, suc, ◌<◌, ◌≡◌, refl, ap, Bool, true, false, Option, none, some, List, [], ◌∷◌,
  length, pure, fault, and_then, ◌>>=◌, put_back, arith,
}
use csc369_os_a.Base.Returns
use csc369_os_a.Base.Returns.{Returns, returns}
use csc369_os_a.Machine.{MemAccess, Machine}
use csc369_os_a.Trace.{Trace, T, trace_read}
use csc369_os_a.Trace.Read.{Read, trace_read-Read}
use csc369_os_a.Simulation.{execute_mem_instruction, simulation_run}
use csc369_os_a.Simulation.Loop.{paired, run_body, run_loop, simulation_run_trace}

abbrev pub deliver_body : (MemAccess → T (List MemAccess)) → Bool × MemAccess → T (List MemAccess)
deliver_body next (false, access) = pure []
deliver_body next (true, access) = do rest ← next access; pure (access ∷ rest)

-- the accesses of a file, up to the first call of CSC369_TraceRead that returns -1
unfoldable pub deliver : ℕ → MemAccess → T (List MemAccess)
unfolding trace_read
deliver zero access = fault
deliver (suc fuel) access = do read ← trace_read access; deliver_body (deliver fuel) read

-- The loop from here on runs `accesses` and leaves the reader `t'`.
abbrev pub Executes : ℕ → MemAccess → Trace → List MemAccess → Trace → Type 0
Executes fuel old t accesses t' =
    (m : Machine)
    → run_loop fuel old (paired t m) ≡ put_back (paired t') (simulation_run accesses m)

abbrev ExecutesBody : ℕ → Bool × MemAccess → Trace → List MemAccess → Trace → Type 0
ExecutesBody fuel read t accesses t' =
    (m : Machine)
    → run_body (run_loop fuel) read (paired t m) ≡ put_back (paired t') (simulation_run accesses m)

abbrev answer_then : Bool → Option (List Bool × Machine) → Option (List Bool × Machine)
answer_then good rest = and_then rest λ answers. pure (good ∷ answers)

finish :
    (good : Bool) (t' : Trace) (o : Option (List Bool × Machine))
    → and_then (put_back (paired t') o) (λ rest. pure (good ∷ rest))
      ≡ put_back (paired t') (and_then o (λ rest. pure (good ∷ rest)))
finish good t' none = refl
finish good t' (some (answers, m')) = refl

after_execute :
    (fuel : ℕ) (a : MemAccess) (t t' : Trace) (accesses : List MemAccess)
    (o : Option (Bool × Machine))
    → Executes fuel a t accesses t'
    → and_then (put_back (paired t) o) (λ good. run_loop fuel a >>= λ rest. pure (good ∷ rest))
      ≡ put_back
          (paired t')
          (and_then o (λ good. simulation_run accesses >>= λ rest. pure (good ∷ rest)))
after_execute fuel a t t' accesses none x = refl
after_execute fuel a t t' accesses (some (good, m1)) x =
    ap (λ o. and_then o (λ rest. pure (good ∷ rest))) (x m1)
    ∙ finish good t' (simulation_run accesses m1)

body-Executes :
    (fuel : ℕ) (t t1 : Trace) (good : Bool) (a : MemAccess)
    → Read t good a t1
    → (length t1.file.unread < length t.file.unread
        → Returns (Executes fuel a t1) (deliver fuel a t1))
    → Returns (ExecutesBody fuel (good, a) t1) (deliver_body (deliver fuel) (good, a) t1)
unfolding simulation_run
body-Executes fuel t t1 false a r next = returns λ m. refl
body-Executes fuel t t1 true a r next =
    let (_, shorter, _) = r.accepted refl in
    Returns.bind (next shorter) λ accesses t' x.
      returns λ m. after_execute fuel a t1 t' accesses (execute_mem_instruction a m) x

deliver-Executes :
    (fuel : ℕ) (old : MemAccess) (t : Trace)
    → length t.file.unread < fuel
    → Returns (Executes fuel old t) (deliver fuel old t)
unfolding deliver run_loop
deliver-Executes zero old t l = absurd (omega arith)
deliver-Executes (suc fuel) old t l =
    let ((good, a), t1, e, r) = Returns.result (trace_read-Read old t) in
    rw e (
      Returns.mono
        (body-Executes fuel t t1 good a r
          (λ shorter. deliver-Executes fuel a t1 (omega (arith, shorter))))
        (λ accesses t' x m. rw e (x m)))

-- CSC369_SimulationRun on any trace file is the execution, in order, of the accesses that
-- CSC369_TraceRead delivers before it first returns -1: the calls of CSC369_TraceRead end, and the
-- answers, the machine and a fault of the run are those of the execution.
pub simulation_run_trace-deliver :
    (old : MemAccess) (t : Trace)
    → Returns
        (λ accesses t'.
          (m : Machine)
          → simulation_run_trace old (paired t m)
            ≡ put_back (paired t') (simulation_run accesses m))
        (deliver (suc (length t.file.unread)) old t)
unfolding simulation_run_trace
simulation_run_trace-deliver old t =
    deliver-Executes (suc (length t.file.unread)) old t (omega arith)

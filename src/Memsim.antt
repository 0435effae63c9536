-- ===== src/Memsim.antt =====
-- A2-zengzix2/src/memsim.c: the command line, and the program from its start to its check for
-- leaks. What getopt returns, call by call, is an argument, and so is what fopen finds at a path.
pub mod Options
pub mod Program
mod Tests
use csc369_os_a.Base.{
  ℕ, zero, suc, Bool, true, false, ◌&&◌, ◌||◌, Option, none, some, List, [], ◌∷◌, ◌==◌,
  if◌then◌else◌, null, put_back,
}
use csc369_os_a.Kmalloc.{Kmalloc, malloc_init, current_bytes, current_count, is_leak_free}
use csc369_os_a.Machine.{MemAccess, Machine, Policy, rand, rr, clock, s2q}
use csc369_os_a.Trace.{Trace, trace_create}
use csc369_os_a.Trace.Scan.{strtoul}
use csc369_os_a.Simulation.{simulation_create}
use csc369_os_a.Simulation.Loop.{Simulation, paired, simulation_run_trace}
use csc369_os_a.Simulation.Destroy.{simulation_destroy}

abbrev pub Text : Type 0
Text = List ℕ

-- `strcmp (a, b) == 0`
abbrev pub same_text : Text → Text → Bool
same_text [] [] = true
same_text (c ∷ cs) (d ∷ ds) = c == d && same_text cs ds
same_text _ _ = false

-- the names of CSC369_POLICIES, in order
abbrev pub policies : List (Text × Policy)
policies =
    (b'R' ∷ b'a' ∷ b'n' ∷ b'd' ∷ [], rand)
    ∷ (b'R' ∷ b'R' ∷ [], rr)
    ∷ (b'C' ∷ b'l' ∷ b'o' ∷ b'c' ∷ b'k' ∷ [], clock)
    ∷ (b'S' ∷ b'2' ∷ b'Q' ∷ [], s2q)
    ∷ []

abbrev pub find_policy : Text → List (Text × Policy) → Option Policy
find_policy name [] = none
find_policy name ((n, p) ∷ rest) = if same_text n name then some p else find_policy name rest

-- GetReplacementAlgorithm; `none` is NULL
unfoldable pub get_replacement_algorithm : Text → Option Policy
get_replacement_algorithm name = find_policy name policies

-- The variables of CreateSimulationFromArgs; `none` is NULL.
pub record Args : Type 0 where
  pub memsize : ℕ
  pub swapsize : ℕ
  pub trace_file : Option Text
  pub replacement_alg : Option Text

abbrev pub no_args : Args
no_args = record { memsize = 0; swapsize = 0; trace_file = none; replacement_alg = none }

-- The switch on what getopt returned, with `optarg`; `none` shows the usage and returns NULL.
unfoldable pub set_option : ℕ → Text → Args → Option Args
unfolding strtoul
set_option opt optarg args =
    if opt == b'f'
    then some (record args { trace_file = some optarg })
    else if opt == b'm'
    then some (record args { memsize = strtoul 10 optarg })
    else if opt == b'a'
    then some (record args { replacement_alg = some optarg })
    else if opt == b's'
    then some (record args { swapsize = strtoul 10 optarg })
    else none

-- the loop over getopt, until it returns -1
unfoldable pub parse_options : List (ℕ × Text) → Args → Option Args
unfolding set_option
parse_options [] args = some args
parse_options ((opt, optarg) ∷ rest) args = elim (set_option opt optarg args) [
  | none ↦ none
  | some next ↦ parse_options rest next
]

-- the four options, if each was given
unfoldable pub required : Args → Option (Text × ℕ × ℕ × Text)
required args = elim args.trace_file [
  | none ↦ none
  | some file ↦ elim args.replacement_alg [
    | none ↦ none
    | some alg ↦
        if args.memsize == 0 || args.swapsize == 0
        then none
        else some (file, args.memsize, args.swapsize, alg)
  ]
]

-- What CreateSimulationFromArgs comes to: NULL, an abort at the assert that there is a policy, or a
-- simulation.
pub data Start : Type 0 where
  null_simulation aborted : Start
  started : Simulation → Start

-- What is outside the program: the files, the sequence that `random` returns, the limit of the size
-- of the swap file.
pub record World : Type 0 where
  pub files : Text → Option Text
  pub random : ℕ → ℕ
  pub limit : ℕ

abbrev pub with_machine : Trace → Option Machine → Start
with_machine t none = null_simulation
with_machine t (some m) = started (paired t m)

abbrev pub with_trace : World → Kmalloc → ℕ → ℕ → Policy → Option Trace → Start
with_trace w k memsize swapsize policy none = null_simulation
with_trace w k memsize swapsize policy (some t) =
    with_machine t (simulation_create k memsize swapsize policy w.random w.limit)

-- CSC369_SimulationCreate: the assert on the policy, the trace, and the rest
unfoldable pub create : World → Kmalloc → Text → ℕ → ℕ → Option Policy → Start
create w k file memsize swapsize none = aborted
create w k file memsize swapsize (some policy) =
    with_trace w k memsize swapsize policy (trace_create (w.files file))

abbrev pub from_required : World → Kmalloc → Option (Text × ℕ × ℕ × Text) → Start
from_required w k none = null_simulation
from_required w k (some (file, memsize, swapsize, alg)) =
    create w k file memsize swapsize (get_replacement_algorithm alg)

abbrev pub from_args : World → Kmalloc → Option Args → Start
from_args w k none = null_simulation
from_args w k (some args) = from_required w k (required args)

-- CreateSimulationFromArgs
unfoldable pub create_simulation_from_args : World → Kmalloc → List (ℕ × Text) → Start
create_simulation_from_args w k options = from_args w k (parse_options options no_args)

-- How `main` ends: without a simulation, by an abort, or with the answers of the run and whether
-- the check found no leak.
pub data Outcome : Type 0 where
  no_simulation crashed : Outcome
  finished : List Bool → Bool → Outcome

-- the check for leaks
abbrev pub report : List Bool → Option Bool → Outcome
report answers none = crashed
report answers (some clean) = finished answers clean

abbrev pub after_destroy : ℕ → ℕ → List Bool → Option (Unit {0} × Machine) → Outcome
after_destroy start_mallocs start_bytes answers none = crashed
after_destroy start_mallocs start_bytes answers (some (_, m)) =
    report answers (is_leak_free start_mallocs start_bytes m.heap.kmalloc)

-- the assert of CSC369_MallocCurrentBytes behind the run, then the destruction; what it returns is
-- only logged
abbrev pub with_bytes_used : ℕ → ℕ → List Bool → Machine → Option ℕ → Outcome
with_bytes_used start_mallocs start_bytes answers m none = crashed
with_bytes_used start_mallocs start_bytes answers m (some current) =
    after_destroy start_mallocs start_bytes answers (simulation_destroy m)

abbrev pub after_run : ℕ → ℕ → Option (List Bool × Simulation) → Outcome
after_run start_mallocs start_bytes none = crashed
after_run start_mallocs start_bytes (some (answers, s)) =
    with_bytes_used start_mallocs start_bytes answers s.machine
      (current_bytes s.machine.heap.kmalloc)

abbrev pub run_from : ℕ → ℕ → MemAccess → Start → Outcome
run_from start_mallocs start_bytes mem_access null_simulation = no_simulation
run_from start_mallocs start_bytes mem_access aborted = crashed
run_from start_mallocs start_bytes mem_access (started s) =
    after_run start_mallocs start_bytes (simulation_run_trace mem_access s)

-- with the counts of the allocator before the simulation is created
abbrev pub main_with : MemAccess → Start → Option ℕ → Option ℕ → Outcome
main_with mem_access start (some start_mallocs) (some start_bytes) =
    run_from start_mallocs start_bytes mem_access start
main_with mem_access start _ _ = crashed

-- `main`, from what the variable `mem_access` of CSC369_SimulationRun holds at first
unfoldable pub main : World → MemAccess → List (ℕ × Text) → Outcome
main w mem_access options =
    main_with mem_access (create_simulation_from_args w malloc_init options)
      (current_count malloc_init) (current_bytes malloc_init)

-- ===== src/Memsim/Program.antt =====
-- `main` of memsim.c, from the command line to the check for leaks.
use csc369_os_a.Base.{ℕ, ◌≡◌, ◌∙◌, ap, true, some, List, length}
use csc369_os_a.Base.Returns
use csc369_os_a.Base.Returns.{Returns}
use csc369_os_a.Kmalloc.{Kmalloc, malloc_init, is_leak_free, current_bytes, current_count}
use csc369_os_a.Kmalloc.Accounting.{current_bytes_lem, is_leak_free-live_count}
use csc369_os_a.Machine.{MemAccess, Machine, Policy}
use csc369_os_a.Mm.Destroy.{IsClean}
use csc369_os_a.Trace.{trace_create}
use csc369_os_a.Trace.Print.{Item, AreItems, AreComments, print_trace}
use csc369_os_a.Simulation.Run.{flat_run, IsTrace}
use csc369_os_a.Simulation.Made.{malloc_init-IsNew}
use csc369_os_a.Simulation.Create.{Fits}
use csc369_os_a.Simulation.PrintedFile.{accesses_of, simulation_run_trace-flat_run}
use csc369_os_a.Simulation.Destroy.{simulation_destroy-IsClean}
use csc369_os_a.Memsim.{
  Text, policies, get_replacement_algorithm, Args, no_args, parse_options, required, World, create,
  with_machine, with_trace, from_args, from_required, run_from, after_run, with_bytes_used,
  after_destroy, report, create_simulation_from_args, crashed, finished, main,
}
use csc369_os_a.Memsim.Options.{IsUnknown, get_replacement_algorithm-IsUnknown}

-- Options that are all known, and give a file, two numbers that are not 0 and a name.
pub record Gives (options : List (ℕ × Text)) (file : Text) (memsize swapsize : ℕ) (alg : Text)
    : Type 0 where
  pub args : Args
  pub parsed : parse_options options no_args ≡ some args
  pub complete : required args ≡ some (file, memsize, swapsize, alg)

create_run :
    (w : World) (k : Kmalloc) (options : List (ℕ × Text)) (file : Text) (memsize swapsize : ℕ)
    (alg : Text)
    → Gives options file memsize swapsize alg
    → create_simulation_from_args w k options
      ≡ create w k file memsize swapsize (get_replacement_algorithm alg)
unfolding create_simulation_from_args
create_run w k options file memsize swapsize alg g =
    ap (from_args w k) g.parsed ∙ ap (from_required w k) g.complete

IsClean-leak_free : (m : Machine) → IsClean m.heap → is_leak_free 0 0 m.heap.kmalloc ≡ some true
IsClean-leak_free m c = (is_leak_free-live_count m.heap.kmalloc c.accounted).1 c.live

-- The program with a file, two numbers that are not 0 and a replacement algorithm that is not one of
-- the four fails the assert of CSC369_SimulationCreate.
pub main_of_unknown :
    (w : World) (mem_access : MemAccess) (options : List (ℕ × Text)) (file : Text)
    (memsize swapsize : ℕ) (alg : Text)
    → Gives options file memsize swapsize alg
    → IsUnknown alg policies
    → main w mem_access options ≡ crashed
unfolding main create current_count current_bytes
main_of_unknown w mem_access options file memsize swapsize alg g u = ap (run_from 0 0 mem_access) (
    create_run w malloc_init options file memsize swapsize alg g
    ∙ ap (create w malloc_init file memsize swapsize) (get_replacement_algorithm-IsUnknown alg u))

-- The program, given the path of a trace file that was printed from accesses, the name of one of the
-- four replacement algorithms, and two numbers that are not 0, in any order, ends its run with the
-- answers of a flat memory that is all 0 at first, and finds no leak. The conditions are those of
-- the run of a printed trace file, with a new allocator.
pub main-flat_run :
    (w : World) (mem_access : MemAccess) (options : List (ℕ × Text)) (file : Text)
    (memsize swapsize : ℕ) (alg : Text) (policy : Policy) (items : List Item)
    (bodies : List (List ℕ))
    → Gives options file memsize swapsize alg
    → get_replacement_algorithm alg ≡ some policy
    → w.files file ≡ some (print_trace items bodies)
    → Fits malloc_init memsize swapsize w.limit (length (accesses_of items))
    → IsTrace (accesses_of items)
    → AreItems items
    → AreComments bodies
    → main w mem_access options ≡ finished (flat_run (accesses_of items) (λ _. 0)) true
unfolding main create current_count current_bytes
main-flat_run w mem_access options file memsize swapsize alg policy items bodies g known text fits
      valid is cs =
    let (t, m, s, opened, made, run, c, owns) =
      simulation_run_trace-flat_run policy malloc_init memsize swapsize w.limit w.random items
        bodies mem_access fits valid is cs in
    let answers = flat_run (accesses_of items) (λ _. 0) in
    let (_, m', destroyed, clean) =
      Returns.result (simulation_destroy-IsClean s.machine c (owns malloc_init-IsNew)) in
    let bytes = current_bytes_lem s.machine.heap.kmalloc (owns malloc_init-IsNew).0.accounted in
    ap (run_from 0 0 mem_access) (
      create_run w malloc_init options file memsize swapsize alg g
      ∙ ap (create w malloc_init file memsize swapsize) known
      ∙ ap (with_trace w malloc_init memsize swapsize policy) (ap trace_create text ∙ opened)
      ∙ ap (with_machine t) made)
    ∙ ap (after_run 0 0) run
    ∙ ap (with_bytes_used 0 0 answers s.machine) bytes
    ∙ ap (after_destroy 0 0 answers) destroyed
    ∙ ap (report answers) (IsClean-leak_free m' clean)

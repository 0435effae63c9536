-- ===== src/Simulation/PrintedFile.antt =====
-- A simulation of a printed trace file, from its creation on.
use csc369_os_a.Base.{
  put_back, length-append, ◌/◌, ◌%◌, ◌≤◌, ℕ, zero, suc, ◌+◌, ◌<◌, ◌≡◌, ◌∙◌, refl, ap, false, some,
  List, [], ◌∷◌, length, arith,
}
use csc369_os_a.Base.Returns
use csc369_os_a.Base.Returns.{Returns, returns}
use csc369_os_a.Machine.{MemAccess, Machine, Policy}
use csc369_os_a.Kmalloc.{Kmalloc}
use csc369_os_a.Trace.Print.{
  Item, Widths, digit_char, print_digits, print_access, print_item, AreItems, AreComments,
  print_trace, print_comments,
}
use csc369_os_a.Trace.ReadBack.{trace_read-print_item}
use csc369_os_a.Trace.LastLines.{trace_read-print_comments}
use csc369_os_a.Trace.{Trace, trace_create}
use csc369_os_a.Coremap.Consistent.{Consistent, Owns}
use csc369_os_a.Simulation.{simulation_create, simulation_run}
use csc369_os_a.Simulation.Run.{flat_run, IsTrace}
use csc369_os_a.Simulation.Made.{IsNew}
use csc369_os_a.Simulation.Create.{Fits, simulation_run-flat_run}
use csc369_os_a.Simulation.Loop.{Simulation, paired, simulation_run_trace}
use csc369_os_a.Simulation.Delivered.{deliver, simulation_run_trace-deliver}

abbrev pub accesses_of : List Item → List MemAccess
accesses_of [] = []
accesses_of (i ∷ items) = i.access ∷ accesses_of items

deliver-print_trace :
    (items : List Item) (bodies : List (List ℕ)) (fuel : ℕ) (old : MemAccess) (t : Trace)
    → AreItems items
    → AreComments bodies
    → t.file.unread ≡ print_trace items bodies
    → length items < fuel
    → Returns (λ accesses _. accesses ≡ accesses_of items) (deliver fuel old t)
unfolding deliver print_trace
deliver-print_trace items bodies zero old t is cs e l = absurd (omega arith)
deliver-print_trace [] bodies (suc fuel) old t is cs e l =
    Returns.bind (trace_read-print_comments bodies old t cs e) λ r t' h. rw h (returns refl)
deliver-print_trace (i ∷ items) bodies (suc fuel) old t (ok, is) cs e l =
    rw (trace_read-print_item i (print_trace items bodies) t old ok e) (
      Returns.bind (deliver-print_trace items bodies fuel i.access _ is cs refl (omega arith))
        λ accesses t' h. returns (ap (λ l. i.access ∷ l) h))

length-print_digits :
    (base width n : ℕ) (rest : List ℕ)
    → length (print_digits base width n rest) ≡ width + length rest
unfolding print_digits
length-print_digits base zero n rest = omega arith
length-print_digits base (suc width) n rest =
    omega (arith, length-print_digits base width (n / base) (digit_char (n % base) ∷ rest))

length-print_access :
    (w : Widths) (a : MemAccess) (rest : List ℕ) → length rest < length (print_access w a rest)
unfolding print_access
length-print_access w a rest =
    let value : List ℕ = print_digits 10 w.value a.value (b'\n' ∷ rest) in
    omega (
      arith,
      length-print_digits 10 w.value a.value (b'\n' ∷ rest),
      length-print_digits 16 w.address a.virtual_address (b' ' ∷ value),
    )

rest-print_comments :
    (bodies : List (List ℕ)) (rest : List ℕ) → length rest ≤ length (print_comments bodies rest)
rest-print_comments [] rest = omega arith
rest-print_comments (body ∷ bodies) rest = omega (
  arith,
  rest-print_comments bodies rest,
  length-append body (b'\n' ∷ print_comments bodies rest),
)

length-print_trace :
    (items : List Item) (bodies : List (List ℕ))
    → length items < suc (length (print_trace items bodies))
unfolding print_trace print_item
length-print_trace [] bodies = omega arith
length-print_trace (i ∷ items) bodies =
    let rest : List ℕ = print_trace items bodies in
    omega (
      arith,
      length-print_trace items bodies,
      length-print_access i.widths i.access rest,
      rest-print_comments i.comments (print_access i.widths i.access rest),
    )

-- CSC369_SimulationCreate and CSC369_SimulationRun on a trace file printed from accesses, with
-- comments between and behind them, under each of the four policies: the file is read to its end, the
-- run faults nowhere, and its answers are those of a flat memory that is all 0 at first. The
-- conditions are those of the run of a list of accesses, and those of the printed lines. If the
-- allocator was new, its live blocks are the memory manager and its page table.
pub simulation_run_trace-flat_run :
    (policy : Policy) (k : Kmalloc) (frame_count swap_size limit : ℕ) (random : ℕ → ℕ)
    (items : List Item) (bodies : List (List ℕ)) (old : MemAccess)
    → Fits k frame_count swap_size limit (length (accesses_of items))
    → IsTrace (accesses_of items)
    → AreItems items
    → AreComments bodies
    → (t : Trace) × (m : Machine) × (s : Simulation) × (trace_create
          (some (print_trace items bodies))
        ≡ some t)
      × (simulation_create k frame_count swap_size policy random limit ≡ some m)
      × (simulation_run_trace old (paired t m) ≡ some (flat_run (accesses_of items) (λ _. 0), s))
      × Consistent s.machine.frame_count s.machine
      × (IsNew k → Owns s.machine)
simulation_run_trace-flat_run policy k frame_count swap_size limit random items bodies old fits tr
      is cs =
    let t : Trace = record {
      file = record { unread = print_trace items bodies; eof = false };
      buffer = [];
      line_number = 0;
    } in
    let (m, m', made, run, c, owns) =
      simulation_run-flat_run policy k frame_count swap_size limit random (accesses_of items) fits
        tr in
    let (accesses, t', d, same) = Returns.result (
      deliver-print_trace items bodies (suc (length t.file.unread)) old t is cs refl
        (length-print_trace items bodies)) in
    (
      t,
      m,
      paired t' m',
      refl,
      made,
      (Returns.holds d (simulation_run_trace-deliver old t) m
          ∙ ap (put_back (paired t')) (ap (λ l. simulation_run l m) same ∙ run)),
      c,
      owns,
    )

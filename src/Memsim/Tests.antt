-- ===== src/Memsim/Tests.antt =====
-- The program of memsim.c on a trace file of two accesses.
use csc369_os_a.Base.{ℕ, ◌≡◌, refl, true, some, List, [], ◌∷◌, arith}
use csc369_os_a.Kmalloc.{malloc_init}
use csc369_os_a.Machine.{AccessType, store, load, s2q}
use csc369_os_a.Trace.Print.{Item, IsPrintable, AreItems, print_trace}
use csc369_os_a.Simulation.Run.{flat_run, IsTrace}
use csc369_os_a.Simulation.Create.{Fits}
use csc369_os_a.Simulation.PrintedFile.{accesses_of}
use csc369_os_a.Memsim.{
  Text, World, get_replacement_algorithm, parse_options, required, crashed, finished, main,
}
use csc369_os_a.Memsim.Program.{Gives, main-flat_run, main_of_unknown}

abbrev line : AccessType → ℕ → ℕ → Item
line t a v = record {
  comments = (b'=' ∷ []) ∷ [];
  widths = record { address = 5; value = 3 };
  access = record { type = t; virtual_address = a; value = v };
}

-- a write and a read of one byte
abbrev items : List Item
items = line store 0x1003 7 ∷ line load 0x1003 7 ∷ []

abbrev path : Text
path = b't' ∷ []

abbrev world : World
world = record { files = λ p. some (print_trace items ([] ∷ [])); random = λ i. i; limit = 640 }

abbrev options : Text → List (ℕ × Text)
options alg = (b'a', alg) ∷ (b'm', b'2' ∷ []) ∷ (b'f', path) ∷ (b's', b'4' ∷ b'0' ∷ []) ∷ []

options-Gives : (alg : Text) → Gives (options alg) path 2 40 alg
unfolding parse_options required
options-Gives alg = record {
  args = record { memsize = 2; swapsize = 40; trace_file = some path; replacement_alg = some alg };
  parsed = refl;
  complete = refl;
}

abbrev s2q_name : Text
s2q_name = b'S' ∷ b'2' ∷ b'Q' ∷ []

s2q_known : get_replacement_algorithm s2q_name ≡ some s2q
unfolding get_replacement_algorithm
s2q_known = refl

items_fit : Fits malloc_init 2 40 640 2
items_fit = record {
  frames = omega arith;
  physmem = omega arith;
  bitmap = omega arith;
  file = omega arith;
  heap = omega arith;
  swap = omega arith;
}

items-IsTrace : IsTrace (accesses_of items)
items-IsTrace = (omega arith, omega arith, (omega arith, omega arith, tt))

printable :
    (t : AccessType)
    → IsPrintable
        (record { address = 5; value = 3 })
        (record { type = t; virtual_address = 0x1003; value = 7 })
printable t = record {
  address = omega arith;
  address_digits = omega arith;
  some_address = omega arith;
  offset = omega arith;
  value = omega arith;
  value_digits = omega arith;
  some_value = omega arith;
  fits = omega arith;
}

items-AreItems : AreItems items
items-AreItems = (
  (((omega arith, tt), omega arith, tt), printable store),
  ((((omega arith, tt), omega arith, tt), printable load), tt),
)

main-flat_run_example :
    main world (record { type = load; virtual_address = 0; value = 0 }) (options s2q_name)
    ≡ finished (flat_run (accesses_of items) (λ _. 0)) true
main-flat_run_example =
    main-flat_run world (record { type = load; virtual_address = 0; value = 0 }) (options s2q_name)
      path 2 40 s2q_name s2q items ([] ∷ []) (options-Gives s2q_name) s2q_known refl items_fit
      items-IsTrace items-AreItems (tt, omega arith, tt)

abbrev lru_name : Text
lru_name = b'L' ∷ b'R' ∷ b'U' ∷ []

main_of_unknown_example :
    main world (record { type = load; virtual_address = 0; value = 0 }) (options lru_name) ≡ crashed
main_of_unknown_example =
    main_of_unknown world (record { type = load; virtual_address = 0; value = 0 })
      (options lru_name) path 2 40 lru_name (options-Gives lru_name)
      (ground arith, (ground arith, (ground arith, (ground arith, tt))))

-- ===== src/Simulation/Run.antt =====
-- CSC369_SimulationRun: a whole trace of accesses, and a simulation from its creation on.
use csc369_os_a.Base.{
  ℕ, suc, ◌+◌, ◌*◌, ◌%◌, ◌^◌, ◌≤◌, ◌<◌, ◌≡◌, ◌∙◌, refl, sym, ap, subst, Bool, length, List, [], ◌∷◌,
  inl, inr, arith,
}
use csc369_os_a.Base.Returns
use csc369_os_a.Base.Returns.{Returns, returns}
use csc369_os_a.Kmalloc.{kmalloc_max}
use csc369_os_a.PageTable.Allocate.{sizeof_path}
use csc369_os_a.Bitutil.Count.{count_used}
use csc369_os_a.Machine.{MemAccess, Machine, Stats, Policy}
use csc369_os_a.Policy.Laws.{PolicyLaws}
use csc369_os_a.Coremap.Consistent.{Consistent, Owns}
use csc369_os_a.Mm.Grown.{Referenced}
use csc369_os_a.Simulation.{simulation_run}
use csc369_os_a.Simulation.Flat.{flat_access, InPage, Agrees}
use csc369_os_a.Simulation.Memory.{Executed, execute_mem_instruction-Executed}

-- The answers of a flat memory to a trace.
unfoldable pub flat_run : List MemAccess → (ℕ → ℕ) → List Bool
flat_run [] memory = []
flat_run (a ∷ trace) memory = (flat_access a memory).0 ∷ flat_run trace (flat_access a memory).1

-- Addresses have 48 bits, and offsets that a simulated frame has room for.
abbrev pub IsTrace : List MemAccess → Type 0
IsTrace [] = Unit {0}
IsTrace (a ∷ trace) = InPage a.virtual_address × (a.virtual_address < 2 ^ 48) × IsTrace trace

-- The machine is consistent, the policy knows its frames, and there is room for `n` more accesses,
-- each to a page of its own.
pub record Ready {p : Policy} (laws : PolicyLaws p) (n : ℕ) (m : Machine) : Type 0 where
  pub policy : m.policy ≡ p
  pub some_frames : 0 < m.frame_count
  pub consistent : Consistent m.frame_count m
  pub tracked : laws.Tracked m.frame_count m
  pub heap_room : m.heap.kmalloc.bytes_malloced + n * sizeof_path ≤ kmalloc_max
  pub swap_room : count_used m.swap.swapmap + n ≤ m.swap.swapmap.nbits

-- Every reference is a hit or a miss.
abbrev pub IsCounted : Stats → Type 0
IsCounted s = (s.hit_count + s.miss_count) % 2 ^ 32 ≡ s.ref_count % 2 ^ 32

-- The answers of a flat memory, and `n` more references counted.
abbrev pub Ran : Machine → ℕ → List Bool → List Bool → Machine → Type 0
Ran m n expected answers m' =
    (answers ≡ expected)
    × Consistent m'.frame_count m'
    × ((m'.stats.ref_count % 2 ^ 32) ≡ ((m.stats.ref_count + n) % 2 ^ 32))
    × (IsCounted m.stats → IsCounted m'.stats)
    × (Owns m → Owns m')

count_one :
    (s s' : Stats)
    → Referenced s s'
    → (n : ℕ) → ((s'.ref_count + n) % 2 ^ 32) ≡ ((s.ref_count + suc n) % 2 ^ 32)
count_one s s' (r, _) n = omega arith

Referenced-IsCounted : (s s' : Stats) → Referenced s s' → IsCounted s → IsCounted s'
Referenced-IsCounted s s' (r, inl (h, m)) c = omega arith
Referenced-IsCounted s s' (r, inr (h, m)) c = omega arith

module _ {p : Policy} (laws : PolicyLaws p) where
  go_on :
      (n : ℕ) (m m' : Machine) (a : MemAccess) (memory : ℕ → ℕ) (good : Bool)
      → Ready laws (suc n) m
      → Executed laws.Tracked m a memory good m'
      → Ready laws n m'
  go_on n m m' a memory good r x = record {
    policy = x.policy ∙ r.policy;
    some_frames = omega (arith, x.frame_count, r.some_frames);
    consistent = subst (λ k. Consistent k m') (sym x.frame_count) x.consistent;
    tracked = subst (λ k. laws.Tracked k m') (sym x.frame_count) x.tracked;
    heap_room = omega (arith, x.bytes, r.heap_room);
    swap_room = omega (arith, x.slots, x.nbits, r.swap_room);
  }

  -- From a state that is ready for all accesses of a trace and agrees with a flat memory, with
  -- addresses of 48 bits and offsets below 16, CSC369_SimulationRun faults nowhere, answers each
  -- access as that memory does, leaves a consistent state, and counts every access once in
  -- `ref_count`; if hits and misses added up to the references, modulo 2^32, they still do, and if the
  -- live blocks of the allocator were the memory manager and its page table, they still are.
  pub simulation_run-Ran :
      (trace : List MemAccess) (m : Machine) (memory : ℕ → ℕ)
      → IsTrace trace
      → Ready laws (length trace) m
      → Agrees m memory
      → Returns (Ran m (length trace) (flat_run trace memory)) (simulation_run trace m)
  unfolding simulation_run flat_run
  simulation_run-Ran [] m memory t r ag = returns (refl, r.consistent, omega arith, λ c. c, λ o. o)
  simulation_run-Ran (a ∷ trace) m memory (inside, lt, t) r ag =
      Returns.bind
        (execute_mem_instruction-Executed laws m a memory r.policy r.some_frames r.consistent
          r.tracked inside lt (omega (arith, r.heap_room)) (omega (arith, r.swap_room)) ag)
        λ good m1 x.
          Returns.bind
            (simulation_run-Ran trace m1 (flat_access a memory).1 t
              (go_on (length trace) m m1 a memory good r x) x.agrees)
            λ rest m2 (e, c, refs, counted, owns). returns (
              ap (λ b. b ∷ rest) x.answer ∙ ap (λ l. (flat_access a memory).0 ∷ l) e,
              c,
              refs ∙ count_one m.stats m1.stats x.stats (length trace),
              λ h. counted (Referenced-IsCounted m.stats m1.stats x.stats h),
              λ o. owns (x.owns o),
            )

-- ===== src/Simulation/Flat.antt =====
-- A flat memory of bytes, and how a machine of csc369_simulation.c agrees with it.
use csc369_os_a.Base.{
  ℕ, ◌%◌, ◌<◌, ◌≡◌, ◌≢◌, ◌∙◌, refl, subst, Bool, true, false, if◌then◌else◌, ◌==◌, Ptr, null,
  update, arith,
}
use native.Mathlib.Decide.{ℕ_discrete}
use csc369_os_a.PageTable.View.{status, walk}
use csc369_os_a.PageTable.Tree.{no_pte, walk_unique}
use csc369_os_a.Swap.{frame_size}
use csc369_os_a.Machine.{
  page_size, AccessType, store, modify_access, load, instruction_fetch, MemAccess, Machine,
}
use csc369_os_a.Coremap.Consistent.{Consistent, page_byte, byte_of_congr}
use csc369_os_a.Mm.{is_write}
use csc369_os_a.Mm.Grown.{view}
use csc369_os_a.Simulation.{phys_addr}

-- What an access of each type does to a flat memory: the answer, and the memory after it.
unfoldable pub flat_access_of : AccessType → ℕ → ℕ → (ℕ → ℕ) → Bool × (ℕ → ℕ)
flat_access_of store a v memory = (true, update memory a v)
flat_access_of modify_access a v memory = (true, update memory a v)
flat_access_of load a v memory = (memory a == v, memory)
flat_access_of instruction_fetch a v memory = (memory a == v, memory)

unfoldable pub flat_access : MemAccess → (ℕ → ℕ) → Bool × (ℕ → ℕ)
unfolding flat_access_of
flat_access a memory = flat_access_of a.type a.virtual_address a.value memory

flat_access_lem :
    (t : AccessType) (a v : ℕ) (memory : ℕ → ℕ)
    → flat_access_of t a v memory
      ≡ (if is_write t then (true, update memory a v) else (memory a == v, memory))
unfolding flat_access_of
flat_access_lem store a v memory = refl
flat_access_lem modify_access a v memory = refl
flat_access_lem load a v memory = refl
flat_access_lem instruction_fetch a v memory = refl

pub flat_write :
    (a : MemAccess) (memory : ℕ → ℕ)
    → is_write a.type ≡ true
    → flat_access a memory ≡ (true, update memory a.virtual_address a.value)
unfolding flat_access
flat_write a memory w = flat_access_lem a.type a.virtual_address a.value memory ∙ rw w

pub flat_read :
    (a : MemAccess) (memory : ℕ → ℕ)
    → is_write a.type ≡ false
    → flat_access a memory ≡ (memory a.virtual_address == a.value, memory)
unfolding flat_access
flat_read a memory w = flat_access_lem a.type a.virtual_address a.value memory ∙ rw w

-- an address that a simulated frame of 16 bytes has room for
abbrev pub InPage : ℕ → Type 0
InPage a = a % page_size < frame_size

-- The machine's pages hold the bytes of a flat memory.
abbrev pub Agrees : Machine → (ℕ → ℕ) → Type 0
Agrees m memory = (a : ℕ) → InPage a → view m a (a % page_size) ≡ memory a

abbrev pub with_byte : Machine → ℕ → ℕ → Machine
with_byte m i v = record m { swap = record (m.swap) { physmem = update m.swap.physmem i v } }

module _ (m : Machine) (va f : ℕ) (c : Consistent m.frame_count m)
    (valid : (status m.heap (walk m.heap m.page_table va)).valid ≡ true)
    (frame : (status m.heap (walk m.heap m.page_table va)).frame_number ≡ f)
    (inside : InPage va) where
  abbrev p : Ptr
  p = walk m.heap m.page_table va

  ne : p ≢ null
  ne = ground (arith, no_pte c.tree)

  module _ (v : ℕ) where
    abbrev m' : Machine
    m' = with_byte m (phys_addr f va) v

    pub with_byte-Consistent : Consistent m.frame_count m'
    with_byte-Consistent = record {
      tree = c.tree;
      root = c.root;
      swap = record {
        bitmap = c.swap.bitmap;
        slots_fit = c.swap.slots_fit;
        physmem_fits = c.swap.physmem_fits;
      };
      memsize = c.memsize;
      physmem = c.physmem;
      valid = c.valid;
      held = c.held;
      slots = c.slots;
      slots_unique = c.slots_unique;
      swapped = c.swapped;
    }

    -- a page byte other than the one written
    other_byte :
        (q : Ptr) (j : ℕ)
        → j < frame_size
        → (p ≡ q → j ≢ va % page_size)
        → page_byte m' q j ≡ page_byte m q j
    other_byte q j l ne =
        byte_of_congr (status m.heap q) m.swap.physmem (update m.swap.physmem (phys_addr f va) v)
          m.swap.file.bytes m.swap.file.bytes j
          (λ x. ground (arith, c.valid q x, c.valid p valid, frame)) (λ r h. refl)

    the_byte : page_byte m' p (va % page_size) ≡ v
    the_byte = ground (arith, frame)

    pub with_byte-Agrees : (memory : ℕ → ℕ) → Agrees m memory → Agrees m' (update memory va v)
    with_byte-Agrees memory ag a l = elim (ℕ_discrete va a) [
      | yes e ↦
          subst (λ b. view m' b (b % page_size) ≡ update memory va v b) e (the_byte ∙ ground arith)
      | no d ↦
          other_byte _ _ l (λ e. ground (arith, walk_unique c.tree m.page_table va a ne e))
          ∙ ground (arith, ag a l)
    ]

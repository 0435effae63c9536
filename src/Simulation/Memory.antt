-- ===== src/Simulation/Memory.antt =====
-- ExecuteMemInstruction is an access to a flat memory of bytes, whatever is paged in and out.
use csc369_os_a.Base.{
  ℕ, ◌+◌, ◌%◌, ◌^◌, ◌≤◌, ◌<◌, ◌≡◌, ◌∙◌, refl, sym, ap, subst, Bool, Option, some, true, false, ltb,
  if◌then◌else◌, ◌==◌, Ptr, update, Bool-cases, inl, inr, arith, pure, ◌>>=◌, ◌>>◌,
}
use csc369_os_a.Base.Returns
use csc369_os_a.Base.Returns.{Returns, returns}
use csc369_os_a.Kmalloc.{kmalloc_max}
use csc369_os_a.PageTable.View.{status, walk}
use csc369_os_a.PageTable.Allocate.{sizeof_path}
use csc369_os_a.Bitutil.Count.{count_used}
use csc369_os_a.Machine.{page_size, MemAccess, Machine, Policy}
use csc369_os_a.Policy.{policy_on_ref}
use csc369_os_a.Policy.Memory.{
  SameMemory, Owns-same, Consistent-same, page_byte-same, walk_page-same,
}
use csc369_os_a.Policy.Laws.{PolicyLaws}
use csc369_os_a.Coremap.{coremap_get_frame}
use csc369_os_a.Coremap.Consistent.{Consistent, Owns, page_byte}
use csc369_os_a.Mm.{is_write}
use csc369_os_a.Mm.Grown.{Referenced, Translated}
use csc369_os_a.Mm.Translate.{mm_get_frame_number-Translated}
use csc369_os_a.Simulation.{phys_addr, read_byte, write_byte, execute_mem_instruction}
use csc369_os_a.Simulation.Flat.{
  flat_access, flat_write, flat_read, InPage, Agrees, with_byte, with_byte-Consistent,
  with_byte-Agrees,
}

-- An access to a machine that agrees with `memory` is one to `memory`, and the machine agrees with
-- it afterwards.
pub record Executed (Tracked : ℕ → Machine → Type 0) (m : Machine) (access : MemAccess)
    (memory : ℕ → ℕ) (good : Bool) (m' : Machine) : Type 0 where
  pub answer : good ≡ (flat_access access memory).0
  pub agrees : Agrees m' (flat_access access memory).1
  pub consistent : Consistent m.frame_count m'
  pub tracked : Tracked m.frame_count m'
  pub stats : Referenced m.stats m'.stats
  pub slots : count_used m'.swap.swapmap ≤ count_used m.swap.swapmap + 1
  pub nbits : m'.swap.swapmap.nbits ≡ m.swap.swapmap.nbits
  pub bytes : m'.heap.kmalloc.bytes_malloced ≤ m.heap.kmalloc.bytes_malloced + sizeof_path
  pub policy : m'.policy ≡ m.policy
  pub frame_count : m'.frame_count ≡ m.frame_count
  pub owns : Owns m → Owns m'

module _ {pol : Policy} (laws : PolicyLaws pol) (m : Machine) (access : MemAccess) (memory : ℕ → ℕ)
    (inside : InPage access.virtual_address) (ag : Agrees m memory) where
  abbrev va : ℕ
  va = access.virtual_address

  -- What comes after the policy knows of the reference.
  abbrev transfer : ℕ → Machine → Option (Bool × Machine)
  transfer f =
      if is_write access.type
      then (do write_byte (phys_addr f va) access.value; pure true)
      else (do actual_value ← read_byte (phys_addr f va); pure (actual_value == access.value))

  module _ (f : ℕ) (m1 m2 : Machine) (t : Translated laws.Tracked m va f m1) (s : SameMemory m1 m2)
      (st : m2.stats ≡ m1.stats) (tracked : laws.Tracked m.frame_count m2) where
    c2 : Consistent m2.frame_count m2
    c2 =
        subst (λ n. Consistent n m2) (sym (s.frame_count ∙ t.frame_count))
          (Consistent-same s t.consistent)

    abbrev p2 : Ptr
    p2 = walk m2.heap m2.page_table va

    valid2 : (status m2.heap p2).valid ≡ true
    valid2 = ap (λ q. (status m2.heap q).valid) (walk_page-same s va) ∙ s.heap.valid _ ∙ t.valid

    frame2 : (status m2.heap p2).frame_number ≡ f
    frame2 =
        ap (λ q. (status m2.heap q).frame_number) (walk_page-same s va)
        ∙ s.heap.frame_number _
        ∙ t.frame_number

    agrees2 : Agrees m2 memory
    agrees2 a l =
        ap (λ q. page_byte m2 q (a % page_size)) (walk_page-same s a)
        ∙ page_byte-same s _ _
        ∙ t.views a _ l
        ∙ ag a l

    bounds : ltb (phys_addr f va) m2.swap.physmem_size ≡ true
    bounds = ground (arith, c2.physmem, s.frame_count, t.frame_count, t.inside)

    reads : m2.swap.physmem (phys_addr f va) ≡ memory va
    reads = ground (arith, agrees2 va inside, valid2, frame2)

    -- the machine after the transfer, whose physical memory alone may have changed
    executed :
        (good : Bool) (physmem : ℕ → ℕ)
        → let m3 = record m2 { swap = record (m2.swap) { physmem = physmem } } in
          good ≡ (flat_access access memory).0
          → Agrees m3 (flat_access access memory).1
          → Consistent m2.frame_count m3
          → Executed laws.Tracked m access memory good m3
    executed good physmem an a c =
        let m3 = record m2 { swap = record (m2.swap) { physmem = physmem } } in
        record {
          answer = an;
          agrees = a;
          consistent = subst (λ n. Consistent n m3) (s.frame_count ∙ t.frame_count) c;
          tracked = laws.stable _ m2 m3 tracked (record {
            links = refl;
            clock_list = refl;
            clock_hand = refl;
            rr_next = refl;
            frame_count = refl;
            memsize = refl;
            free = λ i ne. refl;
          });
          stats = subst (Referenced m.stats) (sym st) t.stats;
          slots = omega (arith, t.slots, ap (λ x. count_used x.swapmap) s.swap);
          nbits = ap (λ x. x.swapmap.nbits) s.swap ∙ t.nbits;
          bytes = omega (arith, t.bytes, ap (λ k. k.bytes_malloced) s.heap.kmalloc);
          policy = s.policy ∙ t.policy;
          frame_count = s.frame_count ∙ t.frame_count;
          owns = λ o. Owns-same s (t.owns o);
        }

    transfer-Executed : Returns (Executed laws.Tracked m access memory) (transfer f m2)
    unfolding read_byte write_byte
    transfer-Executed = elim (Bool-cases (is_write access.type)) [
      | inl w ↦
          let e = flat_write access memory w in
          rw (w, bounds)
            (returns (
              executed true (update m2.swap.physmem (phys_addr f va) access.value)
                (sym (ap (λ r. r.0) e))
                (subst (Agrees (with_byte m2 (phys_addr f va) access.value)) (sym (ap (λ r. r.1) e))
                  (with_byte-Agrees m2 va f c2 valid2 frame2 inside access.value memory agrees2))
                (with_byte-Consistent m2 va f c2 valid2 frame2 inside access.value)))
      | inr w ↦
          let e = flat_read access memory w in
          rw (w, bounds)
            (returns (
              executed (m2.swap.physmem (phys_addr f va) == access.value) m2.swap.physmem
                (ap (λ x. x == access.value) reads ∙ sym (ap (λ r. r.0) e))
                (subst (Agrees m2) (sym (ap (λ r. r.1) e)) agrees2) c2))
    ]

  module _ (at : m.policy ≡ pol) (f : ℕ) (m1 : Machine)
      (t : Translated laws.Tracked m va f m1) where
    c1 : Consistent m1.frame_count m1
    c1 = subst (λ n. Consistent n m1) (sym t.frame_count) t.consistent

    busy1 : (m1.frames f).free ≡ false
    busy1 = ground (arith, c1.valid _ t.valid, t.frame_number)

    lt1 : f < m1.frame_count
    lt1 = omega (arith, t.inside, t.frame_count)

    abbrev Known : ℕ → Unit {0} → Machine → Type 0
    Known n _ m2 = SameMemory m1 m2 × (m2.stats ≡ m1.stats) × laws.Tracked n m2

    on_ref_pol : Returns (Known m1.frame_count) (policy_on_ref pol f m1)
    on_ref_pol = (elim t.tracked [
      | inl x ↦ laws.on_ref_new f m1 (t.policy ∙ at) lt1 busy1 c1 x
      | inr x ↦
          laws.on_ref_old f m1 (t.policy ∙ at) lt1 busy1 c1
            (subst (λ n. laws.Tracked n m1) (sym t.frame_count) x)
    ])

    on_ref : Returns (Known m.frame_count) (policy_on_ref m1.policy f m1)
    on_ref =
        subst (λ n. Returns (Known n) (policy_on_ref m1.policy f m1)) t.frame_count
          (subst (λ q. Returns (Known m1.frame_count) (policy_on_ref q f m1)) (sym (t.policy ∙ at))
            on_ref_pol)

    get_run : coremap_get_frame f m1 ≡ some (f, m1)
    unfolding coremap_get_frame
    get_run = ground (arith, c1.memsize, lt1)

-- ExecuteMemInstruction of a 48-bit address with an offset below 16, in a consistent state that
-- agrees with a flat memory, where the allocator has room for a path of entries and tables and the
-- swap map a free bit, under any policy that keeps the laws: it faults nowhere, a write is a write
-- to the flat memory and a read answers whether its byte is as expected, the state agrees with the
-- memory afterwards, and one hit or one miss is counted.
pub execute_mem_instruction-Executed :
    {pol : Policy} (laws : PolicyLaws pol) (m : Machine) (access : MemAccess) (memory : ℕ → ℕ)
    → m.policy ≡ pol
    → 0 < m.frame_count
    → Consistent m.frame_count m
    → laws.Tracked m.frame_count m
    → InPage access.virtual_address
    → access.virtual_address < 2 ^ 48
    → m.heap.kmalloc.bytes_malloced + sizeof_path ≤ kmalloc_max
    → count_used m.swap.swapmap < m.swap.swapmap.nbits
    → Agrees m memory
    → Returns (Executed laws.Tracked m access memory) (execute_mem_instruction access m)
unfolding execute_mem_instruction
execute_mem_instruction-Executed laws m access memory at pos c tracked inside lt bytes room ag =
    Returns.bind (mm_get_frame_number-Translated laws m at pos c tracked access lt bytes room)
      λ f m1 t. rw (get_run laws m access memory inside ag at f m1 t) (
        Returns.bind (on_ref laws m access memory inside ag at f m1 t)
          λ _ m2 (s, st, tr). transfer-Executed laws m access memory inside ag f m1 m2 t s st tr)

-- ===== src/Coremap/Eviction.antt =====
-- CSC369_MMHandleEviction moves a page from its frame to the swap file.
use csc369_os_a.Base.{
  ℕ, ◌+◌, ◌*◌, ◌/◌, ◌≤◌, ◌<◌, ◌≡◌, ◌≢◌, ◌∙◌, refl, sym, ap, none, some, true, false, ◌==◌,
  if◌then◌else◌, Ptr, null, Option-cases, inl, inr, arith,
}
use native.Mathlib.Decide.{ℕ_discrete}
use csc369_os_a.Base.Returns
use csc369_os_a.Base.Returns.{Returns, returns}
use csc369_os_a.PageTable.{Offset, Pte, Heap}
use csc369_os_a.PageTable.View.{status}
use csc369_os_a.PageTable.Tree.{no_pte}
use csc369_os_a.PageTable.Owned.{IsOwned-same}
use csc369_os_a.PageTable.Entry.{
  with_entry, with_entry_self, is_dirty_at, get_frame_number_at, get_swap_offset_at, set_dirty_at,
  set_valid_at, set_on_swap_at, set_swap_offset_at, status-with_entry, has_pte-with_entry,
  with_entry-IsTree, below-with_entry, walk-with_entry,
}
use csc369_os_a.Bitutil.Count.{count_used}
use csc369_os_a.Swap.{Swap, frame_size, swap_page_out}
use csc369_os_a.Swap.PageOut.{IsSwap, HasSlot, Stored, swap_page_out-PagedOut}
use csc369_os_a.Swap.Placed.{InUse, SlotFacts, Placed-SlotFacts}
use csc369_os_a.Machine.{Machine, in_heap, in_swap, count_event}
use csc369_os_a.Coremap.{mm_handle_eviction}
use csc369_os_a.Coremap.Consistent.{Consistent, page_byte, byte_of, byte_of_congr}
use csc369_os_a.Coremap.Evicted.{out_entry, evicted_stats, evicted, Evicted}

handle_run :
    (m : Machine) (h : Heap) (p : Ptr) (e : Pte) (o : ℕ) (s' : Swap)
    → p ≢ null
    → m.heap ≡ with_entry h p e
    → swap_page_out e.frame_number e.swap_offset m.swap ≡ some (some o, s')
    → mm_handle_eviction p m
      ≡ some (
        tt,
        record m {
          heap = with_entry h p (out_entry e o);
          swap = s';
          stats = evicted_stats e m.stats;
        },
      )
unfolding mm_handle_eviction in_heap in_swap count_event
handle_run m h p e o s' ne at out =
    let e1 = record e { dirty = false } in
    let e2 = record e1 { valid = false } in
    let e3 = record e2 { on_swap = true } in
    rw (
      at,
      is_dirty_at h p e ne,
      get_frame_number_at h p e ne,
      get_swap_offset_at h p e ne,
      out,
      set_dirty_at h p e ne false,
      set_valid_at h p e1 ne false,
      set_on_swap_at h p e2 ne true,
      set_swap_offset_at h p e3 ne (some o),
    )

module _ (m : Machine) (f : ℕ) (e : Pte) (o : ℕ) (s' : Swap) (c : Consistent m.frame_count m)
    (lt : f < m.frame_count) (busy : (m.frames f).free ≡ false)
    (at : m.heap.pte (m.frames f).pte ≡ some e) (st : Stored m.swap f e.swap_offset o s') where
  abbrev p : Ptr
  p = (m.frames f).pte

  abbrev m' : Machine
  m' = evicted m p e o s'

  was : status m.heap p ≡ record e { page_table = null }
  was = ground arith

  status' :
      (q : Ptr)
      → status m'.heap q
        ≡ (if p == q then record (out_entry e o) { page_table = null } else status m.heap q)
  status' q = status-with_entry m.heap p (out_entry e o) (ground arith) (ground arith) q

  valid_e : (e.valid ≡ true) × (e.frame_number ≡ f)
  valid_e = ground (arith, c.held f lt (omega arith) busy)

  ne_null : p ≢ null
  ne_null = ground (arith, no_pte c.tree)

  facts : SlotFacts m.swap.swapmap e.swap_offset o s'.swapmap
  facts =
      Placed-SlotFacts m.swap.swapmap e.swap_offset o s'.swapmap c.swap.bitmap
        (λ r h. c.slots p r (ap (λ (x : Pte). x.swap_offset) was ∙ h)) st.placed

  -- no other page has the slot
  slot_own : (q : Ptr) → (status m.heap q).swap_offset ≡ some o → q ≡ p
  slot_own q h =
      c.slots_unique q p o h (ap (λ (x : Pte). x.swap_offset) was ∙ facts.own (c.slots q o h).taken)

  kept_slot : (r : ℕ) → InUse m.swap.swapmap r → InUse s'.swapmap r
  kept_slot r u = record {
    aligned = u.aligned;
    inside = omega (arith, u.inside, facts.nbits);
    taken = facts.kept (r / frame_size) u.taken;
  }

  swap' : IsSwap s'
  swap' = record {
    bitmap = facts.bitmap;
    slots_fit = omega (arith, c.swap.slots_fit, facts.nbits, st.limit);
    physmem_fits = omega (arith, c.swap.physmem_fits, st.physmem_size);
  }

  swapped_at :
      (q : Ptr)
      → (status m'.heap q).on_swap ≡ true
      → (r : ℕ) × ((status m'.heap q).swap_offset ≡ some r) × (r + frame_size ≤ s'.file.size)
  swapped_at q h = elim (ℕ_discrete p q) [
    | yes s ↦ (o, ground (arith, status' q), st.stored)
    | no ne ↦
        let (r, a, l) = c.swapped q (ground (arith, status' q)) in
        (r, ground (arith, status' q), omega (arith, st.grows))
  ]

  -- the slot of a page on swap is apart from that of the evicted page
  apart :
      (q : Ptr) (r j : ℕ)
      → q ≢ p
      → (status m.heap q).swap_offset ≡ some r
      → j < frame_size
      → s'.file.bytes (r + j) ≡ m.swap.file.bytes (r + j)
  apart q r j ne h l =
      let u = c.slots q r h in
      let d : r ≢ o = (λ x. ne (slot_own q (rw (← x) h))) in
      st.others (r + j) (ground (arith, u.aligned, facts.in_use.aligned, d))

  -- No byte of any page changes.
  pub evicted-page_byte : (q : Ptr) (j : ℕ) → j < frame_size → page_byte m' q j ≡ page_byte m q j
  evicted-page_byte q j l = elim (ℕ_discrete p q) [
    | yes s ↦ ground (arith, status' q, was, valid_e, st.page j l)
    | no ne ↦
        let kept : status m'.heap q ≡ status m.heap q = ground (arith, status' q) in
        ap (λ x. byte_of x s'.physmem s'.file.bytes j) kept
        ∙ byte_of_congr (status m.heap q) m.swap.physmem s'.physmem m.swap.file.bytes s'.file.bytes
            j
            (λ v.
              ap (λ (g : ℕ → ℕ). g ((status m.heap q).frame_number * frame_size + j)) st.physmem)
            (λ r h. apart q r j (λ x. ne (sym x)) h l)
  ]

  pub evicted-Consistent : Consistent f m'
  unfolding with_entry
  evicted-Consistent = record {
    tree = with_entry-IsTree m.heap p (out_entry e o) (ground arith) (ground arith) c.tree;
    root = c.root;
    swap = swap';
    memsize = c.memsize;
    physmem = st.physmem_size ∙ c.physmem;
    valid = λ q v. ground (arith, status' q, c.valid q, valid_e);
    held = λ i l ne b. ground (arith, status' (m.frames i).pte, c.held i, valid_e, was);
    slots = λ q r h. ground (arith, status' q, c.slots q r, kept_slot r, facts.in_use);
    slots_unique = λ q r x h k.
        ground (arith, status' q, status' r, c.slots_unique q r x, slot_own q, slot_own r);
    swapped = λ q h. swapped_at q h;
  }

  pub evicted_lem : Evicted m f m'
  unfolding with_entry
  evicted_lem = record {
    consistent = evicted-Consistent;
    page = evicted-page_byte;
    victim = (ground (arith, was), ground (arith, status' p), ground (arith, status' p));
    others = λ q ne. ground (arith, status' q);
    ptes = λ q. has_pte-with_entry m.heap p (out_entry e o) (ground arith) (ground arith) q;
    walks = λ va.
        walk-with_entry m.heap p (out_entry e o) (ground arith) (ground arith) m.page_table va;
    slots = facts.count;
    nbits = facts.nbits;
    bytes = refl;
    owns =
        IsOwned-same m.heap m'.heap refl refl refl
          (λ q. has_pte-with_entry m.heap p (out_entry e o) (ground arith) (ground arith) q)
          (λ q. below-with_entry m.heap p (out_entry e o) (ground arith) (ground arith) q);
    kept = record {
      page_table = refl;
      frames = refl;
      frame_count = refl;
      memsize = refl;
      policy = refl;
      links = refl;
      clock_list = refl;
      clock_hand = refl;
      rr_next = refl;
    };
  }

module _ (m : Machine) (f : ℕ) (c : Consistent m.frame_count m) (lt : f < m.frame_count)
    (busy : (m.frames f).free ≡ false) where
  has_slot :
      (old : Offset)
      → count_used m.swap.swapmap < m.swap.swapmap.nbits
      → ((r : ℕ) → old ≡ some r → InUse m.swap.swapmap r)
      → HasSlot m.swap old
  has_slot none l u = l
  has_slot (some r) l u = omega (arith, (u r refl).aligned, (u r refl).inside, c.swap.slots_fit)

  handle_slot :
      (e : Pte) (r : Offset) (s' : Swap) (o : ℕ)
      → m.heap.pte (m.frames f).pte ≡ some e
      → swap_page_out f e.swap_offset m.swap ≡ some (r, s')
      → r ≡ some o
      → Stored m.swap f e.swap_offset o s'
      → Returns (λ _. Evicted m f) (mm_handle_eviction (m.frames f).pte m)
  handle_slot e r s' o at run er st =
      let fe : e.frame_number ≡ f = ground (arith, c.held f lt (omega arith) busy) in
      let run' : swap_page_out e.frame_number e.swap_offset m.swap ≡ some (some o, s') =
        ap (λ n. swap_page_out n e.swap_offset m.swap) fe ∙ run ∙ ap (λ x. some (x, s')) er in
      let go =
        handle_run m m.heap (m.frames f).pte e o s' (ground (arith, no_pte c.tree))
          (sym (with_entry_self m.heap (m.frames f).pte at)) run' in
      rw go (returns (evicted_lem m f e o s' c lt busy at st))

  handle_at :
      (e : Pte)
      → m.heap.pte (m.frames f).pte ≡ some e
      → count_used m.swap.swapmap < m.swap.swapmap.nbits
      → Returns (λ _. Evicted m f) (mm_handle_eviction (m.frames f).pte m)
  handle_at e at room =
      let slot = has_slot e.swap_offset room (λ r h. c.slots (m.frames f).pte r (ground arith)) in
      let out =
        swap_page_out-PagedOut m.swap f c.swap (omega (arith, c.physmem)) e.swap_offset slot in
      let (r, s', run, (o, er, st)) = Returns.result out in handle_slot e r s' o at run er st

-- CSC369_MMHandleEviction of the page in a frame that is in use, in a consistent state with a free
-- bit in the swap map: it faults nowhere, the page is on swap and not valid, no byte of any page
-- changes, no other entry changes, the state stays consistent with the frame set aside, and one
-- eviction is counted, dirty or clean as the entry was.
pub mm_handle_eviction-Evicted :
    (m : Machine) (f : ℕ)
    → Consistent m.frame_count m
    → f < m.frame_count
    → (m.frames f).free ≡ false
    → count_used m.swap.swapmap < m.swap.swapmap.nbits
    → Returns (λ _. Evicted m f) (mm_handle_eviction (m.frames f).pte m)
mm_handle_eviction-Evicted m f c lt busy room = elim (Option-cases (m.heap.pte (m.frames f).pte)) [
  | inl n ↦ ground (arith, c.held f lt (omega arith) busy)
  | inr (e, at) ↦ handle_at m f c lt busy e at room
]

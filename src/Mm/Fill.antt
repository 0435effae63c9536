-- ===== src/Mm/Fill.antt =====
-- How CSC369_MMGetFrameNumber fills a frame that was set aside for a page.
use csc369_os_a.Base.{
  ℕ, ◌+◌, ◌*◌, ◌≤◌, ◌<◌, ◌≡◌, ◌≢◌, ◌∙◌, refl, ap, some, true, false, ◌==◌, if◌then◌else◌, Ptr, null,
  arith,
}
use native.Mathlib.Decide.{ℕ_discrete}
use csc369_os_a.PageTable.{Pte, Heap}
use csc369_os_a.PageTable.View.{status}
use csc369_os_a.PageTable.Entry.{
  with_entry, is_on_swap_at, get_swap_offset_at, set_on_swap_at, set_dirty_at, status-with_entry,
  with_entry-IsTree,
}
use csc369_os_a.Swap.{frame_size, copy, swap_page_in}
use csc369_os_a.Swap.PageIn.{paged_in, paged_in-page}
use csc369_os_a.Machine.{Machine, in_heap, in_swap}
use csc369_os_a.Coremap.{coremap_clear_frame}
use csc369_os_a.Coremap.Consistent.{Consistent, page_byte, byte_of, byte_of_congr}
use csc369_os_a.Mm.{fill_from, fill_frame}

-- the machine with the entry `e` at `p`, and with `physmem`
abbrev pub with_page : Machine → Ptr → Pte → (ℕ → ℕ) → Machine
with_page m p e physmem = record m {
  heap = with_entry m.heap p e;
  swap = record (m.swap) { physmem = physmem };
}

-- The bytes of the page `p` are in frame `f` of `physmem`, and those of the other frames are as
-- they were.
pub record Filled (m : Machine) (p : Ptr) (f : ℕ) (physmem : ℕ → ℕ) : Type 0 where
  pub page : (j : ℕ) → j < frame_size → physmem (f * frame_size + j) ≡ page_byte m p j
  pub others :
      (g j : ℕ)
      → g ≢ f
      → j < frame_size
      → physmem (g * frame_size + j) ≡ m.swap.physmem (g * frame_size + j)

-- The entry of a page that has come into frame `f`.
pub record InFrame (f : ℕ) (e e' : Pte) : Type 0 where
  pub valid : e'.valid ≡ true
  pub frame_number : e'.frame_number ≡ f
  pub page_table : e'.page_table ≡ e.page_table
  pub swap_offset : e'.swap_offset ≡ e.swap_offset
  pub on_swap : e'.on_swap ≡ true → e.on_swap ≡ true

module _ (m : Machine) (p : Ptr) (f : ℕ) (e e' : Pte) (physmem : ℕ → ℕ) (c : Consistent f m)
    (lt : f < m.frame_count) (mine : m.frames f ≡ record { free = false; pte = p })
    (at : m.heap.pte p ≡ some e) (invalid : e.valid ≡ false) (fill : Filled m p f physmem)
    (into : InFrame f e e') where
  abbrev m' : Machine
  m' = with_page m p e' physmem

  status' :
      (q : Ptr)
      → status m'.heap q ≡ (if p == q then record e' { page_table = null } else status m.heap q)
  status' q = status-with_entry m.heap p e' (ground arith) (ground (arith, into.page_table)) q

  pub filled-page_byte : (q : Ptr) (j : ℕ) → j < frame_size → page_byte m' q j ≡ page_byte m q j
  filled-page_byte q j l = elim (ℕ_discrete p q) [
    | yes s ↦ ground (arith, status' q, into.valid, into.frame_number, fill.page j l)
    | no ne ↦
        let kept : status m'.heap q ≡ status m.heap q = ground (arith, status' q) in
        ap (λ x. byte_of x physmem m.swap.file.bytes j) kept
        ∙ byte_of_congr (status m.heap q) m.swap.physmem physmem m.swap.file.bytes m.swap.file.bytes
            j (λ v. let (_, apart, _, _) = c.valid q v in fill.others _ j apart l) (λ r h. refl)
  ]

  pub filled-Consistent : Consistent m.frame_count m'
  unfolding with_entry
  filled-Consistent = record {
    tree = with_entry-IsTree m.heap p e' (ground arith) (ground (arith, into.page_table)) c.tree;
    root = c.root;
    swap = record {
      bitmap = c.swap.bitmap;
      slots_fit = c.swap.slots_fit;
      physmem_fits = c.swap.physmem_fits;
    };
    memsize = c.memsize;
    physmem = c.physmem;
    valid = λ q v. ground (arith, status' q, c.valid q, into.frame_number, mine);
    held = λ i l ne b.
        ground (arith, status' (m.frames i).pte, c.held i, into.valid, into.frame_number, mine);
    slots = λ q r h. ground (arith, status' q, c.slots q r, into.swap_offset);
    slots_unique =
        λ q r x h k. ground (arith, status' q, status' r, c.slots_unique q r x, into.swap_offset);
    swapped = λ q h. ground (arith, status' q, c.swapped q, into.swap_offset, into.on_swap);
  }

abbrev pub zeroed : Machine → ℕ → ℕ → ℕ
zeroed m f = copy m.swap.physmem (f * frame_size) (λ _. 0) 0 frame_size

module _ (m : Machine) (h : Heap) (p : Ptr) (e : Pte) (f : ℕ) (ne : p ≢ null) where
  abbrev before : Machine
  before = record m { heap = with_entry h p e }

  clear_run :
      f < m.memsize
      → f * frame_size + frame_size ≤ m.swap.physmem_size
      → coremap_clear_frame f before
        ≡ some (tt, record before { swap = record (m.swap) { physmem = zeroed m f } })
  unfolding coremap_clear_frame in_swap
  clear_run lt fits = ground arith

  -- The page of an entry that was never used is zeros.
  pub fill_first :
      e.on_swap ≡ false
      → f < m.memsize
      → f * frame_size + frame_size ≤ m.swap.physmem_size
      → fill_frame p f before
        ≡ some (
          tt,
          record m {
            heap = with_entry h p (record e { dirty = true });
            swap = record (m.swap) { physmem = zeroed m f };
          },
        )
  unfolding fill_frame fill_from in_heap
  fill_first off lt fits =
      let run : fill_from false p f before ≡ _ =
        rw (clear_run lt fits, set_dirty_at h p e ne true) in
      rw (is_on_swap_at h p e ne) (ap (λ b. fill_from b p f before) off ∙ run)

  -- A page that was on swap comes from there.
  pub fill_back :
      (o : ℕ)
      → e.on_swap ≡ true
      → e.swap_offset ≡ some o
      → swap_page_in f (some o) m.swap ≡ some (0, paged_in m.swap f o)
      → fill_frame p f before
        ≡ some (
          tt,
          record m {
            heap = with_entry h p (record e { on_swap = false });
            swap = paged_in m.swap f o;
          },
        )
  unfolding fill_frame fill_from in_heap in_swap
  fill_back o on at run =
      let in_run : swap_page_in f e.swap_offset m.swap ≡ some (0, paged_in m.swap f o) =
        ap (λ x. swap_page_in f x m.swap) at ∙ run in
      let all : fill_from true p f before ≡ _ =
        rw (get_swap_offset_at h p e ne, in_run, set_on_swap_at h p e ne false) in
      rw (is_on_swap_at h p e ne) (ap (λ b. fill_from b p f before) on ∙ all)

module _ (m : Machine) (p : Ptr) (f : ℕ) (invalid : (status m.heap p).valid ≡ false) where
  pub zeroed-Filled : (status m.heap p).on_swap ≡ false → Filled m p f (zeroed m f)
  unfolding copy
  zeroed-Filled off = record { page = λ j l. ground arith; others = λ g j ne l. ground arith }

  pub paged_in-Filled :
      (o : ℕ)
      → (status m.heap p).on_swap ≡ true
      → (status m.heap p).swap_offset ≡ some o
      → Filled m p f (paged_in m.swap f o).physmem
  unfolding copy
  paged_in-Filled o on at = record {
    page = λ j l. paged_in-page m.swap f o j l ∙ ground arith;
    others = λ g j ne l. ground arith;
  }

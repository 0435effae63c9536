-- ===== src/Mm/Resident.antt =====
-- A frame that was set aside for a page is filled, and the page is resident.
use csc369_os_a.Base.{
  ℕ, ◌+◌, ◌*◌, ◌≤◌, ◌<◌, ◌≡◌, ◌≢◌, ◌∙◌, ◌⊎◌, refl, sym, ap, subst, Option, some, true, false, Ptr,
  null, Bool-cases, inl, inr, arith, pure, ◌>>◌,
}
use csc369_os_a.Base.Returns.{Returns, returns}
use csc369_os_a.PageTable.{Pte, pte_set_frame_number, pte_set_valid}
use csc369_os_a.PageTable.View.{has_pte, status, walk}
use csc369_os_a.PageTable.Tree.{no_pte}
use csc369_os_a.PageTable.Owned.{IsOwned-same}
use csc369_os_a.PageTable.Entry.{
  with_entry, with_entry_self, set_frame_number_at, set_valid_at, status-with_entry,
  has_pte-with_entry, below-with_entry, walk-with_entry,
}
use csc369_os_a.Bitutil.Count.{count_used}
use csc369_os_a.Swap.{Swap, frame_size}
use csc369_os_a.Swap.PageIn.{paged_in, swap_page_in_of_stored}
use csc369_os_a.Machine.{Machine, SameCounts, Policy, in_heap}
use csc369_os_a.Policy.Laws.{PolicyLaws}
use csc369_os_a.Coremap.Consistent.{Consistent, Owns, page_byte}
use csc369_os_a.Coremap.Allocate.{Reserved}
use csc369_os_a.Mm.{fill_frame}
use csc369_os_a.Mm.Fill.{
  with_page, Filled, InFrame, filled-page_byte, filled-Consistent, zeroed, fill_first, fill_back,
  zeroed-Filled, paged_in-Filled,
}

-- The page of `p` is in frame `f`; no byte of any page has changed.
pub record Resident (Tracked : ℕ → Machine → Type 0) (m : Machine) (p : Ptr) (f : ℕ) (m' : Machine)
    : Type 0 where
  pub inside : f < m.frame_count
  pub consistent : Consistent m.frame_count m'
  pub page : (q : Ptr) (j : ℕ) → j < frame_size → page_byte m' q j ≡ page_byte m q j
  pub ptes : (q : Ptr) → has_pte m'.heap q ≡ has_pte m.heap q
  pub walks : (va : ℕ) → walk m'.heap m'.page_table va ≡ walk m.heap m.page_table va
  pub valid : (status m'.heap p).valid ≡ true
  pub frame_number : (status m'.heap p).frame_number ≡ f
  pub tracked : Tracked f m' ⊎ Tracked m.frame_count m'
  pub slots : count_used m'.swap.swapmap ≤ count_used m.swap.swapmap + 1
  pub nbits : m'.swap.swapmap.nbits ≡ m.swap.swapmap.nbits
  pub bytes : m'.heap.kmalloc.bytes_malloced ≡ m.heap.kmalloc.bytes_malloced
  pub policy : m'.policy ≡ m.policy
  pub frame_count : m'.frame_count ≡ m.frame_count
  pub page_table : m'.page_table ≡ m.page_table
  pub owns : Owns m → Owns m'

-- After `Filled`, what was set aside is resident.
module _ {pol : Policy} (laws : PolicyLaws pol) (m m1 : Machine) (p : Ptr) (f : ℕ)
    (r : Reserved laws.Tracked m p f m1) (e : Pte) (at : m1.heap.pte p ≡ some e) where
  abbrev Post : ℕ → Machine → Type 0
  Post g m' = Resident laws.Tracked m p g m' × SameCounts m.stats m'.stats

  lt1 : f < m1.frame_count
  lt1 = omega (arith, r.inside, r.frame_count)

  fill_resident :
      (e' : Pte) (physmem : ℕ → ℕ)
      → Filled m1 p f physmem
      → InFrame f e e'
      → Post f (with_page m1 p e' physmem)
  unfolding with_entry
  fill_resident e' physmem fill into =
      let c =
        filled-Consistent m1 p f e e' physmem r.consistent lt1 r.frame at
          (ground (arith, r.invalid)) fill into in
      let m' = with_page m1 p e' physmem in
      let st = status-with_entry m1.heap p e' (ground arith) (ground (arith, into.page_table)) p in
      (
        record {
          inside = r.inside;
          consistent = subst (λ n. Consistent n m') r.frame_count c;
          page = λ q j l.
              filled-page_byte m1 p f e e' physmem r.consistent lt1 r.frame at
                (ground (arith, r.invalid)) fill into q j l
              ∙ r.page q j l;
          ptes = λ q.
              has_pte-with_entry m1.heap p e' (ground arith) (ground (arith, into.page_table)) q
              ∙ r.ptes q;
          walks = λ va.
              walk-with_entry m1.heap p e' (ground arith) (ground (arith, into.page_table))
                m1.page_table va
              ∙ r.walks va;
          valid = ground (arith, st, into.valid);
          frame_number = ground (arith, st, into.frame_number);
          tracked = inl (
              laws.stable f m1 m' r.tracked (record {
                links = refl;
                clock_list = refl;
                clock_hand = refl;
                rr_next = refl;
                frame_count = refl;
                memsize = refl;
                free = λ i ne. refl;
              }));
          slots = r.slots;
          nbits = r.nbits;
          bytes = r.bytes;
          policy = r.policy;
          frame_count = r.frame_count;
          page_table = r.page_table;
          owns = λ o.
              IsOwned-same m1.heap m'.heap refl refl refl
                (λ q.
                  has_pte-with_entry m1.heap p e' (ground arith) (ground (arith, into.page_table))
                    q)
                (λ q.
                  below-with_entry m1.heap p e' (ground arith) (ground (arith, into.page_table)) q)
                (r.owns o);
        },
        r.counts,
      )

  fits : f * frame_size + frame_size ≤ m1.swap.physmem_size
  fits = omega (arith, lt1, r.consistent.physmem)

  ne : p ≢ null
  ne = ground (arith, no_pte r.consistent.tree)

  -- What is left of `mm_miss` once it has a frame.
  abbrev finish : Machine → Option (ℕ × Machine)
  finish = do
    in_heap (pte_set_frame_number p f)
    fill_frame p f
    in_heap (pte_set_valid p true)
    pure f

  finish_with :
      (e2 : Pte) (s : Swap)
      → fill_frame p f (record m1 { heap = with_entry m1.heap p (record e { frame_number = f }) })
        ≡ some (tt, record m1 { heap = with_entry m1.heap p e2; swap = s })
      → finish m1
        ≡ some (f, record m1 { heap = with_entry m1.heap p (record e2 { valid = true }); swap = s })
  unfolding in_heap
  finish_with e2 s run =
      let self = sym (with_entry_self m1.heap p at) in
      let start : in_heap (pte_set_frame_number p f) m1
          ≡ some (tt, record m1 { heap = with_entry m1.heap p (record e { frame_number = f }) }) =
        ap (λ h. in_heap (pte_set_frame_number p f) (record m1 { heap = h })) self
        ∙ rw (set_frame_number_at m1.heap p e ne f) in
      rw (start, run, set_valid_at m1.heap p e2 ne true)

  abbrev e1 : Pte
  e1 = record e { frame_number = f }

  finish_first : e.on_swap ≡ false → Returns Post (finish m1)
  finish_first off =
      let run =
        fill_first m1 m1.heap p e1 f ne off (omega (arith, r.consistent.memsize, lt1)) fits in
      rw (finish_with _ _ run) (
        returns (
          fill_resident (record e { frame_number = f; dirty = true; valid = true }) (zeroed m1 f)
            (zeroed-Filled m1 p f r.invalid (ground arith))
            (record {
              valid = refl;
              frame_number = refl;
              page_table = refl;
              swap_offset = refl;
              on_swap = λ x. x;
            })))

  finish_back :
      (o : ℕ)
      → e.on_swap ≡ true
      → e.swap_offset ≡ some o
      → o + frame_size ≤ m1.swap.file.size
      → Returns Post (finish m1)
  finish_back o on off l =
      let back = swap_page_in_of_stored m1.swap f o fits r.consistent.swap.physmem_fits l in
      let run = fill_back m1 m1.heap p e1 f ne o on off back in
      rw (finish_with _ _ run) (
        returns (
          fill_resident (record e { frame_number = f; on_swap = false; valid = true })
            (paged_in m1.swap f o).physmem
            (paged_in-Filled m1 p f r.invalid o (ground arith) (ground arith))
            (record {
              valid = refl;
              frame_number = refl;
              page_table = refl;
              swap_offset = refl;
              on_swap = λ x. absurd (ground arith);
            })))

  pub finish-Resident : Returns Post (finish m1)
  finish-Resident = elim (Bool-cases e.on_swap) [
    | inr off ↦ finish_first off
    | inl on ↦
        let (o, a, l) = r.consistent.swapped p (ground arith) in finish_back o on (ground arith) l
  ]

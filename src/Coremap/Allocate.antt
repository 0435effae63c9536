-- ===== src/Coremap/Allocate.antt =====
-- CSC369_CoremapAllocateFrame finds a frame for a page, whatever the replacement policy.
use csc369_os_a.Base.{
  ℕ, ◌+◌, ◌≤◌, ◌<◌, ◌≡◌, ◌≢◌, ◌∙◌, refl, sym, ap, Option, some, none, true, false, not, ◌==◌, Ptr,
  null, update, arith, subst,
}
use csc369_os_a.Base.Returns
use csc369_os_a.Base.Returns.{Returns, returns}
use csc369_os_a.PageTable.{Pte}
use csc369_os_a.PageTable.Tree.{no_pte}
use csc369_os_a.PageTable.View.{has_pte, status, walk}
use csc369_os_a.Bitutil.Count.{count_used}
use csc369_os_a.Swap.{frame_size}
use csc369_os_a.Machine.{Machine, SameCounts, Policy, get_frame, set_frame}
use csc369_os_a.Policy.{policy_evict}
use csc369_os_a.Policy.Memory.{
  SameMemory, Owns-same, Consistent-same, page_byte-same, walk_page-same,
}
use csc369_os_a.Policy.Laws.{PolicyLaws}
use csc369_os_a.Coremap.{
  find_free, find_free_frame, choose_frame, evict_frame, coremap_allocate_frame,
}
use csc369_os_a.Coremap.Consistent.{Consistent, Owns, page_byte}
use csc369_os_a.Coremap.Evicted.{Evicted}
use csc369_os_a.Coremap.Eviction.{mm_handle_eviction-Evicted}
use csc369_os_a.Coremap.FindFree.{FoundFree, find_free-FoundFree}

-- What an allocation for the page of `p` leaves: frame `f` set aside and pointing at `p`, every
-- page's bytes as they were, and `p` still not valid.
pub record Reserved (Tracked : ℕ → Machine → Type 0) (m : Machine) (p : Ptr) (f : ℕ) (m' : Machine)
    : Type 0 where
  pub inside : f < m.frame_count
  pub consistent : Consistent f m'
  pub frame : m'.frames f ≡ record { free = false; pte = p }
  pub page : (q : Ptr) (j : ℕ) → j < frame_size → page_byte m' q j ≡ page_byte m q j
  pub ptes : (q : Ptr) → has_pte m'.heap q ≡ has_pte m.heap q
  pub walks : (va : ℕ) → walk m'.heap m'.page_table va ≡ walk m.heap m.page_table va
  pub invalid : (status m'.heap p).valid ≡ false
  pub on_swap : (status m'.heap p).on_swap ≡ (status m.heap p).on_swap
  pub tracked : Tracked f m'
  pub slots : count_used m'.swap.swapmap ≤ count_used m.swap.swapmap + 1
  pub nbits : m'.swap.swapmap.nbits ≡ m.swap.swapmap.nbits
  pub bytes : m'.heap.kmalloc.bytes_malloced ≡ m.heap.kmalloc.bytes_malloced
  pub counts : SameCounts m.stats m'.stats
  pub policy : m'.policy ≡ m.policy
  pub frame_count : m'.frame_count ≡ m.frame_count
  pub page_table : m'.page_table ≡ m.page_table
  pub owns : Owns m → Owns m'

abbrev with_frame : Machine → ℕ → Ptr → Machine
with_frame m f p = record m { frames = update m.frames f (record { free = false; pte = p }) }

pub get_frame_at : (m : Machine) (f : ℕ) → f < m.frame_count → get_frame f m ≡ some (m.frames f, m)
unfolding get_frame
get_frame_at m f lt = ground arith

module _ (m : Machine) (f : ℕ) (p : Ptr) (lt : f < m.frame_count) (c : Consistent f m) where
  set_frame_run : set_frame f (record { free = false; pte = p }) m ≡ some (tt, with_frame m f p)
  unfolding set_frame
  set_frame_run = ground arith

  with_frame-Consistent : Consistent f (with_frame m f p)
  with_frame-Consistent = record {
    tree = c.tree;
    root = c.root;
    swap = c.swap;
    memsize = c.memsize;
    physmem = c.physmem;
    valid = λ q v. ground (arith, c.valid q);
    held = λ i l ne. ground (arith, c.held i l ne);
    slots = c.slots;
    slots_unique = c.slots_unique;
    swapped = c.swapped;
  }

-- a consistent state with a free frame set aside
set_aside :
    (m : Machine) (f : ℕ) → (m.frames f).free ≡ true → Consistent m.frame_count m → Consistent f m
set_aside m f free c = record {
  tree = c.tree;
  root = c.root;
  swap = c.swap;
  memsize = c.memsize;
  physmem = c.physmem;
  valid = λ q v. ground (arith, c.valid q);
  held = λ i l ne. ground (arith, c.held i l);
  slots = c.slots;
  slots_unique = c.slots_unique;
  swapped = c.swapped;
}

module _ {pol : Policy} (laws : PolicyLaws pol) (m : Machine) (at : m.policy ≡ pol)
    (some_frames : 0 < m.frame_count) (c : Consistent m.frame_count m)
    (tracked : laws.Tracked m.frame_count m) (p : Ptr) (invalid : (status m.heap p).valid ≡ false)
    (live : has_pte m.heap p ≡ true) (room : count_used m.swap.swapmap < m.swap.swapmap.nbits) where
  abbrev Done : ℕ → Machine → Type 0
  Done = Reserved laws.Tracked m p

  -- what is set aside before the frame points at `p`
  abbrev Aside : ℕ → Machine → Type 0
  Aside f m' =
      Reserved laws.Tracked m p f (with_frame m' f p) × Consistent f m' × (f < m'.frame_count)

  choose_free : (f : ℕ) → f < m.frame_count → (m.frames f).free ≡ true → Aside f m
  choose_free f lt free = (
    record {
      inside = lt;
      consistent = with_frame-Consistent m f p lt (set_aside m f free c);
      frame = ground arith;
      page = λ q j l. refl;
      ptes = λ q. refl;
      walks = λ va. refl;
      invalid = invalid;
      on_swap = refl;
      tracked = laws.stable f m (with_frame m f p) (laws.reserve f m lt free tracked) (record {
        links = refl;
        clock_list = refl;
        clock_hand = refl;
        rr_next = refl;
        frame_count = refl;
        memsize = refl;
        free = λ i ne. ground arith;
      });
      slots = omega arith;
      nbits = refl;
      bytes = refl;
      counts = record { ref_count = refl; hit_count = refl; miss_count = refl };
      policy = refl;
      frame_count = refl;
      page_table = refl;
      owns = λ o. o;
    },
    set_aside m f free c,
    lt,
  )

  module _ (f : ℕ) (m1 m2 : Machine) (lt : f < m.frame_count) (s : SameMemory m m1)
      (same : m1.stats ≡ m.stats) (t : laws.Tracked f m1) (busy : (m.frames f).free ≡ false)
      (v : Evicted m1 f m2) where
    apart : p ≢ (m1.frames f).pte
    apart e = ground (arith, c.held f lt (omega arith) busy, s.frames)

    take_victim : Aside f m2
    take_victim = (
      record {
        inside = lt;
        consistent =
            with_frame-Consistent m2 f p (omega (arith, v.kept.frame_count, s.frame_count))
              v.consistent;
        frame = ground arith;
        page = λ q j l. v.page q j l ∙ page_byte-same s q j;
        ptes = λ q. v.ptes q ∙ s.heap.ptes q;
        walks = λ va. v.walks va ∙ walk_page-same s va;
        invalid = ap (λ (x : Pte). x.valid) (v.others p apart) ∙ s.heap.valid p ∙ invalid;
        on_swap = ap (λ (x : Pte). x.on_swap) (v.others p apart) ∙ s.heap.on_swap p;
        tracked = laws.stable f m1 (with_frame m2 f p) t (record {
          links = v.kept.links;
          clock_list = v.kept.clock_list;
          clock_hand = v.kept.clock_hand;
          rr_next = v.kept.rr_next;
          frame_count = v.kept.frame_count;
          memsize = v.kept.memsize;
          free = λ i ne. ground (arith, v.kept.frames);
        });
        slots = omega (arith, v.slots, ap (λ x. count_used x.swapmap) s.swap);
        nbits = v.nbits ∙ ap (λ x. x.swapmap.nbits) s.swap;
        bytes = v.bytes ∙ ap (λ k. k.bytes_malloced) s.heap.kmalloc;
        counts = record {
          ref_count = ground (arith, v.victim.0, same);
          hit_count = ground (arith, v.victim.0, same);
          miss_count = ground (arith, v.victim.0, same);
        };
        policy = v.kept.policy ∙ s.policy;
        frame_count = v.kept.frame_count ∙ s.frame_count;
        page_table = v.kept.page_table ∙ s.page_table;
        owns = λ o. v.owns (Owns-same s o);
      },
      v.consistent,
      omega (arith, v.kept.frame_count, s.frame_count),
    )

  -- what the policy's choice of a victim leaves
  abbrev Victim : ℕ → Machine → Type 0
  Victim f m' = (f < m.frame_count) × SameMemory m m' × (m'.stats ≡ m.stats) × laws.Tracked f m'

  choose_evicted :
      ((i : ℕ) → i < m.frame_count → (m.frames i).free ≡ false) → Returns Aside (evict_frame m)
  unfolding evict_frame
  choose_evicted busy =
      Returns.bind
        (subst (λ q. Returns Victim (policy_evict q m)) (sym at)
          (laws.evict m at some_frames c busy tracked))
        λ f m1 (lt, s, same, t).
          let b1 : (m1.frames f).free ≡ false = ground (arith, s.frames, busy f lt) in
          let c1 : Consistent m1.frame_count m1 =
            subst (λ n. Consistent n m1) (sym s.frame_count) (Consistent-same s c) in
          let lt1 : f < m1.frame_count = omega (arith, s.frame_count) in
          let v = c1.held f lt1 (omega arith) b1 in
          let room1 : count_used m1.swap.swapmap < m1.swap.swapmap.nbits = omega (
            arith,
            room,
            ap (λ x. count_used x.swapmap) s.swap,
            ap (λ x. x.swapmap.nbits) s.swap,
          ) in
          let ne : not ((m1.frames f).pte == null) ≡ true = ground (arith, no_pte c1.tree) in
          rw (get_frame_at m1 f lt1, ne)
            (Returns.bind (mm_handle_eviction-Evicted m1 f c1 lt1 b1 room1)
              λ _ m2 v. returns (take_victim f m1 m2 lt s same t (busy f lt) v))

  choose_either :
      (r : Option ℕ) → FoundFree m.frames m.frame_count 0 r → Returns Aside (choose_frame r m)
  unfolding choose_frame
  choose_either none h = choose_evicted (λ i l. h i (omega arith) (omega arith))
  choose_either (some f) (_, l, free, _) = returns (choose_free f (omega arith) free)

  pub coremap_allocate_frame-Reserved : Returns Done (coremap_allocate_frame p m)
  unfolding coremap_allocate_frame find_free_frame
  coremap_allocate_frame-Reserved =
      let ne : not (p == null) ≡ true = ground (arith, no_pte c.tree) in
      rw ne (
        Returns.bind
          (choose_either (find_free m.frames m.frame_count 0)
            (find_free-FoundFree m.frames m.frame_count 0))
          λ f m' (r, cf, lt). rw (set_frame_run m' f p lt cf) (returns r))

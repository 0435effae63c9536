-- ===== src/Policy/S2qMoves.antt =====
-- A frame joins or leaves a queue of csc369_policy_s2q.c.
use csc369_os_a.Base.{
  refl, [], ◌∷◌, ◌++◌, ℕ, ◌+◌, ◌-◌, ◌≤◌, ◌<◌, ◌≡◌, ◌≢◌, sym, false, ◌==◌, if◌then◌else◌, Ptr, arith,
}
use csc369_os_a.Links.{Links}
use csc369_os_a.Links.Ring.{after, before, deleted, without, place_without, prev_of, deleted-Ring}
use csc369_os_a.Links.Insert.{inserted, with, place_with, inserted-Ring}
use csc369_os_a.Machine.{Machine}
use csc369_os_a.Policy.S2qQueues.{Queue, Ring-kept, S2qTracked}
use csc369_os_a.Policy.S2qOrder.{
  queue, remove, Ordered, queue_absent, queue_present, queue_front, queue_back,
}

module _ {head : Ptr} {x : ℕ} {m : Machine} {l : Links} (q : Queue head x m l) where
  -- frame `i` at place `g`
  abbrev pub pushed :
      (i g : ℕ)
      → i < m.frame_count
      → (m.frames i).free ≡ false
      → ((k : ℕ) → k < q.n → q.s k ≢ i + 3)
      → 0 < g
      → g ≤ q.n
      → let l' = inserted l (i + 3) (q.s (g - 1)) (q.s (if g == q.n then 0 else g)) in
        Queue head m.frame_count (record m { links = l' }) l'
  pushed i g lt busy new pos le = record {
    n = q.n + 1;
    s = with g (i + 3) q.s;
    pos = place_with g (i + 3) q.pos;
    ring = inserted-Ring q.ring (i + 3) (omega arith) new g pos le;
    some_place = omega arith;
    head_at = ground (arith, q.head_at);
    frames = λ k p l. ground (arith, q.frames k, q.frames (k - 1));
  }

  -- without the frame at place `h`
  abbrev pub dropped :
      (y h : ℕ)
      → 0 < h
      → h < q.n
      → ((k : ℕ) → 0 < k → k < q.n → k ≢ h → q.s k - 3 ≢ y)
      → Queue head y (record m { links = deleted l (q.s h) }) (deleted l (q.s h))
  dropped y h pos lt other = record {
    n = q.n - 1;
    s = without h q.s;
    pos = place_without h q.pos;
    ring = deleted-Ring q.ring h lt;
    some_place = omega arith;
    head_at = ground (arith, q.head_at);
    frames = λ k p l. ground (arith, q.frames k, q.frames (k + 1), other k, other (k + 1));
  }

  -- the places whose links an insertion and a deletion change
  pub insert_kept :
      (c : Ptr) (g : ℕ) (e : Ptr)
      → 0 < g
      → g ≤ q.n
      → ((k : ℕ) → k < q.n → q.s k ≢ e)
      → e ≢ c
      → let l' = inserted l c (q.s (g - 1)) (q.s (if g == q.n then 0 else g)) in
        (l'.next e ≡ l.next e) × (l'.prev e ≡ l.prev e)
  insert_kept c g e pos le out ne = ground (arith, out (g - 1), out g, out 0)

  pub delete_kept :
      (h : ℕ) (e : Ptr)
      → h < q.n
      → ((k : ℕ) → k < q.n → q.s k ≢ e)
      → ((deleted l (q.s h)).next e ≡ l.next e) × ((deleted l (q.s h)).prev e ≡ l.prev e)
  delete_kept h e lt out = ground (
    arith,
    out h lt,
    out (after q.n h),
    out (before q.n h),
    q.ring.next h lt,
    prev_of q.ring h lt,
  )

  -- the queue where other links change
  abbrev pub stays :
      (y : ℕ) (l' : Links)
      → ((k : ℕ)
          → k < q.n
          → (l'.next (q.s k) ≡ l.next (q.s k)) × (l'.prev (q.s k) ≡ l.prev (q.s k)))
      → ((k : ℕ) → 0 < k → k < q.n → q.s k - 3 ≢ y)
      → Queue head y (record m { links = l' }) l'
  stays y l' keep other = record {
    n = q.n;
    s = q.s;
    pos = q.pos;
    ring = Ring-kept q.ring keep;
    some_place = q.some_place;
    head_at = q.head_at;
    frames = λ k p l. ground (arith, q.frames k, other k);
  }

-- The links after an insertion into the queue at place `g`.
abbrev pub join_links :
    {head : Ptr} {x : ℕ} {m : Machine} {l : Links} → Queue head x m l → ℕ → ℕ → Links
join_links {l = l} q i g = inserted l (i + 3) (q.s (g - 1)) (q.s (if g == q.n then 0 else g))

-- The frame that was set aside joins a queue.
module _ {m : Machine} (i : ℕ) (lt : i < m.frame_count) (busy : (m.frames i).free ≡ false)
    (t : S2qTracked i m) where
  pub out_a1 : (k : ℕ) → k < t.a1.n → t.a1.s k ≢ i + 3
  out_a1 k l = ground (arith, t.a1.frames k, t.a1.head_at)

  pub out_am : (k : ℕ) → k < t.am.n → t.am.s k ≢ i + 3
  out_am k l = ground (arith, t.am.frames k, t.am.head_at)

  pub join_a1 :
      Ordered m.frame_count
        (record m { links = join_links t.a1 i t.a1.n })
        (queue t.a1 ++ (i + 3) ∷ [])
        (queue t.am)
  join_a1 = (
    record {
      a1 = pushed t.a1 i t.a1.n lt busy out_a1 t.a1.some_place (omega arith);
      am =
          stays t.am m.frame_count (join_links t.a1 i t.a1.n)
            (λ k a.
              insert_kept t.a1 (i + 3) t.a1.n (t.am.s k) t.a1.some_place (omega arith)
                (λ j b. t.apart j k b a) (out_am k a))
            (λ k p a. ground (arith, t.am.frames k p a));
      apart = λ k j a b. ground (arith, t.apart k j, t.apart (k - 1) j, out_am j);
      members = λ j a ne b. ground (arith, t.members j a);
      unlinked = λ j a f. ground (arith, t.unlinked j a, t.a1.frames (t.a1.n - 1), t.a1.head_at);
    },
    queue_back t.a1 (i + 3),
    refl,
  )

  pub join_am :
      Ordered m.frame_count
        (record m { links = join_links t.am i 1 })
        (queue t.a1)
        ((i + 3) ∷ queue t.am)
  join_am = (
    record {
      a1 =
          stays t.a1 m.frame_count (join_links t.am i 1)
            (λ k a.
              insert_kept t.am (i + 3) 1 (t.a1.s k) (omega arith) (omega (arith, t.am.some_place))
                (λ j b e. t.apart k j a b (sym e)) (out_a1 k a))
            (λ k p a. ground (arith, t.a1.frames k p a));
      am = pushed t.am i 1 lt busy out_am (omega arith) (omega (arith, t.am.some_place));
      apart = λ k j a b. ground (arith, t.apart k j, t.apart k (j - 1), out_a1 k);
      members = λ j a ne b. ground (arith, t.members j a);
      unlinked = λ j a f. ground (arith, t.unlinked j a, t.am.head_at, t.am.some_place);
    },
    refl,
    queue_front t.am (i + 3),
  )

-- A frame in use is set aside.
module _ {m : Machine} (t : S2qTracked m.frame_count m) where
  pub leave_a1 :
      (h : ℕ)
      → 0 < h
      → h < t.a1.n
      → Ordered
          (t.a1.s h - 3)
          (record m { links = deleted m.links (t.a1.s h) })
          (remove (t.a1.s h) (queue t.a1))
          (remove (t.a1.s h) (queue t.am))
  leave_a1 h pos lt =
      let f = t.a1.s h - 3 in
      (
        record {
          a1 = dropped t.a1 f h pos lt (λ k p a d.
              ground (arith, t.a1.frames k, t.a1.frames h, t.a1.ring.place k, t.a1.ring.place h));
          am =
              stays t.am f (deleted m.links (t.a1.s h))
                (λ k a. delete_kept t.a1 h (t.am.s k) lt (λ j b. t.apart j k b a))
                (λ k p a. ground (arith, t.am.frames k, t.a1.frames h, t.apart h k));
          apart = λ k j a b. ground (arith, t.apart k j, t.apart (k + 1) j);
          members = λ j a ne b. ground (arith, t.members j a, t.a1.ring.place h lt, t.a1.frames h);
          unlinked = λ j a w. ground (
            arith,
            t.unlinked j a,
            t.a1.frames h,
            t.a1.frames (before t.a1.n h),
            t.a1.head_at,
            prev_of t.a1.ring h lt,
          );
        },
        queue_present t.a1 h pos lt,
        sym (queue_absent t.am (t.a1.s h) (λ k a e. t.apart h k lt a (sym e))),
      )

  pub leave_am :
      (h : ℕ)
      → 0 < h
      → h < t.am.n
      → Ordered
          (t.am.s h - 3)
          (record m { links = deleted m.links (t.am.s h) })
          (remove (t.am.s h) (queue t.a1))
          (remove (t.am.s h) (queue t.am))
  leave_am h pos lt =
      let f = t.am.s h - 3 in
      (
        record {
          a1 =
              stays t.a1 f (deleted m.links (t.am.s h))
                (λ k a. delete_kept t.am h (t.a1.s k) lt (λ j b e. t.apart k j a b (sym e)))
                (λ k p a. ground (arith, t.a1.frames k, t.am.frames h, t.apart k h));
          am = dropped t.am f h pos lt (λ k p a d.
              ground (arith, t.am.frames k, t.am.frames h, t.am.ring.place k, t.am.ring.place h));
          apart = λ k j a b. ground (arith, t.apart k j, t.apart k (j + 1));
          members = λ j a ne b. ground (arith, t.members j a, t.am.ring.place h lt, t.am.frames h);
          unlinked = λ j a w. ground (
            arith,
            t.unlinked j a,
            t.am.frames h,
            t.am.frames (before t.am.n h),
            t.am.head_at,
            prev_of t.am.ring h lt,
          );
        },
        sym (queue_absent t.a1 (t.am.s h) (λ k a. t.apart k h a lt)),
        queue_present t.am h pos lt,
      )

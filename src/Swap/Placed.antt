-- ===== src/Swap/Placed.antt =====
-- The slot at which CSC369_SwapPageOut writes, among the slots in use.
use csc369_os_a.Base.{ℕ, ◌+◌, ◌/◌, ◌%◌, ◌≤◌, ◌<◌, ◌≡◌, refl, ap, some, none, arith}
use native.Mathlib.Decide.{ℕ_discrete}
use csc369_os_a.PageTable.{Offset}
use csc369_os_a.Bitutil.{Bitmap}
use csc369_os_a.Bitutil.Alloc.{IsBitmap, used}
use csc369_os_a.Bitutil.Count.{count_used}
use csc369_os_a.Swap.{frame_size}
use csc369_os_a.Swap.PageOut.{Placed}

-- `o` is the offset of a slot of the bitmap, in use
pub record InUse (b : Bitmap) (o : ℕ) : Type 0 where
  pub aligned : o % frame_size ≡ 0
  pub inside : o / frame_size < b.nbits
  pub taken : used b (o / frame_size) ≡ 1

pub record SlotFacts (b : Bitmap) (old : Offset) (o : ℕ) (b' : Bitmap) : Type 0 where
  pub bitmap : IsBitmap b'
  pub nbits : b'.nbits ≡ b.nbits
  pub in_use : InUse b' o
  pub kept : (i : ℕ) → used b i ≡ 1 → used b' i ≡ 1
  pub own : used b (o / frame_size) ≡ 1 → old ≡ some o
  pub count : count_used b' ≤ count_used b + 1

-- The slot is in use afterwards, every slot that was in use still is, and the slot was in use before
-- only if the page had it.
pub Placed-SlotFacts :
    (b : Bitmap) (old : Offset) (o : ℕ) (b' : Bitmap)
    → IsBitmap b
    → ((p : ℕ) → old ≡ some p → InUse b p)
    → Placed b old o b'
    → SlotFacts b old o b'
Placed-SlotFacts b none o b' v was (i, e, t, more) =
    let d : o / frame_size ≡ i = omega arith in
    record {
      bitmap = t.bitmap;
      nbits = t.nbits;
      in_use = record {
        aligned = omega arith;
        inside = omega (arith, t.inside, t.nbits);
        taken = rw d t.is_used;
      };
      kept = λ j u. elim (ℕ_discrete j i) [
        | yes s ↦ rw s t.is_used
        | no ne ↦ omega (arith, t.others j ne)
      ];
      own = λ u. absurd (omega (arith, t.was_free, ap (used b) d));
      count = omega arith;
    }
Placed-SlotFacts b (some p) o b' v was (e, same) = record {
  bitmap = rw same v;
  nbits = rw same;
  in_use = rw (same, e) (was p refl);
  kept = λ j u. rw same u;
  own = λ u. rw e;
  count = rw same (omega arith);
}

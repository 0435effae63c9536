-- ===== src/Bitutil/Count.antt =====
-- How many bits of a bitmap are in use.
use csc369_os_a.Base.{ℕ, zero, suc, ◌+◌, ◌<◌, ◌≡◌, arith, Option, none, some}
use native.Mathlib.Decide.{ℕ_discrete}
use csc369_os_a.Base.Returns
use csc369_os_a.Base.Returns.{Returns}
use csc369_os_a.Bitutil.{Bitmap, bitmap_alloc}
use csc369_os_a.Bitutil.Alloc.{used, IsBitmap, Takes, Allocated, bitmap_alloc-Allocated}

abbrev pub count_below : Bitmap → ℕ → ℕ
count_below b zero = 0
count_below b (suc n) = count_below b n + used b n

abbrev pub count_used : Bitmap → ℕ
count_used b = count_below b b.nbits

count_same :
    (b c : Bitmap) (n : ℕ)
    → ((j : ℕ) → j < n → used c j ≡ used b j)
    → count_below c n ≡ count_below b n
count_same b c zero h = omega arith
count_same b c (suc n) h =
    omega (arith, h n (omega arith), count_same b c n (λ j l. h j (omega arith)))

count_more :
    {b c : Bitmap} {i : ℕ} (n : ℕ) → Takes b i c → i < n → count_below c n ≡ count_below b n + 1
count_more zero t l = elim l [ ]
count_more {b} {c} {i} (suc n) t l = elim (ℕ_discrete i n) [
  | yes e ↦
      let same = count_same b c n (λ j lt. t.others j (omega arith)) in
      let one : used c n ≡ 1 = rw (← e) t.is_used in
      let nil : used b n ≡ 0 = rw (← e) t.was_free in omega arith
  | no ne ↦ omega (arith, t.others n (λ e. ne (omega arith)), count_more n t (omega arith))
]

count_full : (b : Bitmap) (n : ℕ) → ((i : ℕ) → i < n → used b i ≡ 1) → count_below b n ≡ n
count_full b zero h = omega arith
count_full b (suc n) h = omega (arith, h n (omega arith), count_full b n (λ i l. h i (omega arith)))

pub count_none : (b : Bitmap) (n : ℕ) → ((i : ℕ) → i < n → used b i ≡ 0) → count_below b n ≡ 0
count_none b zero h = omega arith
count_none b (suc n) h = omega (arith, h n (omega arith), count_none b n (λ i l. h i (omega arith)))

-- What an allocation gives when a bit is free: one more bit in use.
abbrev pub Gives : Bitmap → Option ℕ → Bitmap → Type 0
Gives b none b' = ⊥
Gives b (some i) b' = Takes b i b' × (count_used b' ≡ count_used b + 1)

gives :
    (b : Bitmap) (r : Option ℕ) (b' : Bitmap)
    → count_used b < b.nbits
    → Allocated b r b'
    → Gives b r b'
gives b none b' l a = omega (arith, count_full b b.nbits a.1)
gives b (some i) b' l t = (t, rw t.nbits (count_more b.nbits t t.inside))

-- On a well-formed bitmap, while fewer bits are in use than there are, CSC369_BitmapAlloc succeeds, and the count of used
-- bits goes up by one.
pub bitmap_alloc-Gives :
    {b : Bitmap} → IsBitmap b → count_used b < b.nbits → Returns (Gives b) (bitmap_alloc b)
bitmap_alloc-Gives {b} v l = Returns.mono (bitmap_alloc-Allocated v) (λ r b' a. gives b r b' l a)

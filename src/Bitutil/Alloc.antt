-- ===== src/Bitutil/Alloc.antt =====
-- CSC369_BitmapAlloc takes the first free bit.
use csc369_os_a.Base.{
  ℕ, zero, suc, ◌+◌, ◌*◌, ◌/◌, ◌%◌, ◌^◌, ◌≤◌, ◌<◌, ◌≡◌, ◌≢◌, refl, bit_and, bit_or, Option, none,
  some, false, update, ◌∙◌, ==_iff, all_below_sound, arith, ◌==◌,
}
use native.Mathlib.Decide.{ℕ_discrete, dec_lt}
use csc369_os_a.Base.Bits.{
  bit, bit_le, bit-bit_or, bit-pow_self, bit-pow_ne, bit_and-pow_of_zero, zero_of_bit_and-pow,
  full-bits, bit_or-lt_pow, pow-lt_pow,
}
use csc369_os_a.Base.Returns.{Returns, returns}
use csc369_os_a.Bitutil.{
  Bitmap, all_ones, bits_per_word, nwords_for_nbits, shl, take_bit, alloc_bit, alloc_word,
  bitmap_alloc,
}

pub all_ones-bit : (k : ℕ) → k < 64 → bit all_ones k ≡ 1
all_ones-bit k l = (==_iff _ 1).0 (all_below_sound 64 (λ k. bit all_ones k == 1) k refl l)

-- 1 if bit `i` of the bitmap is in use, else 0
abbrev pub used : Bitmap → ℕ → ℕ
used b i = bit (b.words (i / bits_per_word)) (i % bits_per_word)

-- Words are 64 bits, the leftover bits of the last word are in use, and the count of words does not
-- wrap.
pub record IsBitmap (b : Bitmap) : Type 0 where
  pub small : b.nbits + bits_per_word ≤ 2 ^ 64
  pub word : (idx : ℕ) → b.words idx < 2 ^ 64
  pub leftover : (i : ℕ) → b.nbits ≤ i → i < nwords_for_nbits b.nbits * bits_per_word → used b i ≡ 1

-- `b'` is `b` with the free bit `i` in use.
pub record Takes (b : Bitmap) (i : ℕ) (b' : Bitmap) : Type 0 where
  pub bitmap : IsBitmap b'
  pub nbits : b'.nbits ≡ b.nbits
  pub inside : i < b.nbits
  pub first : (j : ℕ) → j < i → used b j ≡ 1
  pub was_free : used b i ≡ 0
  pub is_used : used b' i ≡ 1
  pub others : (j : ℕ) → j ≢ i → used b' j ≡ used b j

-- What an allocation returns: the first free bit, or nothing if all are in use.
abbrev pub Allocated : Bitmap → Option ℕ → Bitmap → Type 0
Allocated b none b' = (b' ≡ b) × ((i : ℕ) → i < b.nbits → used b i ≡ 1)
Allocated b (some i) b' = Takes b i b'

pub shl_one : (k : ℕ) → k < 64 → shl 1 k ≡ 2 ^ k
shl_one k h = omega (arith, pow-lt_pow k 64 h)

module _ (b : Bitmap) (v : IsBitmap b) where
  module _ (idx o : ℕ) (lo : o < 64) (li : idx < nwords_for_nbits b.nbits)
      (free : bit (b.words idx) o ≡ 0) (before : (j : ℕ) → j < idx * 64 + o → used b j ≡ 1) where
    abbrev taken : Bitmap
    taken = record b { words = update b.words idx (bit_or (b.words idx) (2 ^ o)) }

    at_index : used b (idx * 64 + o) ≡ 0
    at_index =
        let d : (idx * 64 + o) / 64 ≡ idx = omega arith in
        let m : (idx * 64 + o) % 64 ≡ o = omega arith in rw (d, m) free

    index_inside : idx * 64 + o < b.nbits
    index_inside = elim (dec_lt (idx * 64 + o) b.nbits) [
      | yes h ↦ h
      | no h ↦
          absurd (omega (arith, at_index, v.leftover (idx * 64 + o) (omega arith) (omega arith)))
    ]

    take_run : take_bit idx o b ≡ some (some (idx * 64 + o), taken)
    unfolding take_bit
    take_run = rw (shl_one o lo) (ground (arith, index_inside))

    used-taken_self : used taken (idx * 64 + o) ≡ 1
    used-taken_self =
        let d : (idx * 64 + o) / 64 ≡ idx = omega arith in
        let m : (idx * 64 + o) % 64 ≡ o = omega arith in
        rw (d, m)
          (ground
            (arith, bit-bit_or (b.words idx) (2 ^ o) o, bit-pow_self o, bit_le (b.words idx) o))

    used-taken_ne : (j : ℕ) → j ≢ idx * 64 + o → used taken j ≡ used b j
    used-taken_ne j ne = elim (ℕ_discrete idx (j / 64)) [
      | yes e ↦
          let k = j % 64 in
          let apart : o ≢ j % 64 = omega arith in
          ground (arith, bit-bit_or (b.words idx) (2 ^ o) (j % 64), bit-pow_ne o (j % 64) apart, e)
      | no d ↦ ground arith
    ]

    taken-IsBitmap : IsBitmap taken
    taken-IsBitmap = record {
      small = v.small;
      word = λ i. ground (
        arith,
        v.word i,
        bit_or-lt_pow 64 (b.words idx) (2 ^ o) (v.word idx) (pow-lt_pow o 64 lo),
      );
      leftover = λ i le lt. used-taken_ne i (omega (arith, index_inside)) ∙ v.leftover i le lt;
    }

    take_bit-Takes : Returns (Allocated b) (take_bit idx o b)
    take_bit-Takes = rw take_run (
        returns (record {
          bitmap = taken-IsBitmap;
          nbits = refl;
          inside = index_inside;
          first = before;
          was_free = at_index;
          is_used = used-taken_self;
          others = used-taken_ne;
        }))

  -- the bits before the next one are in use too
  used_before :
      (idx o : ℕ)
      → o < 64
      → bit (b.words idx) o ≢ 0
      → ((j : ℕ) → j < idx * 64 + o → used b j ≡ 1)
      → (j : ℕ) → j < idx * 64 + (o + 1)
      → used b j ≡ 1
  used_before idx o lo nz before j lt = elim (ℕ_discrete j (idx * 64 + o)) [
    | yes e ↦
        let d : j / 64 ≡ idx = omega arith in
        let m : j % 64 ≡ o = omega arith in rw (d, m) (omega (arith, bit_le (b.words idx) o))
    | no ne ↦ before j (omega arith)
  ]

  full_word : (idx : ℕ) → ((j : ℕ) → j < idx * 64 + 64 → used b j ≡ 1) → b.words idx ≡ all_ones
  full_word idx before =
      let all = full-bits 64 (b.words idx) (v.word idx) (λ k l. bit_of k l) in omega arith
    where
      bit_of : (k : ℕ) → k < 64 → bit (b.words idx) k ≡ 1
      bit_of k l =
          let d : (idx * 64 + k) / 64 ≡ idx = omega arith in
          let m : (idx * 64 + k) % 64 ≡ k = omega arith in
          rw (d, m) at (before (idx * 64 + k) (omega arith))

  alloc_bit-Allocated :
      (n idx o : ℕ)
      → o + n ≡ 64
      → idx < nwords_for_nbits b.nbits
      → b.words idx ≢ all_ones
      → ((j : ℕ) → j < idx * 64 + o → used b j ≡ 1)
      → Returns (Allocated b) (alloc_bit n idx o b)
  unfolding alloc_bit
  alloc_bit-Allocated zero idx o e li ne before =
      absurd (ne (full_word idx (λ j l. before j (omega arith))))
  alloc_bit-Allocated (suc n) idx o e li ne before =
      elim (ℕ_discrete (bit_and (b.words idx) (shl 1 o)) 0) [
        | yes z ↦
            let free = zero_of_bit_and-pow (b.words idx) o (rw (shl_one o (omega arith)) at z) in
            rw z (take_bit-Takes idx o (omega arith) li free before)
        | no nz ↦
            let set = λ (f : bit (b.words idx) o ≡ 0).
              nz (rw (shl_one o (omega arith)) (bit_and-pow_of_zero (b.words idx) o f)) in
            let no_test : (bit_and (b.words idx) (shl 1 o) == 0) ≡ false = ground arith in
            rw no_test (
              alloc_bit-Allocated n idx (o + 1) (omega arith) li ne
                (used_before idx o (omega arith) set before))
      ]

  alloc_word-Allocated :
      (n idx : ℕ)
      → idx + n ≡ nwords_for_nbits b.nbits
      → ((j : ℕ) → j < idx * 64 → used b j ≡ 1)
      → Returns (Allocated b) (alloc_word n idx b)
  unfolding alloc_word
  alloc_word-Allocated zero idx e before = returns (refl, λ i l. before i (omega (arith, v.small)))
  alloc_word-Allocated (suc n) idx e before = elim (ℕ_discrete (b.words idx) all_ones) [
    | yes f ↦ rw f (alloc_word-Allocated n (idx + 1) (omega arith) (full_before f))
    | no nf ↦
        let no_test : (b.words idx == all_ones) ≡ false = ground arith in
        rw no_test
          (alloc_bit-Allocated 64 idx 0 refl (omega arith) nf (λ j l. before j (omega arith)))
  ]
    where
      full_before : b.words idx ≡ all_ones → (j : ℕ) → j < (idx + 1) * 64 → used b j ≡ 1
      full_before f j l = elim (dec_lt j (idx * 64)) [
        | yes h ↦ before j h
        | no h ↦
            let d : j / 64 ≡ idx = omega arith in rw (d, f) (all_ones-bit (j % 64) (omega arith))
      ]

-- On a well-formed bitmap CSC369_BitmapAlloc never runs into its `assert(false)`: it takes the first free bit and changes
-- no other, or returns -1 with the bitmap as it was when every bit is in use.
pub bitmap_alloc-Allocated : {b : Bitmap} → IsBitmap b → Returns (Allocated b) (bitmap_alloc b)
unfolding bitmap_alloc
bitmap_alloc-Allocated {b} v =
    alloc_word-Allocated b v (nwords_for_nbits b.nbits) 0 (omega arith)
      (λ j l. absurd (omega arith))

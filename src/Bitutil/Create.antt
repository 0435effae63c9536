-- ===== src/Bitutil/Create.antt =====
-- CSC369_BitmapCreate: a bitmap with every bit free.
use csc369_os_a.Base.{
  ℕ, zero, suc, ◌+◌, ◌-◌, ◌*◌, ◌/◌, ◌%◌, ◌^◌, ◌≤◌, ◌<◌, ◌≡◌, ◌≢◌, refl, bit_or, some, leb, ltb,
  ◌&&◌, if◌then◌else◌, arith, update,
}
use native.Mathlib.Decide.{ℕ_discrete}
use csc369_os_a.Base.Bits.{
  bit, bit_le, zero-bit, bit-bit_or, bit-pow_self, bit-pow_ne, bit_or-lt_pow,
}
use csc369_os_a.Bitutil.{Bitmap, nwords_for_nbits, shl, mark_bits, bitmap_create}
use csc369_os_a.Bitutil.Alloc.{used, IsBitmap, shl_one}

bit-or_shl :
    (w j k : ℕ) → j < 64 → bit (bit_or w (shl 1 j)) k ≡ (if leb j k && leb k j then 1 else bit w k)
bit-or_shl w j k l = elim (ℕ_discrete j k) [
  | yes e ↦ rw (shl_one j l) (ground (arith, bit-bit_or w (2 ^ j) k, bit-pow_self k, bit_le w k))
  | no d ↦ rw (shl_one j l) (ground (arith, bit-bit_or w (2 ^ j) k, bit-pow_ne j k d))
]

bit-mark_bits :
    (n j w k : ℕ)
    → j + n ≤ 64
    → bit (mark_bits n j w) k ≡ (if leb j k && ltb k (j + n) then 1 else bit w k)
unfolding mark_bits
bit-mark_bits zero j w k l = ground arith
bit-mark_bits (suc n) j w k l = ground (
  arith,
  bit-mark_bits n (j + 1) (bit_or w (shl 1 j)) k (omega arith),
  bit-or_shl w j k (omega arith),
)

mark_bits-lt : (n j w : ℕ) → j + n ≤ 64 → w < 2 ^ 64 → mark_bits n j w < 2 ^ 64
unfolding mark_bits
mark_bits-lt zero j w l h = h
mark_bits-lt (suc n) j w l h =
    mark_bits-lt n (j + 1) (bit_or w (shl 1 j)) (omega arith)
      (bit_or-lt_pow 64 w (shl 1 j) h (omega arith))

-- A bitmap of `n` bits, all free.
pub record Fresh (n : ℕ) (b : Bitmap) : Type 0 where
  pub bitmap : IsBitmap b
  pub nbits : b.nbits ≡ n
  pub free : (i : ℕ) → i < n → used b i ≡ 0

abbrev marked : ℕ → Bitmap
marked n = record {
  nbits = n;
  words = update (λ _. 0) (n / 64) (mark_bits (64 - n % 64) (n % 64) 0);
}

module _ (n : ℕ) (small : n + 64 ≤ 2 ^ 64) where
  used-marked :
      (i : ℕ)
      → n % 64 ≢ 0
      → used (marked n) i ≡ (if leb n i && ltb i (n / 64 * 64 + 64) then 1 else 0)
  used-marked i ne =
      ground
        (arith, bit-mark_bits (64 - n % 64) (n % 64) 0 (i % 64) (omega arith), zero-bit (i % 64))

  marked-Fresh : n % 64 ≢ 0 → Fresh n (marked n)
  marked-Fresh ne = record {
    bitmap = record {
      small = small;
      word = λ i. ground (arith, mark_bits-lt (64 - n % 64) (n % 64) 0 (omega arith) (omega arith));
      leftover = λ i le lt. ground (arith, used-marked i ne);
    };
    nbits = refl;
    free = λ i lt. ground (arith, used-marked i ne);
  }

  plain-Fresh : n % 64 ≡ 0 → Fresh n (record { nbits = n; words = λ _. 0 })
  plain-Fresh e = record {
    bitmap = record {
      small = small;
      word = λ i. omega arith;
      leftover = λ i le lt. absurd (omega arith);
    };
    nbits = refl;
    free = λ i lt. zero-bit (i % 64);
  }

  -- For fewer than 2^64 - 63 bits CSC369_BitmapCreate passes its asserts, and returns a well-formed bitmap of that many bits, all
  -- of them free.
  pub bitmap_create-Fresh : (b : Bitmap) × (bitmap_create n ≡ some b) × Fresh n b
  unfolding bitmap_create
  bitmap_create-Fresh = elim (ℕ_discrete (n % 64) 0) [
    | yes e ↦ (record { nbits = n; words = λ _. 0 }, ground arith, plain-Fresh e)
    | no ne ↦
        let d : nwords_for_nbits n - 1 ≡ n / 64 = omega arith in
        let o : n - n / 64 * 64 ≡ n % 64 = omega arith in
        (marked n, rw (d, o) (ground arith), marked-Fresh ne)
  ]

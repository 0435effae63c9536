-- ===== src/Bitutil/Fields.antt =====
-- The bitfield functions of csc369_bitutil.c: the bits of what they return, and the fields that they
-- read and write.
use csc369_os_a.Base.{
  ℕ, ◌+◌, ◌-◌, ◌*◌, ◌/◌, ◌%◌, ◌^◌, ◌≤◌, ◌<◌, ◌≡◌, bit_and, Bool, true, false, ◌&&◌, leb, ltb, ◌==◌,
  if◌then◌else◌, arith,
}
use native.Mathlib.Decide.{ℕ_discrete, dec_lt}
use csc369_os_a.Base.Bits.{
  bit, bit_le, bit-bit_and, bit-bit_or, bit_ext, bit-pow_self, bit-pow_ne, bit_and-pow_of_zero,
  zero_of_bit_and-pow, pow-lt_pow, bit_or-lt_pow, bit_and-lt_pow,
}
use csc369_os_a.Base.Shift.{bit-div_pow, bit-mul_pow, bit-mod_pow, bit-complement, bit_of_lt}
use csc369_os_a.Bitutil.{
  all_ones, complement, shl, create_mask, get_bit, set_bit, get_bits, set_bits,
}
use csc369_os_a.Bitutil.Alloc.{all_ones-bit, shl_one}

bit-shl :
    (x k j : ℕ) → bit (shl x k) j ≡ (if ltb j 64 then (if ltb j k then 0 else bit x (j - k)) else 0)
bit-shl x k j = ground (arith, bit-mod_pow (x * 2 ^ k) 64 j, bit-mul_pow x k j)

shl-lt : (x k : ℕ) → shl x k < 2 ^ 64
shl-lt x k = omega arith

-- the bits from `lsb` on, `count` of them
abbrev in_field : ℕ → ℕ → ℕ → Bool
in_field count lsb j = leb lsb j && ltb j (lsb + count)

bit-low_mask :
    (count j : ℕ)
    → j < 64
    → bit (complement (shl all_ones count)) j ≡ (if ltb j count then 1 else 0)
bit-low_mask count j l = ground (
  arith,
  bit-complement 64 (shl all_ones count) j (shl-lt all_ones count) l,
  bit-shl all_ones count j,
  all_ones-bit (j - count) (omega arith),
)

bit-create_mask :
    (count lsb j : ℕ)
    → j < 64
    → bit (create_mask count lsb) j ≡ (if in_field count lsb j then 1 else 0)
unfolding create_mask
bit-create_mask count lsb j l = ground (
  arith,
  bit-shl (complement (shl all_ones count)) lsb j,
  bit-low_mask count (j - lsb) (omega arith),
)

bit-get_bits :
    (f count lsb j : ℕ)
    → f < 2 ^ 64
    → bit (get_bits f count lsb) j ≡ (if ltb j count then bit f (lsb + j) else 0)
unfolding get_bits
bit-get_bits f count lsb j h = elim (dec_lt (lsb + j) 64) [
  | yes l ↦ ground (
    arith,
    bit-div_pow (bit_and f (create_mask count lsb)) lsb j,
    bit-bit_and f (create_mask count lsb) (lsb + j),
    bit-create_mask count lsb (lsb + j) l,
    bit_le f (lsb + j),
  )
  | no n ↦ ground (
    arith,
    bit-div_pow (bit_and f (create_mask count lsb)) lsb j,
    bit-bit_and f (create_mask count lsb) (lsb + j),
    bit_of_lt 64 f (lsb + j) h,
  )
]

-- The value of a field is that of its bits, by division and remainder.
pub get_bits_lem : (f count lsb : ℕ) → f < 2 ^ 64 → get_bits f count lsb ≡ f / 2 ^ lsb % 2 ^ count
get_bits_lem f count lsb h = bit_ext _ _ λ j.
    ground
      (arith, bit-get_bits f count lsb j h, bit-mod_pow (f / 2 ^ lsb) count j, bit-div_pow f lsb j)

create_mask-lt : (count lsb : ℕ) → create_mask count lsb < 2 ^ 64
unfolding create_mask
create_mask-lt count lsb = shl-lt (complement (shl all_ones count)) lsb

bit-set_bits :
    (f count lsb v j : ℕ)
    → f < 2 ^ 64
    → lsb + count ≤ 64
    → bit (set_bits f count lsb v) j ≡ (if in_field count lsb j then bit v (j - lsb) else bit f j)
unfolding set_bits
bit-set_bits f count lsb v j h fits =
    let mask = create_mask count lsb in
    let ors = bit-bit_or (bit_and f (complement mask)) (bit_and (shl v lsb) mask) j in
    let kept = bit-bit_and f (complement mask) j in
    let new = bit-bit_and (shl v lsb) mask j in
    elim (dec_lt j 64) [
      | yes l ↦ ground (
        arith,
        ors,
        kept,
        new,
        bit-complement 64 mask j (create_mask-lt count lsb) l,
        bit-create_mask count lsb j l,
        bit-shl v lsb j,
        bit_le f j,
        bit_le v (j - lsb),
      )
      | no n ↦
          ground
            (arith, ors, kept, new, bit_of_lt 64 f j h, bit_of_lt 64 (shl v lsb) j (shl-lt v lsb))
    ]

set_bits-lt : (f count lsb v : ℕ) → f < 2 ^ 64 → set_bits f count lsb v < 2 ^ 64
unfolding set_bits create_mask
set_bits-lt f count lsb v h =
    bit_or-lt_pow 64 _ _ (bit_and-lt_pow 64 f _ h) (bit_and-lt_pow 64 _ _ (shl-lt v lsb))

get_bit_lem : (f j : ℕ) → j < 64 → get_bit f j ≡ (bit f j == 1)
unfolding get_bit
get_bit_lem f j l = elim (ℕ_discrete (bit f j) 0) [
  | yes e ↦ rw (shl_one j l) (ground (arith, bit_and-pow_of_zero f j e))
  | no d ↦ rw (shl_one j l) (ground (arith, zero_of_bit_and-pow f j, bit_le f j))
]

-- In a field of at most 63 bits that lies within a 64-bit bitfield, CSC369_BitfieldGetBits reads the
-- low bits of the value that CSC369_BitfieldSetBits has written there. Each bit of the result is that
-- of the value inside the field, and that of the old bitfield outside it.
pub get_bits-set_bits :
    (f count lsb v : ℕ)
    → f < 2 ^ 64
    → lsb + count ≤ 64
    → lsb < 64
    → count < 64
    → (get_bits (set_bits f count lsb v) count lsb ≡ v % 2 ^ count)
      × ((j : ℕ)
          → j < 64
          → get_bit (set_bits f count lsb v) j
            ≡ (if leb lsb j && ltb j (lsb + count) then get_bit v (j - lsb) else get_bit f j))
get_bits-set_bits f count lsb v h fits _ _ = (
  bit_ext _ _ λ j. ground (
    arith,
    bit-get_bits (set_bits f count lsb v) count lsb j (set_bits-lt f count lsb v h),
    bit-set_bits f count lsb v (lsb + j) h fits,
    bit-mod_pow v count j,
  ),
  λ j l. ground (
    arith,
    get_bit_lem (set_bits f count lsb v) j l,
    get_bit_lem f j l,
    get_bit_lem v (j - lsb) (omega arith),
    bit-set_bits f count lsb v j h fits,
  ),
)

bit-set_bit :
    (f i j : ℕ) (v : Bool)
    → i < 64
    → j < 64
    → bit (set_bit f i v) j ≡ (if i == j then (if v then 1 else 0) else bit f j)
unfolding set_bit
bit-set_bit f i j true li lj = elim (ℕ_discrete i j) [
  | yes e ↦ rw (shl_one i li) (ground (arith, bit-bit_or f (2 ^ i) j, bit-pow_self i, bit_le f j))
  | no d ↦ rw (shl_one i li) (ground (arith, bit-bit_or f (2 ^ i) j, bit-pow_ne i j d))
]
bit-set_bit f i j false li lj =
    let mask = 2 ^ i in
    let lt : mask < 2 ^ 64 = pow-lt_pow i 64 li in
    elim (ℕ_discrete i j) [
      | yes e ↦ rw (shl_one i li) (
          ground (
            arith,
            bit-bit_and f (complement mask) j,
            bit-complement 64 mask j lt lj,
            bit-pow_self i,
            bit_le f j,
          ))
      | no d ↦ rw (shl_one i li) (
          ground (
            arith,
            bit-bit_and f (complement mask) j,
            bit-complement 64 mask j lt lj,
            bit-pow_ne i j d,
            bit_le f j,
          ))
    ]

-- CSC369_BitfieldSetBit changes the one bit that it names.
pub get_bit-set_bit :
    (f i j : ℕ) (v : Bool)
    → i < 64
    → j < 64
    → get_bit (set_bit f i v) j ≡ (if i == j then v else get_bit f j)
get_bit-set_bit f i j true li lj =
    ground
      (arith, get_bit_lem (set_bit f i true) j lj, get_bit_lem f j lj, bit-set_bit f i j true li lj)
get_bit-set_bit f i j false li lj =
    ground (
      arith,
      get_bit_lem (set_bit f i false) j lj,
      get_bit_lem f j lj,
      bit-set_bit f i j false li lj,
    )

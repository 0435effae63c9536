-- ===== src/Bitutil.antt =====
-- A2-zengzix2/src/csc369_bitutil.c: 64-bit bitfields, and the bitmap that allocates swap slots.
pub mod Alloc
pub mod Create
pub mod Count
pub mod Fields
mod Tests
use csc369_os_a.Base.{
  ℕ, zero, suc, ◌+◌, ◌-◌, ◌*◌, ◌/◌, ◌%◌, ◌^◌, bit_and, bit_or, Bool, not, ◌&&◌, Option, none, some,
  ltb, ◌==◌, if◌then◌else◌, M, pure, fault, ◌>>=◌, ◌>>◌, check, gets, modify, update,
}

-- UINT64_MAX, which is also word_all_bits
abbrev pub all_ones : ℕ
all_ones = 2 ^ 64 - 1

-- `~x`, `x << k` and `x >> k` on a uint64_t; in C a shift is defined for `k < 64`
abbrev pub complement : ℕ → ℕ
complement x = all_ones - x

abbrev pub shl : ℕ → ℕ → ℕ
shl x k = (x * 2 ^ k) % 2 ^ 64

abbrev pub shr : ℕ → ℕ → ℕ
shr x k = x / 2 ^ k

-- CSC369_CREATE_MASK
unfoldable pub create_mask : ℕ → ℕ → ℕ
create_mask bit_count bit_start = shl (complement (shl all_ones bit_count)) bit_start

-- CSC369_BitfieldGetBit
unfoldable pub get_bit : ℕ → ℕ → Bool
get_bit bitfield bit = not (bit_and bitfield (shl 1 bit) == 0)

-- CSC369_BitfieldSetBit
unfoldable pub set_bit : ℕ → ℕ → Bool → ℕ
set_bit bitfield bit value =
    if value then bit_or bitfield (shl 1 bit) else bit_and bitfield (complement (shl 1 bit))

-- CSC369_BitfieldGetBits
unfoldable pub get_bits : ℕ → ℕ → ℕ → ℕ
unfolding create_mask
get_bits bitfield count lsb = shr (bit_and bitfield (create_mask count lsb)) lsb

-- CSC369_BitfieldSetBits
unfoldable pub set_bits : ℕ → ℕ → ℕ → ℕ → ℕ
unfolding create_mask
set_bits bitfield count lsb value =
    let mask = create_mask count lsb in
    bit_or (bit_and bitfield (complement mask)) (bit_and (shl value lsb) mask)

abbrev pub bits_per_word : ℕ
bits_per_word = 64

-- nwords_for_nbits
abbrev pub nwords_for_nbits : ℕ → ℕ
nwords_for_nbits nbits = ((nbits + bits_per_word - 1) % 2 ^ 64) / bits_per_word

-- CSC369_Bitmap
pub record Bitmap : Type 0 where
  pub nbits : ℕ
  pub words : ℕ → ℕ

-- `for (j = j0; j < j0 + n; ++j) word |= 1 << j`
unfoldable pub mark_bits : ℕ → ℕ → ℕ → ℕ
mark_bits zero j word = word
mark_bits (suc n) j word = mark_bits n (j + 1) (bit_or word (shl 1 j))

-- The words of a new bitmap that needs `word_count` of them: the last has its leftover bits in use.
unfoldable pub mark_leftover : ℕ → ℕ → Option Bitmap
unfolding mark_bits
mark_leftover bit_count word_count =
    let idx = word_count - 1 in
    let overbits = bit_count - idx * bits_per_word in
    if bit_count / bits_per_word == idx && (ltb 0 overbits && ltb overbits bits_per_word)
    then some (record {
      nbits = bit_count;
      words = update (λ _. 0) idx (mark_bits (bits_per_word - overbits) overbits 0);
    })
    else none

-- CSC369_BitmapCreate, where `calloc` succeeds; `none` is a failed assert
unfoldable pub bitmap_create : ℕ → Option Bitmap
unfolding mark_leftover
bitmap_create bit_count =
    if ltb (bit_count / bits_per_word) (nwords_for_nbits bit_count)
    then mark_leftover bit_count (nwords_for_nbits bit_count)
    else some (record { nbits = bit_count; words = λ _. 0 })

-- Take bit `offset` of word `idx`.
unfoldable pub take_bit : ℕ → ℕ → M Bitmap (Option ℕ)
take_bit idx offset = do
  modify λ b. record b { words = update b.words idx (bit_or (b.words idx) (shl 1 offset)) }
  b ← gets (λ b. b)
  check (ltb (idx * bits_per_word + offset) b.nbits)
  pure (some (idx * bits_per_word + offset))

-- The inner loop of CSC369_BitmapAlloc, from `offset` on for `n` bits; it ends in `assert(false)`.
unfoldable pub alloc_bit : ℕ → ℕ → ℕ → M Bitmap (Option ℕ)
alloc_bit zero idx offset = fault
alloc_bit (suc n) idx offset = do
  b ← gets (λ b. b)
  let rest = alloc_bit n idx (offset + 1)
  if bit_and (b.words idx) (shl 1 offset) == 0 then take_bit idx offset else rest

-- The outer loop, from word `idx` on for `n` words.
unfoldable pub alloc_word : ℕ → ℕ → M Bitmap (Option ℕ)
alloc_word zero idx = pure none
alloc_word (suc n) idx = do
  b ← gets (λ b. b)
  let rest = alloc_word n (idx + 1)
  if b.words idx == all_ones then rest else alloc_bit bits_per_word idx 0

-- CSC369_BitmapAlloc: the index of the bit that it takes, or `none` for -1
unfoldable pub bitmap_alloc : M Bitmap (Option ℕ)
bitmap_alloc = do b ← gets (λ b. b); alloc_word (nwords_for_nbits b.nbits) 0

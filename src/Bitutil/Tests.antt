-- ===== src/Bitutil/Tests.antt =====
-- Bitmaps of csc369_bitutil.c at small sizes.
use csc369_os_a.Base.{
  ℕ, ◌<◌, leb, ltb, ◌&&◌, ◌%◌, ◌≡◌, ◌-◌, ◌^◌, ◌==◌, if◌then◌else◌, refl, some, arith,
}
use csc369_os_a.Base.Bits.{zero-bit}
use csc369_os_a.Base.Returns.{Returns}
use csc369_os_a.Bitutil.{Bitmap, bitmap_create, bitmap_alloc, get_bit, get_bits, set_bits}
use csc369_os_a.Bitutil.Alloc.{IsBitmap, Allocated, bitmap_alloc-Allocated}
use csc369_os_a.Bitutil.Create.{Fresh, bitmap_create-Fresh}
use csc369_os_a.Bitutil.Fields.{get_bits-set_bits}
use csc369_os_a.Bitutil.Count.{Gives, count_none, bitmap_alloc-Gives}

bitmap_create-Fresh_example : (b : Bitmap) × (bitmap_create 70 ≡ some b) × Fresh 70 b
bitmap_create-Fresh_example = bitmap_create-Fresh 70 (omega arith)

-- a bitmap whose first word is full
abbrev half : Bitmap
half = record { nbits = 128; words = λ i. if i == 0 then 2 ^ 64 - 1 else 0 }

half-IsBitmap : IsBitmap half
half-IsBitmap = record {
  small = omega arith;
  word = λ i. ground arith;
  leftover = λ i le lt. absurd (omega arith);
}

bitmap_alloc-Allocated_example : Returns (Allocated half) (bitmap_alloc half)
bitmap_alloc-Allocated_example = bitmap_alloc-Allocated half-IsBitmap

abbrev empty : Bitmap
empty = record { nbits = 64; words = λ _. 0 }

empty-IsBitmap : IsBitmap empty
empty-IsBitmap = record {
  small = omega arith;
  word = λ i. omega arith;
  leftover = λ i le lt. absurd (omega arith);
}

bitmap_alloc-Gives_example : Returns (Gives empty) (bitmap_alloc empty)
bitmap_alloc-Gives_example =
    bitmap_alloc-Gives empty-IsBitmap
      (omega (arith, count_none empty 64 (λ i l. zero-bit (i % 64))))

get_bits_test : get_bits 0xabcd 8 4 ≡ 0xbc
unfolding get_bits
get_bits_test = refl

set_bits_test : set_bits 0xabcd 8 4 0x12 ≡ 0xa12d
unfolding set_bits
set_bits_test = refl

-- the three bits from bit 4 on of a full byte become 2
get_bits-set_bits_example :
    (get_bits (set_bits 255 3 4 42) 3 4 ≡ 2)
    × ((j : ℕ)
        → j < 64
        → get_bit (set_bits 255 3 4 42) j
          ≡ (if leb 4 j && ltb j 7 then get_bit 42 (j - 4) else get_bit 255 j))
get_bits-set_bits_example =
    get_bits-set_bits 255 3 4 42 (omega arith) (omega arith) (omega arith) (omega arith)

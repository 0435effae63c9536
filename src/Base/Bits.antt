-- ===== src/Base/Bits.antt =====
-- Bitwise operations of the native numbers against a single bit, and the bits of a number.
use Prim.Native.Nat.{
  ℕ, zero, suc, ◌+◌, ◌*◌, ◌/◌, ◌%◌, ◌^◌, ◌≤◌, ◌<◌, min, max, bit_and, bit_or, digits,
  bit_and-bitwise, bit_or-bitwise,
}
use mathlib.Core.Path.{◌≡◌, refl, ap}
use native.Mathlib.Omega.{arith}
use mathlib.Core.Logic.{◌≢◌}
use native.Mathlib.Decide.{ℕ_discrete}
use native.Mathlib.Nat.{pow-suc}

-- The result of a digit recursion does not depend on a count that is high enough.
digits_count :
    (z : ℕ → ℕ) (f : ℕ → ℕ → ℕ) (n m a b : ℕ) → a ≤ n → a ≤ m → digits z f n a b ≡ digits z f m a b
digits_count z f zero zero a b h k = refl
digits_count z f zero (suc m) zero b h k = refl
digits_count z f zero (suc m) (suc a) b h k = absurd (omega arith)
digits_count z f (suc n) zero zero b h k = refl
digits_count z f (suc n) zero (suc a) b h k = absurd (omega arith)
digits_count z f (suc n) (suc m) zero b h k = refl
digits_count z f (suc n) (suc m) (suc a) b h k =
    ap (λ r. r * 2 + f (suc a % 2) (b % 2))
      (digits_count z f n m (suc a / 2) (b / 2) (omega arith) (omega arith))

and_zero_left : (b : ℕ) → bit_and 0 b ≡ 0
and_zero_left b = bit_and-bitwise 0 b

or_zero_left : (b : ℕ) → bit_or 0 b ≡ b
or_zero_left b = bit_or-bitwise 0 b

pub bit_and_digit : (a b : ℕ) → bit_and a b ≡ bit_and (a / 2) (b / 2) * 2 + min (a % 2) (b % 2)
bit_and_digit zero b = omega (arith, and_zero_left b, and_zero_left (b / 2))
bit_and_digit (suc a) b = omega (
  arith,
  bit_and-bitwise (suc a) b,
  bit_and-bitwise (suc a / 2) (b / 2),
  digits_count (λ b. zero) min a (suc a / 2) (suc a / 2) (b / 2) (omega arith) (omega arith),
)

pub bit_or_digit : (a b : ℕ) → bit_or a b ≡ bit_or (a / 2) (b / 2) * 2 + max (a % 2) (b % 2)
bit_or_digit zero b = omega (arith, or_zero_left b, or_zero_left (b / 2))
bit_or_digit (suc a) b = omega (
  arith,
  bit_or-bitwise (suc a) b,
  bit_or-bitwise (suc a / 2) (b / 2),
  digits_count (λ b. b) max a (suc a / 2) (suc a / 2) (b / 2) (omega arith) (omega arith),
)

-- bit `k` of `a`, as 0 or 1
abbrev pub bit : ℕ → ℕ → ℕ
bit a zero = a % 2
bit a (suc k) = bit (a / 2) k

pub pow-pos : (n : ℕ) → 0 < 2 ^ n
pow-pos zero = omega arith
pow-pos (suc n) = omega (arith, pow-suc 2 n, pow-pos n)

pub bit_le : (a k : ℕ) → bit a k ≤ 1
bit_le a zero = omega arith
bit_le a (suc k) = bit_le (a / 2) k

pub zero-bit : (k : ℕ) → bit 0 k ≡ 0
zero-bit zero = refl
zero-bit (suc k) = zero-bit k

pub bit-bit_and : (a b k : ℕ) → bit (bit_and a b) k ≡ min (bit a k) (bit b k)
bit-bit_and a b zero = omega (arith, bit_and_digit a b)
bit-bit_and a b (suc k) =
    let e : bit_and a b / 2 ≡ bit_and (a / 2) (b / 2) = omega (arith, bit_and_digit a b) in
    rw e (bit-bit_and (a / 2) (b / 2) k)

pub bit-bit_or : (a b k : ℕ) → bit (bit_or a b) k ≡ max (bit a k) (bit b k)
bit-bit_or a b zero = omega (arith, bit_or_digit a b)
bit-bit_or a b (suc k) =
    let e : bit_or a b / 2 ≡ bit_or (a / 2) (b / 2) = omega (arith, bit_or_digit a b) in
    rw e (bit-bit_or (a / 2) (b / 2) k)

-- The bits of a number determine it.
bit_ext_below : (n a b : ℕ) → a ≤ n → b ≤ n → ((k : ℕ) → bit a k ≡ bit b k) → a ≡ b
bit_ext_below zero a b ha hb h = omega arith
bit_ext_below (suc n) a b ha hb h =
    omega (arith, h 0, bit_ext_below n (a / 2) (b / 2) (omega arith) (omega arith) (λ k. h (suc k)))

pub bit_ext : (a b : ℕ) → ((k : ℕ) → bit a k ≡ bit b k) → a ≡ b
bit_ext a b = bit_ext_below (a + b) a b (omega arith) (omega arith)

half-pow : (k : ℕ) → 2 ^ suc k / 2 ≡ 2 ^ k
half-pow k = omega (arith, pow-suc 2 k)

pub bit-pow_self : (k : ℕ) → bit (2 ^ k) k ≡ 1
bit-pow_self zero = refl
bit-pow_self (suc k) = rw (half-pow k) (bit-pow_self k)

pub bit-pow_ne : (k j : ℕ) → k ≢ j → bit (2 ^ k) j ≡ 0
bit-pow_ne zero zero ne = absurd (ne refl)
bit-pow_ne zero (suc j) ne = zero-bit j
bit-pow_ne (suc k) zero ne = omega (arith, pow-suc 2 k)
bit-pow_ne (suc k) (suc j) ne = rw (half-pow k) (bit-pow_ne k j (λ e. ne (ap suc e)))

-- a single bit is 0 exactly when its mask leaves nothing
pub bit_and-pow_of_zero : (a k : ℕ) → bit a k ≡ 0 → bit_and a (2 ^ k) ≡ 0
bit_and-pow_of_zero a k e = bit_ext _ _ λ j. bits j
  where
    bits : (j : ℕ) → bit (bit_and a (2 ^ k)) j ≡ bit 0 j
    bits j = elim (ℕ_discrete k j) [
      | yes s ↦ omega (arith, bit-bit_and a (2 ^ k) j, zero-bit j, ap (bit a) s)
      | no d ↦ omega (arith, bit-bit_and a (2 ^ k) j, zero-bit j, bit-pow_ne k j d)
    ]

pub zero_of_bit_and-pow : (a k : ℕ) → bit_and a (2 ^ k) ≡ 0 → bit a k ≡ 0
zero_of_bit_and-pow a k e =
    omega
      (arith, bit-bit_and a (2 ^ k) k, bit-pow_self k, bit_le a k, ap (λ n. bit n k) e, zero-bit k)

-- A number of `n` bits that are all set is the largest.
pub full-bits : (n a : ℕ) → a < 2 ^ n → ((k : ℕ) → k < n → bit a k ≡ 1) → a + 1 ≡ 2 ^ n
full-bits zero a h all = omega arith
full-bits (suc n) a h all =
    let half =
      full-bits n (a / 2) (omega (arith, pow-suc 2 n)) (λ k l. all (suc k) (omega arith)) in
    omega (arith, pow-suc 2 n, all 0 (omega arith))

pub bit_or-lt_pow : (n a b : ℕ) → a < 2 ^ n → b < 2 ^ n → bit_or a b < 2 ^ n
bit_or-lt_pow zero a b h k = rw (zero_of a h, zero_of b k) (omega (arith, or_zero_left 0))
  where
    zero_of : (a : ℕ) → a < 2 ^ 0 → a ≡ 0
    zero_of a h = omega arith
bit_or-lt_pow (suc n) a b h k = omega (
  arith,
  pow-suc 2 n,
  bit_or_digit a b,
  bit_or-lt_pow n (a / 2) (b / 2) (omega (arith, pow-suc 2 n)) (omega (arith, pow-suc 2 n)),
)

pub bit_and-lt_pow : (n a b : ℕ) → a < 2 ^ n → bit_and a b < 2 ^ n
bit_and-lt_pow zero a b h = let e : a ≡ 0 = omega arith in rw e (omega (arith, and_zero_left b))
bit_and-lt_pow (suc n) a b h = omega (
  arith,
  pow-suc 2 n,
  bit_and_digit a b,
  bit_and-lt_pow n (a / 2) (b / 2) (omega (arith, pow-suc 2 n)),
)

pub pow-lt_pow : (k n : ℕ) → k < n → 2 ^ k < 2 ^ n
pow-lt_pow k zero h = elim h [ ]
pow-lt_pow zero (suc n) h = omega (arith, pow-suc 2 n, pow-pos n)
pow-lt_pow (suc k) (suc n) h = omega (arith, pow-suc 2 k, pow-suc 2 n, pow-lt_pow k n (omega arith))

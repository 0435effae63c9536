-- ===== src/Base/Shift.antt =====
-- The bits of numbers that are shifted, cut off and complemented.
use Prim.Native.Nat.{ℕ, zero, suc, ◌+◌, ◌-◌, ◌*◌, ◌/◌, ◌%◌, ◌^◌, ◌≤◌, ◌<◌}
use mathlib.Core.Path.{◌≡◌, refl, ap, sym, ◌∙◌}
use native.Mathlib.Omega.{arith}
use native.Mathlib.Nat.{
  pow-suc, div-div-eq-div-mul, mul-add-mod_self_left, mod-eq_of_lt, mod-add-div, mod-lt,
}
use csc369_os_a.Base.Tests.{ltb, if◌then◌else◌}
use csc369_os_a.Base.Bits.{bit, zero-bit, pow-pos}

half_of-div : (a k : ℕ) → a / 2 ^ suc k ≡ a / 2 / 2 ^ k
half_of-div a k =
    ap (λ n. a / n) (omega (arith, pow-suc 2 k)) ∙ sym (div-div-eq-div-mul a 2 (2 ^ k))

pub bit-div_pow : (a k j : ℕ) → bit (a / 2 ^ k) j ≡ bit a (k + j)
bit-div_pow a zero j =
    let e : a / 1 ≡ a = omega arith in let z : 0 + j ≡ j = omega arith in rw (e, z) refl
bit-div_pow a (suc k) j =
    let s : suc k + j ≡ suc (k + j) = omega arith in
    rw (half_of-div a k, s) (bit-div_pow (a / 2) k j)

times_pow_suc : (a k : ℕ) → a * 2 ^ suc k ≡ 2 * (a * 2 ^ k)
times_pow_suc a k = ap (λ p. a * p) (pow-suc 2 k) ∙ omega arith

pub bit-mul_pow : (a k j : ℕ) → bit (a * 2 ^ k) j ≡ (if ltb j k then 0 else bit a (j - k))
bit-mul_pow a zero j = let e : a * 1 ≡ a = omega arith in ground (arith, ap (λ n. bit n j) e)
bit-mul_pow a (suc k) zero = ground (arith, times_pow_suc a k)
bit-mul_pow a (suc k) (suc j) =
    let e : a * 2 ^ suc k / 2 ≡ a * 2 ^ k = omega (arith, times_pow_suc a k) in
    rw e (ground (arith, bit-mul_pow a k j))

half_of-mod : (a n : ℕ) → a % 2 ^ suc n ≡ 2 * (a / 2 % 2 ^ n) + a % 2
half_of-mod a n =
    let r = 2 * (a / 2 % 2 ^ n) + a % 2 in
    let e : a ≡ 2 ^ suc n * (a / 2 / 2 ^ n) + r =
      omega (arith, times_pow_suc (a / 2 / 2 ^ n) n, mod-add-div (a / 2) (2 ^ n)) in
    let lt : r < 2 ^ suc n = omega (arith, pow-suc 2 n, mod-lt (a / 2) (pow-pos n)) in
    ap (λ x. x % 2 ^ suc n) e ∙ mul-add-mod_self_left (2 ^ suc n) _ r ∙ mod-eq_of_lt lt

pub bit-mod_pow : (a n j : ℕ) → bit (a % 2 ^ n) j ≡ (if ltb j n then bit a j else 0)
bit-mod_pow a zero j =
    let e : a % 1 ≡ 0 = omega arith in ground (arith, ap (λ n. bit n j) e, zero-bit j)
bit-mod_pow a (suc n) zero = ground (arith, half_of-mod a n)
bit-mod_pow a (suc n) (suc j) =
    let e : a % 2 ^ suc n / 2 ≡ a / 2 % 2 ^ n = omega (arith, half_of-mod a n) in
    rw e (ground (arith, bit-mod_pow (a / 2) n j))

pub bit-complement : (n a j : ℕ) → a < 2 ^ n → j < n → bit (2 ^ n - 1 - a) j ≡ 1 - bit a j
bit-complement zero a j h l = absurd (omega arith)
bit-complement (suc n) a zero h l = omega (arith, pow-suc 2 n)
bit-complement (suc n) a (suc j) h l =
    let e : (2 ^ suc n - 1 - a) / 2 ≡ 2 ^ n - 1 - a / 2 = omega (arith, pow-suc 2 n) in
    rw e (bit-complement n (a / 2) j (omega (arith, pow-suc 2 n)) (omega arith))

pub bit_of_lt : (n a j : ℕ) → a < 2 ^ n → n ≤ j → bit a j ≡ 0
bit_of_lt zero a j h l = ap (λ n. bit n j) (omega arith) ∙ zero-bit j
bit_of_lt (suc n) a zero h l = absurd (omega arith)
bit_of_lt (suc n) a (suc j) h l = bit_of_lt n (a / 2) j (omega (arith, pow-suc 2 n)) (omega arith)

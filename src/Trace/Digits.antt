-- ===== src/Trace/Digits.antt =====
-- Numbers of csc369_trace.c: what is printed in a base is read back in it.
use native.Mathlib.Nat.{zero-mul, pow-zero, pow-suc, mod-lt, div-add-mod, div-lt_iff_lt-mul}
use csc369_os_a.Base.{
  ℕ, zero, suc, ◌+◌, ◌*◌, ◌/◌, ◌%◌, ◌^◌, ◌≤◌, ◌<◌, ◌≡◌, ◌≢◌, ◌∙◌, refl, ap, true, false, none, some,
  List, [], ◌∷◌, arith,
}
use csc369_os_a.Trace.Scan.{
  strtoul, digit_value, is_space, scan_digits, scan_natural, scan_sign, scan_ulong, skip_prefix,
  signed_ulong,
}
use csc369_os_a.Trace.Print.{digit_char, print_digits}

-- white space ends a number
abbrev pub Ends : List ℕ → Type 0
Ends [] = Unit {0}
Ends (c ∷ cs) = is_space c ≡ true

pub digit_value-digit_char : (d : ℕ) → d < 16 → digit_value (digit_char d) ≡ d
digit_value-digit_char d h = ground arith

scan_digits-Ends :
    (base n : ℕ) (rest : List ℕ) → base ≤ 16 → Ends rest → scan_digits base n rest ≡ (n, rest)
unfolding scan_digits
scan_digits-Ends base n [] b e = refl
scan_digits-Ends base n (c ∷ cs) b e = ground arith

scan_digits-digit :
    (base n d : ℕ) (rest : List ℕ)
    → base ≤ 16
    → d < base
    → scan_digits base n (digit_char d ∷ rest) ≡ scan_digits base (n * base + d) rest
unfolding scan_digits
scan_digits-digit base n d rest b h = ground (arith, digit_value-digit_char d)

scan_digits-print_digits :
    (base width acc n : ℕ) (rest : List ℕ)
    → 0 < base
    → base ≤ 16
    → n < base ^ width
    → scan_digits base acc (print_digits base width n rest)
      ≡ scan_digits base (acc * base ^ width + n) rest
unfolding print_digits
scan_digits-print_digits base zero acc n rest p b h =
    ap (λ k. scan_digits base k rest) (grind (arith, pow-zero base))
scan_digits-print_digits base (suc width) acc n rest p b h =
    scan_digits-print_digits base width acc (n / base) (digit_char (n % base) ∷ rest) p b
      ((div-lt_iff_lt-mul p).1 (grind (arith, pow-suc base width)))
    ∙ scan_digits-digit base _ (n % base) rest b (mod-lt n p)
    ∙ ap (λ k. scan_digits base k rest) (grind (arith, pow-suc base width, div-add-mod n base))

-- no `x` that would make a prefix of the 0 before it
abbrev NotX : List ℕ → Type 0
NotX [] = Unit {0}
NotX (c ∷ cs) = (c ≢ b'x') × (c ≢ b'X')

abbrev StartsNumber : ℕ → List ℕ → Type 0
StartsNumber base [] = ⊥
StartsNumber base (c ∷ cs) = (digit_value c < base) × NotX cs

StartsNumber-NotX : (base : ℕ) (text : List ℕ) → base ≤ 16 → StartsNumber base text → NotX text
StartsNumber-NotX base [] b s = tt
StartsNumber-NotX base (c ∷ cs) b (s, _) = ground arith

Ends-NotX : (text : List ℕ) → Ends text → NotX text
Ends-NotX [] e = tt
Ends-NotX (c ∷ cs) e = ground arith

StartsNumber-digit :
    (base d : ℕ) (rest : List ℕ)
    → base ≤ 16
    → d < base
    → NotX rest
    → StartsNumber base (digit_char d ∷ rest)
StartsNumber-digit base d rest b h x = (ground (arith, digit_value-digit_char d), x)

StartsNumber-print_digits :
    (base width n : ℕ) (rest : List ℕ)
    → 0 < base
    → base ≤ 16
    → StartsNumber base rest
    → StartsNumber base (print_digits base width n rest)
unfolding print_digits
StartsNumber-print_digits base zero n rest p b s = s
StartsNumber-print_digits base (suc width) n rest p b s =
    StartsNumber-print_digits base width (n / base) _ p b
      (StartsNumber-digit base (n % base) rest b (mod-lt n p) (StartsNumber-NotX base rest b s))

starts :
    (base width n : ℕ) (rest : List ℕ)
    → 0 < base
    → base ≤ 16
    → 0 < width
    → Ends rest
    → StartsNumber base (print_digits base width n rest)
unfolding print_digits
starts base zero n rest p b w e = absurd (omega arith)
starts base (suc width) n rest p b w e =
    StartsNumber-print_digits base width (n / base) _ p b
      (StartsNumber-digit base (n % base) rest b (mod-lt n p) (Ends-NotX rest e))

skip_prefix-StartsNumber :
    (base : ℕ) (text : List ℕ) → StartsNumber base text → skip_prefix base text ≡ text
skip_prefix-StartsNumber base [] s = refl
skip_prefix-StartsNumber base (c ∷ []) s = refl
skip_prefix-StartsNumber base (c ∷ d ∷ cs) (_, (x, y)) = ground arith

scan_sign-StartsNumber :
    (base : ℕ) (text : List ℕ)
    → base ≤ 16
    → StartsNumber base text
    → scan_ulong base (b' ' ∷ text) ≡ signed_ulong false (some (scan_digits base 0 text))
unfolding scan_ulong scan_sign scan_natural
scan_sign-StartsNumber base [] b s = absurd s
scan_sign-StartsNumber base (c ∷ cs) b s = ground (arith, skip_prefix-StartsNumber base (c ∷ cs) s)

-- A printed number is read back, up to the white space behind it.
pub scan_ulong-print_digits :
    (base width n : ℕ) (rest : List ℕ)
    → 0 < base
    → base ≤ 16
    → 0 < width
    → n < base ^ width
    → n < 2 ^ 64
    → Ends rest
    → scan_ulong base (b' ' ∷ print_digits base width n rest) ≡ some (n, rest)
scan_ulong-print_digits base width n rest p b w h u e =
    scan_sign-StartsNumber base _ b (starts base width n rest p b w e)
    ∙ ap (λ r. signed_ulong false (some r))
        (scan_digits-print_digits base width 0 n rest p b h
          ∙ scan_digits-Ends base (0 * base ^ width + n) rest b e)
    ∙ ground (arith, zero-mul (base ^ width))

-- `strtoul` reads a printed number back.
pub strtoul-print_digits :
    (width n : ℕ)
    → 0 < width
    → n < 10 ^ width
    → n < 2 ^ 64
    → strtoul 10 (print_digits 10 width n []) ≡ n
unfolding strtoul scan_ulong
strtoul-print_digits width n w h u =
    ap (λ o. elim o [ none ↦ 0 | some (m, _) ↦ m ])
      (scan_ulong-print_digits 10 width n [] (omega arith) (omega arith) w h u tt)

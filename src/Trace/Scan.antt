-- ===== src/Trace/Scan.antt =====
-- What csc369_trace.c and memsim.c use of the C library to read numbers: the conversions of
-- `sscanf (buffer, "%c %zx %hhu", ...)` and `strtoul (text, NULL, 10)`. A number that is too large
-- for an unsigned long is read as the largest; a minus sign negates modulo 2^64.
use csc369_os_a.Base.{
  ℕ, ◌+◌, ◌-◌, ◌*◌, ◌%◌, ◌^◌, Bool, true, false, ◌&&◌, ◌||◌, Option, none, some, List, [], ◌∷◌, ltb,
  leb, ◌==◌, if◌then◌else◌,
}

-- `isspace`
abbrev pub is_space : ℕ → Bool
is_space c = c == 32 || leb 9 c && leb c 13

abbrev pub skip_space : List ℕ → List ℕ
skip_space [] = []
skip_space (c ∷ cs) = if is_space c then skip_space cs else c ∷ cs

-- the value of a digit, at least 16 for any other character
abbrev pub digit_value : ℕ → ℕ
digit_value c =
    if leb b'0' c && leb c b'9'
    then c - b'0'
    else if leb b'a' c && leb c b'f'
    then c - b'a' + 10
    else if leb b'A' c && leb c b'F'
    then c - b'A' + 10
    else 16

-- the digits ahead, onto what was read
unfoldable pub scan_digits : ℕ → ℕ → List ℕ → ℕ × List ℕ
scan_digits base n [] = (n, [])
scan_digits base n (c ∷ cs) =
    let deeper = scan_digits base (n * base + digit_value c) cs in
    if ltb (digit_value c) base then deeper else (n, c ∷ cs)

-- a number without sign: at least one digit
unfoldable pub scan_natural : ℕ → List ℕ → Option (ℕ × List ℕ)
unfolding scan_digits
scan_natural base [] = none
scan_natural base (c ∷ cs) =
    if ltb (digit_value c) base then some (scan_digits base 0 (c ∷ cs)) else none

-- `0x`, which numbers of base 16 may start with
abbrev pub skip_prefix : ℕ → List ℕ → List ℕ
skip_prefix base (z ∷ x ∷ cs) =
    if base == 16 && z == b'0' && (x == b'x' || x == b'X') then cs else z ∷ x ∷ cs
skip_prefix base cs = cs

-- an unsigned long from a sign and the digits
abbrev pub to_ulong : Bool → ℕ → ℕ
to_ulong negative n =
    if leb (2 ^ 64) n then 2 ^ 64 - 1 else if negative then (2 ^ 64 - n) % 2 ^ 64 else n

abbrev pub signed_ulong : Bool → Option (ℕ × List ℕ) → Option (ℕ × List ℕ)
signed_ulong negative none = none
signed_ulong negative (some (n, rest)) = some (to_ulong negative n, rest)

unfoldable pub scan_sign : ℕ → List ℕ → Option (ℕ × List ℕ)
unfolding scan_natural
scan_sign base [] = none
scan_sign base (c ∷ cs) =
    if c == b'-'
    then signed_ulong true (scan_natural base (skip_prefix base cs))
    else if c == b'+'
    then signed_ulong false (scan_natural base (skip_prefix base cs))
    else signed_ulong false (scan_natural base (skip_prefix base (c ∷ cs)))

-- an unsigned long behind white space
unfoldable pub scan_ulong : ℕ → List ℕ → Option (ℕ × List ℕ)
unfolding scan_sign
scan_ulong base cs = scan_sign base (skip_space cs)

-- `strtoul (text, NULL, base)`
unfoldable pub strtoul : ℕ → List ℕ → ℕ
unfolding scan_ulong
strtoul base cs = elim (scan_ulong base cs) [ none ↦ 0 | some (n, _) ↦ n ]

-- the characters before the first NUL
abbrev pub c_string : List ℕ → List ℕ
c_string [] = []
c_string (c ∷ cs) = if c == 0 then [] else c ∷ c_string cs

-- `sscanf (line, "%c %zx %hhu", ...)`: the values that are converted and stored, in order
abbrev pub scan_value : List ℕ → List ℕ
scan_value cs = elim (scan_ulong 10 cs) [ none ↦ [] | some (v, _) ↦ v % 2 ^ 8 ∷ [] ]

abbrev pub scan_fields : List ℕ → List ℕ
scan_fields [] = []
scan_fields (c ∷ cs) = elim (scan_ulong 16 cs) [
  | none ↦ c ∷ []
  | some (va, rest) ↦ c ∷ va ∷ scan_value rest
]

unfoldable pub sscanf : List ℕ → List ℕ
unfolding scan_ulong
sscanf line = scan_fields (c_string line)

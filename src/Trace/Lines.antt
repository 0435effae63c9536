-- ===== src/Trace/Lines.antt =====
-- fgets and the loop of CSC369_TraceRead on the lines of a file.
use native.Mathlib.Nat.{mod-lt}
use csc369_os_a.Base.{
  subst, ◌-◌, ℕ, zero, suc, ◌+◌, ◌/◌, ◌%◌, ◌≤◌, ◌<◌, ◌≡◌, ◌≢◌, refl, false, List, [], ◌∷◌, ◌++◌,
  length, arith,
}
use csc369_os_a.Machine.{AccessType, store, modify_access, load, instruction_fetch, MemAccess}
use csc369_os_a.Trace.Stdio.{get_line}
use csc369_os_a.Trace.Print.{
  type_char, Widths, print_digits, print_access, digit_char, print_comment, HasNoNewline,
  IsPrintable,
}

-- Reading at most `n` characters of `text` gives the line `line` and leaves `rest`.
abbrev pub Reads : ℕ → List ℕ → List ℕ → List ℕ → Type 0
Reads n text line rest = get_line n text ≡ (line, rest, false)

Reads-char :
    (n c : ℕ) (text line rest : List ℕ)
    → c ≢ b'\n'
    → Reads n text line rest
    → Reads (suc n) (c ∷ text) (c ∷ line) rest
unfolding get_line
Reads-char n c text line rest ne r = ground arith

Reads-end : (n : ℕ) (rest : List ℕ) → Reads (suc n) (b'\n' ∷ rest) (b'\n' ∷ []) rest
unfolding get_line
Reads-end n rest = refl

Reads-count :
    (m n : ℕ) (text line rest : List ℕ) → m ≡ n → Reads m text line rest → Reads n text line rest
Reads-count m n text line rest e r = subst (λ k. Reads k text line rest) e r

digit_char-ne : (d : ℕ) → d < 16 → digit_char d ≢ b'\n'
digit_char-ne d h = ground arith

type_char-ne : (t : AccessType) → type_char t ≢ b'\n'
type_char-ne instruction_fetch = omega arith
type_char-ne load = omega arith
type_char-ne store = omega arith
type_char-ne modify_access = omega arith

Reads-body :
    (n : ℕ) (body text line rest : List ℕ)
    → HasNoNewline body
    → Reads n text line rest
    → Reads (length body + n) (body ++ text) (body ++ line) rest
Reads-body n [] text line rest h r = Reads-count n (0 + n) _ _ _ (omega arith) r
Reads-body n (c ∷ cs) text line rest (ne, h) r =
    Reads-count (suc (length cs + n)) (suc (length cs) + n) _ _ _ (omega arith)
      (Reads-char (length cs + n) c _ _ rest ne (Reads-body n cs text line rest h r))

Reads-print_digits :
    (n base width v : ℕ) (text line rest : List ℕ)
    → base ≤ 16
    → 0 < base
    → Reads n text line rest
    → Reads (width + n) (print_digits base width v text) (print_digits base width v line) rest
unfolding print_digits
Reads-print_digits n base zero v text line rest b p r = Reads-count n (0 + n) _ _ _ (omega arith) r
Reads-print_digits n base (suc width) v text line rest b p r =
    Reads-count (width + suc n) (suc width + n) _ _ _ (omega arith) (
      Reads-print_digits (suc n) base width (v / base) _ _ rest b p (
        Reads-char n (digit_char (v % base)) text line rest
          (digit_char-ne (v % base) (omega (arith, mod-lt v p))) r))

pub Reads-print_access :
    (w : Widths) (a : MemAccess) (rest : List ℕ)
    → IsPrintable w a
    → Reads 255 (print_access w a rest) (print_access w a []) rest
unfolding print_access
Reads-print_access w a rest p =
    let k = 251 - (w.address + w.value) in
    let end =
      Reads-print_digits (suc k) 10 w.value a.value _ _ rest (omega arith) (omega arith)
        (Reads-end k rest) in
    let value = Reads-char (w.value + suc k) b' ' _ _ rest (omega arith) end in
    let address =
      Reads-print_digits (suc (w.value + suc k)) 16 w.address a.virtual_address _ _ rest
        (omega arith) (omega arith) value in
    Reads-count (suc (suc (w.address + suc (w.value + suc k)))) 255 _ _ _ (omega (arith, p.fits)) (
      Reads-char _ (type_char a.type) _ _ rest (type_char-ne a.type)
        (Reads-char _ b' ' _ _ rest (omega arith) address))

pub Reads-print_comment :
    (body rest : List ℕ)
    → HasNoNewline body
    → length body ≤ 253
    → Reads 255 (print_comment body rest) (print_comment body []) rest
Reads-print_comment body rest h l =
    let k = 253 - length body in
    Reads-count (suc (length body + suc k)) 255 _ _ _ (omega arith) (
      Reads-char _ b'=' _ _ rest (omega arith)
        (Reads-body (suc k) body _ _ rest h (Reads-end k rest)))

-- ===== src/Trace/ReadBack.antt =====
-- CSC369_TraceRead on a file that was printed from accesses.
use native.Mathlib.Nat.{mod-lt}
use csc369_os_a.Base.{
  ℕ, zero, suc, ◌+◌, ◌/◌, ◌%◌, ◌^◌, ◌≤◌, ◌<◌, ◌≡◌, ◌≢◌, ◌∙◌, refl, ap, true, false, some, List, [],
  ◌∷◌, length, length-append, arith,
}
use csc369_os_a.Swap.{frame_size}
use csc369_os_a.Machine.{
  AccessType, store, modify_access, load, instruction_fetch, MemAccess, page_size,
}
use csc369_os_a.Trace.Stdio.{buffered, get_line, fgets}
use csc369_os_a.Trace.Scan.{sscanf, scan_value, scan_fields, c_string}
use csc369_os_a.Trace.Digits.{scan_ulong-print_digits}
use csc369_os_a.Trace.Lines.{Reads, Reads-print_access, Reads-print_comment}
use csc369_os_a.Trace.Print.{
  type_char, Widths, print_digits, print_access, digit_char, print_comments, print_item, Item,
  AreComments, IsItem, IsPrintable,
}
use csc369_os_a.Trace.{
  Trace, skip_lines, parse_line, access_type, store_fields, check_access, trace_read,
}

c_string-char : (c : ℕ) (cs : List ℕ) → c ≢ 0 → c_string (c ∷ cs) ≡ c ∷ c_string cs
c_string-char c cs ne = ground arith

digit_char-ne_zero : (d : ℕ) → d < 16 → digit_char d ≢ 0
digit_char-ne_zero d h = ground arith

type_char-ne_zero : (t : AccessType) → type_char t ≢ 0
type_char-ne_zero instruction_fetch = omega arith
type_char-ne_zero load = omega arith
type_char-ne_zero store = omega arith
type_char-ne_zero modify_access = omega arith

c_string-print_digits :
    (base width n : ℕ) (rest : List ℕ)
    → 0 < base
    → base ≤ 16
    → c_string (print_digits base width n rest) ≡ print_digits base width n (c_string rest)
unfolding print_digits
c_string-print_digits base zero n rest p b = refl
c_string-print_digits base (suc width) n rest p b =
    c_string-print_digits base width (n / base) _ p b
    ∙ ap (print_digits base width (n / base)) (
        c_string-char (digit_char (n % base)) rest
          (digit_char-ne_zero (n % base) (omega (arith, mod-lt n p))))

c_string-print_access :
    (w : Widths) (a : MemAccess) → c_string (print_access w a []) ≡ print_access w a []
unfolding print_access
c_string-print_access w a =
    let ending : List ℕ = b'\n' ∷ [] in
    let address = print_digits 16 w.address a.virtual_address in
    let value : List ℕ = b' ' ∷ print_digits 10 w.value a.value ending in
    c_string-char (type_char a.type) (b' ' ∷ address value) (type_char-ne_zero a.type)
    ∙ ap (λ l. type_char a.type ∷ b' ' ∷ l)
        (c_string-print_digits 16 w.address a.virtual_address value (omega arith) (omega arith)
          ∙ ap (λ l. address (b' ' ∷ l))
              (c_string-print_digits 10 w.value a.value ending (omega arith) (omega arith)))

scan_value-print :
    (width n : ℕ)
    → 0 < width
    → n < 10 ^ width
    → n < 2 ^ 8
    → scan_value (b' ' ∷ print_digits 10 width n (b'\n' ∷ [])) ≡ n ∷ []
scan_value-print width n w h v =
    rw
      (
        scan_ulong-print_digits 10 width n (b'\n' ∷ []) (omega arith) (omega arith) w h
            (omega (arith, v)) refl,
        scan_value,
      )
      (ground arith)

sscanf-print_access :
    (w : Widths) (a : MemAccess)
    → IsPrintable w a
    → sscanf (print_access w a []) ≡ type_char a.type ∷ a.virtual_address ∷ a.value ∷ []
unfolding sscanf print_access
sscanf-print_access w a p =
    let value : List ℕ = b' ' ∷ print_digits 10 w.value a.value (b'\n' ∷ []) in
    let address =
      scan_ulong-print_digits 16 w.address a.virtual_address value (omega arith) (omega arith)
        p.some_address p.address_digits p.address refl in
    ap scan_fields (c_string-print_access w a)
    ∙ rw (address, print_access, scan_fields)
        (ap (λ l. type_char a.type ∷ a.virtual_address ∷ l)
          (scan_value-print w.value a.value p.some_value p.value_digits p.value))

access_type-type_char : (t : AccessType) → access_type (type_char t) ≡ some t
unfolding access_type
access_type-type_char instruction_fetch = refl
access_type-type_char load = refl
access_type-type_char store = refl
access_type-type_char modify_access = refl

check_access-print :
    (a old : MemAccess)
    → a.virtual_address % page_size ≤ frame_size
    → check_access
        (type_char a.type ∷ a.virtual_address ∷ a.value ∷ [])
        (store_fields (type_char a.type ∷ a.virtual_address ∷ a.value ∷ []) old)
      ≡ (true, a)
unfolding check_access store_fields
check_access-print a old h = rw (access_type-type_char a.type, check_access) (ground arith)

-- the line of an access is taken, whatever was stored before
parse_line-print_access :
    (w : Widths) (a old : MemAccess)
    → IsPrintable w a
    → parse_line (print_access w a []) old ≡ (true, a)
unfolding parse_line
parse_line-print_access w a old p =
    rw (sscanf-print_access w a p) (check_access-print a old p.offset)

-- the reader behind a line that was read
abbrev pub after_line : List ℕ → List ℕ → Trace → Trace
after_line line rest t = record t { file = record { unread = rest; eof = false }; buffer = line }

fgets-Reads :
    (t : Trace) (c : ℕ) (line rest : List ℕ)
    → Reads 255 t.file.unread (c ∷ line) rest
    → fgets 256 t.buffer t.file ≡ (true, c ∷ line, record { unread = rest; eof = false })
unfolding fgets
fgets-Reads t c line rest r = ap (buffered t.buffer) r

pub skip_lines-comment :
    (fuel : ℕ) (t : Trace) (line rest : List ℕ)
    → Reads 255 t.file.unread (b'=' ∷ line) rest
    → skip_lines (suc fuel) t ≡ skip_lines fuel (after_line (b'=' ∷ line) rest t)
unfolding skip_lines
skip_lines-comment fuel t line rest r = rw (fgets-Reads t b'=' line rest r) refl

skip_lines-stop :
    (fuel : ℕ) (t : Trace) (c : ℕ) (line rest : List ℕ)
    → c ≢ b'='
    → Reads 255 t.file.unread (c ∷ line) rest
    → skip_lines (suc fuel) t ≡ some (tt, after_line (c ∷ line) rest t)
unfolding skip_lines
skip_lines-stop fuel t c line rest ne r = rw (fgets-Reads t c line rest r) (ground arith)

type_char-ne_comment : (t : AccessType) → type_char t ≢ b'='
type_char-ne_comment instruction_fetch = omega arith
type_char-ne_comment load = omega arith
type_char-ne_comment store = omega arith
type_char-ne_comment modify_access = omega arith

skip_lines-print_item :
    (bodies : List (List ℕ)) (w : Widths) (a : MemAccess) (rest : List ℕ) (fuel : ℕ) (t : Trace)
    → AreComments bodies
    → IsPrintable w a
    → t.file.unread ≡ print_comments bodies (print_access w a rest)
    → length bodies < fuel
    → skip_lines fuel t ≡ some (tt, after_line (print_access w a []) rest t)
unfolding print_access
skip_lines-print_item bodies w a rest zero t cs p e l = absurd (omega arith)
skip_lines-print_item [] w a rest (suc fuel) t cs p e l =
    skip_lines-stop fuel t (type_char a.type) _ rest (type_char-ne_comment a.type)
      (ap (get_line 255) e ∙ Reads-print_access w a rest p)
skip_lines-print_item (body ∷ bodies) w a rest (suc fuel) t (none_in, fit, cs) p e l =
    skip_lines-comment fuel t _ _ (
      ap (get_line 255) e
      ∙ Reads-print_comment body (print_comments bodies (print_access w a rest)) none_in fit)
    ∙ skip_lines-print_item bodies w a rest fuel _ cs p refl (omega arith)

pub length-print_comments :
    (bodies : List (List ℕ)) (rest : List ℕ) → length bodies ≤ length (print_comments bodies rest)
length-print_comments [] rest = omega arith
length-print_comments (body ∷ bodies) rest = omega (
  arith,
  length-print_comments bodies rest,
  length-append body (b'\n' ∷ print_comments bodies rest),
)

-- CSC369_TraceRead on the next access of a printed file, with comments before it and anything
-- behind it, returns 0 and stores that access, whatever was stored before, and leaves what is
-- behind it. Comments fit in the buffer and hold no end of line; the access has a 64-bit address
-- whose offset is at most 16, a value below 256, and enough digits for both, in a line that fits.
pub trace_read-print_item :
    (i : Item) (rest : List ℕ) (t : Trace) (old : MemAccess)
    → IsItem i
    → t.file.unread ≡ print_item i rest
    → trace_read old t
      ≡ some (
        (true, i.access),
        after_line
            (print_access i.widths i.access [])
            rest
            (record t { line_number = (t.line_number + 1) % 2 ^ 64 }),
      )
unfolding trace_read print_item
trace_read-print_item i rest t old (cs, p) e =
    let counted = record t { line_number = (t.line_number + 1) % 2 ^ 64 } in
    let fuel = length-print_comments i.comments (print_access i.widths i.access rest) in
    rw
      (skip_lines-print_item i.comments i.widths i.access rest (suc (length t.file.unread)) counted
        cs p e (omega (arith, fuel, ap length e)))
      (ap (λ r. some (r, after_line (print_access i.widths i.access []) rest counted))
        (parse_line-print_access i.widths i.access old p))

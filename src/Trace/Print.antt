-- ===== src/Trace/Print.antt =====
-- The trace files of the handout (A2-zengzix2/HANDOUT.md), as csc369_trace.c reads them: a line for
-- each access, behind lines that start with `=`.
use csc369_os_a.Base.{
  ℕ, zero, suc, ◌+◌, ◌-◌, ◌/◌, ◌%◌, ◌^◌, ◌≤◌, ◌<◌, List, [], ◌∷◌, ◌++◌, ltb, length, if◌then◌else◌,
  ◌≢◌,
}
use csc369_os_a.Swap.{frame_size}
use csc369_os_a.Machine.{
  AccessType, store, modify_access, load, instruction_fetch, MemAccess, page_size,
}

-- a digit, lower case for those above 9
abbrev pub digit_char : ℕ → ℕ
digit_char d = if ltb d 10 then b'0' + d else b'a' + (d - 10)

-- `width` digits of a number, with zeros in front, before `rest`
unfoldable pub print_digits : ℕ → ℕ → ℕ → List ℕ → List ℕ
print_digits base zero n rest = rest
print_digits base (suc width) n rest =
    print_digits base width (n / base) (digit_char (n % base) ∷ rest)

abbrev pub type_char : AccessType → ℕ
type_char instruction_fetch = b'I'
type_char load = b'L'
type_char store = b'S'
type_char modify_access = b'M'

-- How a line is written: the number of digits of its address and of its value.
pub record Widths : Type 0 where
  pub address : ℕ
  pub value : ℕ

-- the line of an access, before the text `rest`
unfoldable pub print_access : Widths → MemAccess → List ℕ → List ℕ
unfolding print_digits
print_access w a rest =
    type_char a.type
    ∷ b' '
    ∷ print_digits 16 w.address a.virtual_address
        (b' ' ∷ print_digits 10 w.value a.value (b'\n' ∷ rest))

-- The access has the bounds of its C types and an offset that the reader takes, and is written with
-- enough digits and in less than the size of the buffer.
pub record IsPrintable (w : Widths) (a : MemAccess) : Type 0 where
  pub address : a.virtual_address < 2 ^ 64
  pub address_digits : a.virtual_address < 16 ^ w.address
  pub some_address : 0 < w.address
  pub offset : a.virtual_address % page_size ≤ frame_size
  pub value : a.value < 2 ^ 8
  pub value_digits : a.value < 10 ^ w.value
  pub some_value : 0 < w.value
  pub fits : w.address + w.value ≤ 251

-- `=`, text, and the end of the line, before `rest`
abbrev pub print_comment : List ℕ → List ℕ → List ℕ
print_comment body rest = b'=' ∷ (body ++ b'\n' ∷ rest)

abbrev pub print_comments : List (List ℕ) → List ℕ → List ℕ
print_comments [] rest = rest
print_comments (body ∷ bodies) rest = print_comment body (print_comments bodies rest)

-- An access in the file, with the lines that are skipped before it.
pub record Item : Type 0 where
  pub comments : List (List ℕ)
  pub widths : Widths
  pub access : MemAccess

unfoldable pub print_item : Item → List ℕ → List ℕ
unfolding print_access
print_item i rest = print_comments i.comments (print_access i.widths i.access rest)

-- a whole file, which may end with lines that are skipped
unfoldable pub print_trace : List Item → List (List ℕ) → List ℕ
unfolding print_item
print_trace [] bodies = print_comments bodies []
print_trace (i ∷ items) bodies = print_item i (print_trace items bodies)

abbrev pub HasNoNewline : List ℕ → Type 0
HasNoNewline [] = Unit {0}
HasNoNewline (c ∷ cs) = (c ≢ b'\n') × HasNoNewline cs

-- The lines fit in the buffer.
abbrev pub AreComments : List (List ℕ) → Type 0
AreComments [] = Unit {0}
AreComments (body ∷ bodies) = HasNoNewline body × (length body ≤ 253) × AreComments bodies

abbrev pub IsItem : Item → Type 0
IsItem i = AreComments i.comments × IsPrintable i.widths i.access

abbrev pub AreItems : List Item → Type 0
AreItems [] = Unit {0}
AreItems (i ∷ items) = IsItem i × AreItems items

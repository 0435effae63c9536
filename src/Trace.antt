-- ===== src/Trace.antt =====
-- A2-zengzix2/src/csc369_trace.c: the reader of a trace file. What it calls of the C library (fgets,
-- feof, sscanf) is in Trace.Stdio and Trace.Scan.
pub mod Stdio
pub mod Scan
pub mod Print
pub mod Digits
pub mod Lines
pub mod ReadBack
pub mod LastLines
pub mod Accept
pub mod Read
pub mod Unterminated
mod Tests
use csc369_os_a.Base.{
  ℕ, zero, suc, ◌+◌, ◌%◌, ◌^◌, Bool, true, false, ◌&&◌, Option, none, some, List, [], ◌∷◌, length,
  ltb, ◌==◌, if◌then◌else◌, M, pure, fault, ◌>>=◌, ◌>>◌, gets, modify,
}
use csc369_os_a.Swap.{frame_size}
use csc369_os_a.Machine.{
  AccessType, store, modify_access, load, instruction_fetch, MemAccess, page_size,
}
use csc369_os_a.Trace.Stdio.{Stream, fgets, first_char}
use csc369_os_a.Trace.Scan.{sscanf}

-- struct csc369_trace_t; `buffer` holds the characters before the NUL.
pub record Trace : Type 0 where
  pub file : Stream
  pub buffer : List ℕ
  pub line_number : ℕ

-- CSC369_TraceCreate, from what `fopen` finds at the path; `calloc` succeeds.
abbrev pub trace_create : Option (List ℕ) → Option Trace
trace_create none = none
trace_create (some text) =
    some (record { file = record { unread = text; eof = false }; buffer = []; line_number = 0 })

abbrev pub T : Type 0 → Type 0
T = M Trace

-- `fgets (trace->buffer, 256, trace->file) != NULL`
unfoldable pub read_line : T Bool
read_line t =
    let (got, text, file) = fgets 256 t.buffer t.file in
    some (got, record t { buffer = text; file = file })

abbrev pub go_on_if : Bool → T (Unit {0}) → T (Unit {0})
go_on_if true loop = loop
go_on_if false loop = pure tt

-- `while (fgets (...) != NULL && trace->buffer[0] == '=')`, a fault when `fuel` runs out
unfoldable pub skip_lines : ℕ → T (Unit {0})
unfolding read_line
skip_lines zero = fault
skip_lines (suc fuel) = do
  got ← read_line
  t ← gets (λ t. t)
  go_on_if (got && (first_char t.buffer == b'=')) (skip_lines fuel)

-- what `sscanf` writes through its pointers, from the values it converts
unfoldable pub store_fields : List ℕ → MemAccess → MemAccess
store_fields (c ∷ va ∷ v ∷ _) access = record access { virtual_address = va; value = v }
store_fields (c ∷ va ∷ []) access = record access { virtual_address = va }
store_fields _ access = access

-- the type that a letter stands for
unfoldable pub access_type : ℕ → Option AccessType
access_type c =
    if c == b'I'
    then some instruction_fetch
    else if c == b'L'
    then some load
    else if c == b'S'
    then some store
    else if c == b'M'
    then some modify_access
    else none

-- The tests behind `sscanf`: the answer is `true` for the return value 0 and `false` for -1.
abbrev pub check_offset : MemAccess → Bool × MemAccess
check_offset access =
    if ltb frame_size (access.virtual_address % page_size) then (false, access) else (true, access)

abbrev pub check_type : Option AccessType → MemAccess → Bool × MemAccess
check_type none access = (false, access)
check_type (some type) access = check_offset (record access { type = type })

unfoldable pub check_access : List ℕ → MemAccess → Bool × MemAccess
unfolding access_type
check_access (c ∷ va ∷ v ∷ []) access = check_type (access_type c) access
check_access _ access = (false, access)

unfoldable pub parse_line : List ℕ → MemAccess → Bool × MemAccess
unfolding sscanf store_fields check_access
parse_line line access =
    let values = sscanf line in check_access values (store_fields values access)

-- CSC369_TraceRead, which writes through `access`; `line_number` is a size_t
unfoldable pub trace_read : MemAccess → T (Bool × MemAccess)
unfolding skip_lines parse_line
trace_read access = do
  modify λ t. record t { line_number = (t.line_number + 1) % 2 ^ 64 }
  t ← gets (λ t. t)
  skip_lines (suc (length t.file.unread))
  read ← gets (λ t. t)
  if read.file.eof then pure (false, access) else pure (parse_line read.buffer access)

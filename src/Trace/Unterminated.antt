-- ===== src/Trace/Unterminated.antt =====
-- CSC369_TraceRead on a last line that no end of line ends.
use csc369_os_a.Base.{
  ℕ, zero, suc, ◌+◌, ◌%◌, ◌^◌, ◌<◌, ◌≡◌, refl, sym, ap, subst, Bool, true, false, some, List, [],
  ◌∷◌, inl, inr, length, arith, ◌==◌, ◌&&◌, Bool-cases,
}
use csc369_os_a.Base.Returns
use csc369_os_a.Base.Returns.{Returns, returns}
use csc369_os_a.Machine.{MemAccess}
use csc369_os_a.Trace.Stdio.{get_line, buffered, fgets, first_char}
use csc369_os_a.Trace.Print.{HasNoNewline}
use csc369_os_a.Trace.{Trace, go_on_if, skip_lines, read_line, trace_read}

get_line-HasNoNewline :
    (n : ℕ) (text : List ℕ)
    → HasNoNewline text
    → length text < n
    → get_line n text ≡ (text, [], true)
unfolding get_line
get_line-HasNoNewline zero text h l = absurd (omega arith)
get_line-HasNoNewline (suc n) [] h l = refl
get_line-HasNoNewline (suc n) (c ∷ cs) (ne, h) l =
    ground (arith, get_line-HasNoNewline n cs h (omega arith))

abbrev AtEnd : Trace → Type 0
AtEnd t = (t.file.eof ≡ true) × (t.file.unread ≡ [])

buffered-AtEnd :
    (t : Trace) (text : List ℕ)
    → Returns
        (λ got t'. AtEnd t' × (got ≡ true → 0 < length text))
        (let (got, text, file) = buffered t.buffer (text, [], true) in
          some (got, record t { buffer = text; file = file }))
buffered-AtEnd t [] = returns ((refl, refl), λ e. absurd (ground arith))
buffered-AtEnd t (c ∷ cs) = returns ((refl, refl), λ e. omega arith)

read_line-AtEnd :
    (t : Trace)
    → HasNoNewline t.file.unread
    → length t.file.unread < 255
    → Returns (λ got t'. AtEnd t' × (got ≡ true → 0 < length t.file.unread)) (read_line t)
unfolding read_line fgets
read_line-AtEnd t h l =
    rw (get_line-HasNoNewline 255 t.file.unread h l) (buffered-AtEnd t t.file.unread)

and_left : (a b : Bool) → (a && b) ≡ true → a ≡ true
and_left a b h = ground arith

skip_lines-AtEnd :
    (fuel : ℕ) (t : Trace)
    → HasNoNewline t.file.unread
    → length t.file.unread < 255
    → length t.file.unread < fuel
    → Returns (λ _. AtEnd) (skip_lines fuel t)
unfolding skip_lines read_line
skip_lines-AtEnd zero t h l f = absurd (omega arith)
skip_lines-AtEnd (suc fuel) t h l f =
    Returns.bind
      {k = λ got t'. go_on_if (got && (first_char t'.buffer == b'=')) (skip_lines fuel) t'}
      (read_line-AtEnd t h l)
      λ got t' ((e, u), more). elim (Bool-cases (got && (first_char t'.buffer == b'='))) [
        | inl again ↦ rw again (
            skip_lines-AtEnd fuel t' (subst HasNoNewline (sym u) tt) (omega (arith, ap length u)) (
              omega (arith, ap length u, more (and_left got (first_char t'.buffer == b'=') again))))
        | inr last ↦ rw last (returns (e, u))
      ]

-- Where fewer than 255 characters are left and none ends a line, CSC369_TraceRead returns -1, stores
-- nothing, and is at the end: an access on a last line without an end of line is lost.
pub trace_read-unterminated :
    (old : MemAccess) (t : Trace)
    → HasNoNewline t.file.unread
    → length t.file.unread < 255
    → Returns (λ r t'. (r ≡ (false, old)) × (t'.file.unread ≡ [])) (trace_read old t)
unfolding trace_read
trace_read-unterminated old t h l =
    let counted = record t { line_number = (t.line_number + 1) % 2 ^ 64 } in
    Returns.bind (skip_lines-AtEnd (suc (length t.file.unread)) counted h l (omega arith))
      λ _ t' (e, u). rw e (returns (refl, u))

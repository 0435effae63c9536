-- ===== src/Trace/Read.antt =====
-- CSC369_TraceRead on any file: it ends, and what it answers.
use csc369_os_a.Base.{
  ℕ, zero, suc, ◌+◌, ◌%◌, ◌^◌, ◌≤◌, ◌<◌, ◌≡◌, ◌≢◌, refl, Bool, true, false, some, List, [], ◌∷◌,
  inl, inr, ◌⊎◌, length, arith, ◌==◌, ◌&&◌, if◌then◌else◌, Bool-cases, pure,
}
use csc369_os_a.Base.Returns
use csc369_os_a.Base.Returns.{Returns, returns}
use csc369_os_a.Swap.{frame_size}
use csc369_os_a.Machine.{MemAccess, page_size}
use csc369_os_a.Trace.Accept.{Accepted, Answer, parse_line-Answer, Accepted-bounds}
use csc369_os_a.Trace.Stdio.{get_line, buffered, fgets, first_char}
use csc369_os_a.Trace.{Trace, go_on_if, skip_lines, read_line, parse_line, trace_read}

abbrev Split : List ℕ → List ℕ × List ℕ × Bool → Type 0
Split text (line, rest, ended) =
    (length line + length rest ≡ length text) × (ended ≡ false → 0 < length line)

get_line-Split : (n : ℕ) (text : List ℕ) → Split text (get_line (suc n) text)
unfolding get_line
get_line-Split n [] = (refl, λ e. absurd (ground arith))
get_line-Split zero (c ∷ cs) = ground arith
get_line-Split (suc n) (c ∷ cs) = ground (arith, get_line-Split n cs)

-- What a call of fgets leaves.
abbrev Fetched : Trace → Bool → Trace → Type 0
Fetched t got t' =
    (t'.file.eof ≡ false → (got ≡ true) × (length t'.file.unread < length t.file.unread))
    × (got ≡ true → length t'.file.unread < length t.file.unread)
    × (length t'.file.unread ≤ length t.file.unread)

buffered-Fetched :
    (t : Trace) (r : List ℕ × List ℕ × Bool)
    → Split t.file.unread r
    → Returns (Fetched t) (
        let (got, text, file) = buffered t.buffer r in
        some (got, record t { buffer = text; file = file }))
buffered-Fetched t ([], rest, ended) (e, f) =
    returns (λ h. absurd (ground (arith, f h)), λ h. absurd (ground arith), omega arith)
buffered-Fetched t (c ∷ line, rest, ended) (e, f) =
    returns (λ h. (refl, omega arith), λ h. omega arith, omega arith)

read_line-Fetched : (t : Trace) → Returns (Fetched t) (read_line t)
unfolding read_line fgets
read_line-Fetched t =
    buffered-Fetched t (get_line 255 t.file.unread) (get_line-Split 254 t.file.unread)

-- The loop ends at the end of the file or on a line that does not start with `=`.
pub record Skipped (t t' : Trace) : Type 0 where
  pub unread : length t'.file.unread ≤ length t.file.unread
  pub consumed : t'.file.eof ≡ false → length t'.file.unread < length t.file.unread
  pub line : t'.file.eof ≡ false → first_char t'.buffer ≢ b'='

again_lt :
    (t t' : Trace) (got b : Bool)
    → Fetched t got t'
    → (got && b) ≡ true
    → length t'.file.unread < length t.file.unread
again_lt t t' got b (_, h, _) e = ground arith

Skipped-after : {got : Bool} (t t' t2 : Trace) → Fetched t got t' → Skipped t' t2 → Skipped t t2
Skipped-after t t' t2 (_, _, h) s = record {
  unread = omega (arith, s.unread);
  consumed = λ e. omega (arith, s.consumed e);
  line = s.line;
}

last_line :
    (t t' : Trace) (got : Bool)
    → Fetched t got t'
    → (got && (first_char t'.buffer == b'=')) ≡ false
    → Skipped t t'
last_line t t' got (h, _, l) e = record {
  unread = l;
  consumed = λ d. (h d).1;
  line = λ d. ground (arith, (h d).0);
}

skip_lines-Skipped :
    (fuel : ℕ) (t : Trace)
    → length t.file.unread < fuel
    → Returns (λ _ t'. Skipped t t') (skip_lines fuel t)
unfolding skip_lines read_line
skip_lines-Skipped zero t l = absurd (omega arith)
skip_lines-Skipped (suc fuel) t l =
    Returns.bind
      {k = λ got t'. go_on_if (got && (first_char t'.buffer == b'=')) (skip_lines fuel) t'}
      (read_line-Fetched t)
      λ got t' f. elim (Bool-cases (got && (first_char t'.buffer == b'='))) [
        | inl again ↦ rw again (
            Returns.mono
              (skip_lines-Skipped fuel t'
                (omega (arith, again_lt t t' got (first_char t'.buffer == b'=') f again)))
              λ _ t2 s. Skipped-after t t' t2 f s)
        | inr last ↦ rw last (returns (last_line t t' got f last))
      ]

-- What CSC369_TraceRead answers, and the reader that it leaves.
pub record Read (t : Trace) (good : Bool) (a : MemAccess) (t' : Trace) : Type 0 where
  pub unread : length t'.file.unread ≤ length t.file.unread
  pub no_comment : t'.file.eof ≡ false → first_char t'.buffer ≢ b'='
  pub accepted :
      good ≡ true
      → (t'.file.eof ≡ false)
        × (length t'.file.unread < length t.file.unread)
        × Accepted t'.buffer a
  pub rejected : good ≡ false → (t'.file.eof ≡ true) ⊎ ((b : MemAccess) → ¬ Accepted t'.buffer b)

uncounted :
    (t t' : Trace)
    → Skipped (record t { line_number = (t.line_number + 1) % 2 ^ 64 }) t'
    → Skipped t t'
uncounted t t' s = record { unread = s.unread; consumed = s.consumed; line = s.line }

abbrev Reading : Trace → Bool × MemAccess → Trace → Type 0
Reading t (good, a) t' = Read t good a t'

at_end :
    (t t' : Trace) (old : MemAccess) → Skipped t t' → t'.file.eof ≡ true → Reading t (false, old) t'
at_end t t' old s e = record {
  unread = s.unread;
  no_comment = s.line;
  accepted = λ g. absurd (ground arith);
  rejected = λ _. inl e;
}

on_line :
    (t t' : Trace) (r : Bool × MemAccess)
    → Skipped t t'
    → t'.file.eof ≡ false
    → Answer t'.buffer r
    → Reading t r t'
on_line t t' (true, a) s e x = record {
  unread = s.unread;
  no_comment = s.line;
  accepted = λ _. (e, s.consumed e, x);
  rejected = λ g. absurd (ground arith);
}
on_line t t' (false, a) s e x = record {
  unread = s.unread;
  no_comment = s.line;
  accepted = λ g. absurd (ground arith);
  rejected = λ _. inr x;
}

answered :
    (t t' : Trace) (old : MemAccess)
    → Skipped t t'
    → (b : Bool) → t'.file.eof ≡ b
    → Returns
        (λ (good, a) t'. Read t good a t')
        ((if b then pure (false, old) else pure (parse_line t'.buffer old)) t')
answered t t' old s true e = returns (at_end t t' old s e)
answered t t' old s false e =
    returns (on_line t t' (parse_line t'.buffer old) s e (parse_line-Answer t'.buffer old))

-- On any file CSC369_TraceRead ends. It returns 0 exactly when it stops, before the end of the file,
-- on a line that holds a letter among I, L, S and M, an address whose offset is at most 16, and a
-- value; these are then what it stores, and at least one character has been read. The line is not one
-- that starts with `=`.
pub trace_read-Read :
    (old : MemAccess) (t : Trace) → Returns (λ (good, a) t'. Read t good a t') (trace_read old t)
unfolding trace_read parse_line
trace_read-Read old t =
    let counted = record t { line_number = (t.line_number + 1) % 2 ^ 64 } in
    Returns.bind (skip_lines-Skipped (suc (length t.file.unread)) counted (omega arith))
      λ _ t' s. answered t t' old (uncounted t t' s) t'.file.eof refl

-- Whatever the file, an access for which CSC369_TraceRead returns 0 has a 64-bit address, a value of
-- 8 bits, and an offset of at most 16 in its page.
pub trace_read-bounds :
    (old : MemAccess) (t : Trace)
    → Returns
        (λ (good, a) t'.
          good ≡ true
          → (a.virtual_address < 2 ^ 64)
            × (a.value < 2 ^ 8)
            × (a.virtual_address % page_size ≤ frame_size))
        (trace_read old t)
trace_read-bounds old t = Returns.mono (trace_read-Read old t) λ (good, a) t' r g.
    let (_, _, x) = r.accepted g in let (va, v) = Accepted-bounds t'.buffer a x in (va, v, x.offset)

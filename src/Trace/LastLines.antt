-- ===== src/Trace/LastLines.antt =====
-- CSC369_TraceRead behind the last access of a file.
use csc369_os_a.Base.{
  ℕ, zero, suc, ◌<◌, ◌≡◌, ◌∙◌, refl, ap, true, false, List, [], ◌∷◌, length, arith, ◌^◌, ◌%◌, ◌+◌,
}
use csc369_os_a.Base.Returns
use csc369_os_a.Base.Returns.{Returns, returns}
use csc369_os_a.Machine.{MemAccess}
use csc369_os_a.Trace.Stdio.{get_line, fgets}
use csc369_os_a.Trace.Lines.{Reads-print_comment}
use csc369_os_a.Trace.Print.{print_comments, AreComments}
use csc369_os_a.Trace.ReadBack.{skip_lines-comment, length-print_comments}
use csc369_os_a.Trace.{Trace, skip_lines, trace_read}

skip_lines-nothing :
    (fuel : ℕ) (t : Trace)
    → t.file.unread ≡ []
    → Returns (λ _ t'. t'.file.eof ≡ true) (skip_lines (suc fuel) t)
unfolding skip_lines fgets get_line
skip_lines-nothing fuel t e = rw e (returns refl)

skip_lines-print_comments :
    (bodies : List (List ℕ)) (fuel : ℕ) (t : Trace)
    → AreComments bodies
    → t.file.unread ≡ print_comments bodies []
    → length bodies < fuel
    → Returns (λ _ t'. t'.file.eof ≡ true) (skip_lines fuel t)
skip_lines-print_comments bodies zero t cs e l = absurd (omega arith)
skip_lines-print_comments [] (suc fuel) t cs e l = skip_lines-nothing fuel t e
skip_lines-print_comments (body ∷ bodies) (suc fuel) t (none_in, fit, cs) e l =
    rw
      (skip_lines-comment fuel t _ _
        (ap (get_line 255) e ∙ Reads-print_comment body (print_comments bodies []) none_in fit))
      (skip_lines-print_comments bodies fuel _ cs refl (omega arith))

-- Where only comments are left CSC369_TraceRead returns -1 and stores nothing.
pub trace_read-print_comments :
    (bodies : List (List ℕ)) (old : MemAccess) (t : Trace)
    → AreComments bodies
    → t.file.unread ≡ print_comments bodies []
    → Returns (λ r _. r ≡ (false, old)) (trace_read old t)
unfolding trace_read
trace_read-print_comments bodies old t cs e =
    let counted = record t { line_number = (t.line_number + 1) % 2 ^ 64 } in
    Returns.bind
      (skip_lines-print_comments bodies (suc (length t.file.unread)) counted cs e
        (omega (arith, length-print_comments bodies [], ap length e)))
      λ _ t' h. rw h (returns refl)

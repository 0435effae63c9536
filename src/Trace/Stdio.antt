-- ===== src/Trace/Stdio.antt =====
-- What csc369_trace.c uses of <stdio.h> on a file that is read to its end once: fgets and feof. A
-- file is the characters that are left, and the end-of-file indicator.
use csc369_os_a.Base.{ℕ, zero, suc, ◌-◌, Bool, true, false, List, [], ◌∷◌, ◌==◌, if◌then◌else◌}

pub record Stream : Type 0 where
  pub unread : List ℕ
  pub eof : Bool

-- the characters of a line, at most as many as given, what is left, and whether the end was met
unfoldable pub get_line : ℕ → List ℕ → List ℕ × List ℕ × Bool
get_line zero cs = ([], cs, false)
get_line (suc n) [] = ([], [], true)
get_line (suc n) (c ∷ cs) =
    let (line, rest, ended) = get_line n cs in
    if c == b'\n' then (c ∷ [], cs, false) else (c ∷ line, rest, ended)

abbrev pub buffered : List ℕ → List ℕ × List ℕ × Bool → Bool × List ℕ × Stream
buffered buffer ([], rest, ended) = (false, buffer, record { unread = rest; eof = ended })
buffered buffer (c ∷ line, rest, ended) = (true, c ∷ line, record { unread = rest; eof = ended })

-- `fgets (buffer, size, file)`: whether the result is not NULL, the buffer, the file. At the end of
-- the file the buffer stays as it is.
unfoldable pub fgets : ℕ → List ℕ → Stream → Bool × List ℕ × Stream
unfolding get_line
fgets size buffer file = buffered buffer (get_line (size - 1) file.unread)

-- `buffer[0]`
abbrev pub first_char : List ℕ → ℕ
first_char [] = 0
first_char (c ∷ cs) = c

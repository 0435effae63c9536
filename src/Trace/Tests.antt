-- ===== src/Trace/Tests.antt =====
-- Lines of a trace file, and what csc369_trace.c makes of them.
use csc369_os_a.Base.{
  ℕ, ◌+◌, ◌%◌, ◌^◌, ◌≤◌, ◌<◌, ◌≡◌, refl, true, false, some, List, [], ◌∷◌, arith,
}
use csc369_os_a.Base.Returns.{Returns}
use csc369_os_a.Swap.{frame_size}
use csc369_os_a.Machine.{MemAccess, store, load, modify_access, page_size}
use csc369_os_a.Trace.Print.{Item, IsItem, print_item, print_access}
use csc369_os_a.Trace.ReadBack.{after_line, trace_read-print_item}
use csc369_os_a.Trace.Read.{Read, trace_read-Read, trace_read-bounds}
use csc369_os_a.Trace.Unterminated.{trace_read-unterminated}
use csc369_os_a.Trace.{Trace, parse_line, trace_read}

abbrev at_start : List ℕ → Trace
at_start text = record {
  file = record { unread = text; eof = false };
  buffer = [];
  line_number = 0;
}

abbrev nothing : MemAccess
nothing = record { type = load; virtual_address = 0; value = 0 }

-- `M 000000401010 200`: the offset is 16, one past a simulated frame
abbrev modify_line : List ℕ
modify_line =
    b'M' ∷ b' ' ∷ b'4' ∷ b'0' ∷ b'1' ∷ b'0' ∷ b'1' ∷ b'0' ∷ b' ' ∷ b'2' ∷ b'0' ∷ b'0' ∷ b'\n' ∷ []

offset_16_passes :
    parse_line modify_line nothing
    ≡ (true, record { type = modify_access; virtual_address = 0x401010; value = 200 })
unfolding parse_line
offset_16_passes = refl

abbrev item : Item
item = record {
  comments = (b'=' ∷ b' ' ∷ b'x' ∷ []) ∷ [] ∷ [];
  widths = record { address = 12; value = 3 };
  access = record { type = store; virtual_address = 0x7f0000001004; value = 255 };
}

item-IsItem : IsItem item
item-IsItem = (
  ((omega arith, (omega arith, (omega arith, tt))), omega arith, (tt, omega arith, tt)),
  record {
    address = omega arith;
    address_digits = omega arith;
    some_address = omega arith;
    offset = omega arith;
    value = omega arith;
    value_digits = omega arith;
    some_value = omega arith;
    fits = omega arith;
  },
)

trace_read-print_item_example :
    trace_read nothing (at_start (print_item item modify_line))
    ≡ some (
      (true, item.access),
      after_line
          (print_access item.widths item.access [])
          modify_line
          (record (at_start (print_item item modify_line)) { line_number = (0 + 1) % 2 ^ 64 }),
    )
trace_read-print_item_example =
    trace_read-print_item item modify_line (at_start (print_item item modify_line)) nothing
      item-IsItem refl

trace_read-Read_example :
    Returns
      (λ (good, a) t'. Read (at_start modify_line) good a t')
      (trace_read nothing (at_start modify_line))
trace_read-Read_example = trace_read-Read nothing (at_start modify_line)

trace_read-bounds_example :
    Returns
      (λ (good, a) t'.
        good ≡ true
        → (a.virtual_address < 2 ^ 64)
          × (a.value < 2 ^ 8)
          × (a.virtual_address % page_size ≤ frame_size))
      (trace_read nothing (at_start modify_line))
trace_read-bounds_example = trace_read-bounds nothing (at_start modify_line)

-- `L 0 0` with no end of line
abbrev last_line : List ℕ
last_line = b'L' ∷ b' ' ∷ b'0' ∷ b' ' ∷ b'0' ∷ []

trace_read-unterminated_example :
    Returns
      (λ r t'. (r ≡ (false, nothing)) × (t'.file.unread ≡ []))
      (trace_read nothing (at_start last_line))
trace_read-unterminated_example =
    trace_read-unterminated nothing (at_start last_line)
      (omega arith, (omega arith, (omega arith, (omega arith, (omega arith, tt))))) (omega arith)

-- ===== src/Trace/Accept.antt =====
-- The tests of CSC369_TraceRead on a line: which accesses they let through.
use csc369_os_a.Base.{
  ℕ, ◌%◌, ◌^◌, ◌≤◌, ◌<◌, ◌≡◌, refl, subst, Bool, true, false, Option, none, some, List, [], ◌∷◌,
  arith, ltb, ◌==◌, if◌then◌else◌,
}
use csc369_os_a.Swap.{frame_size}
use csc369_os_a.Machine.{AccessType, MemAccess, page_size}
use csc369_os_a.Trace.Scan.{
  to_ulong, scan_ulong, scan_sign, skip_space, signed_ulong, sscanf, scan_value, scan_fields,
  c_string,
}
use csc369_os_a.Trace.{parse_line, access_type, store_fields, check_access, check_type}

to_ulong-lt : (negative : Bool) (n : ℕ) → to_ulong negative n < 2 ^ 64
to_ulong-lt negative n = ground arith

abbrev AllBelow : ℕ → Option (ℕ × List ℕ) → Type 0
AllBelow bound none = Unit {0}
AllBelow bound (some (n, rest)) = n < bound

signed_ulong-AllBelow :
    (negative : Bool) (o : Option (ℕ × List ℕ)) → AllBelow (2 ^ 64) (signed_ulong negative o)
signed_ulong-AllBelow negative none = tt
signed_ulong-AllBelow negative (some (n, rest)) = to_ulong-lt negative n

AllBelow-if :
    (b : Bool) (bound : ℕ) (x y : Option (ℕ × List ℕ))
    → AllBelow bound x
    → AllBelow bound y
    → AllBelow bound (if b then x else y)
AllBelow-if true bound x y h k = h
AllBelow-if false bound x y h k = k

scan_sign-AllBelow : (base : ℕ) (cs : List ℕ) → AllBelow (2 ^ 64) (scan_sign base cs)
unfolding scan_sign
scan_sign-AllBelow base [] = tt
scan_sign-AllBelow base (c ∷ cs) =
    AllBelow-if (c == b'-') (2 ^ 64) _ _ (signed_ulong-AllBelow true _) (
      AllBelow-if (c == b'+') (2 ^ 64) _ _ (signed_ulong-AllBelow false _)
        (signed_ulong-AllBelow false _))

abbrev Bounded : List ℕ → Type 0
Bounded (c ∷ va ∷ v ∷ []) = (va < 2 ^ 64) × (v < 2 ^ 8)
Bounded _ = Unit {0}

scan_value-Bounded :
    (c va : ℕ) (o : Option (ℕ × List ℕ))
    → va < 2 ^ 64
    → Bounded (c ∷ va ∷ elim o [ none ↦ [] | some (v, _) ↦ v % 2 ^ 8 ∷ [] ])
scan_value-Bounded c va none h = tt
scan_value-Bounded c va (some (v, rest)) h = (h, omega arith)

address-Bounded :
    (c : ℕ) (o : Option (ℕ × List ℕ))
    → AllBelow (2 ^ 64) o
    → Bounded (elim o [ none ↦ c ∷ [] | some (va, rest) ↦ c ∷ va ∷ scan_value rest ])
address-Bounded c none h = tt
address-Bounded c (some (va, rest)) h = scan_value-Bounded c va (scan_ulong 10 rest) h

scan_ulong-AllBelow : (base : ℕ) (cs : List ℕ) → AllBelow (2 ^ 64) (scan_ulong base cs)
unfolding scan_ulong
scan_ulong-AllBelow base cs = scan_sign-AllBelow base (skip_space cs)

scan_fields-Bounded : (cs : List ℕ) → Bounded (scan_fields cs)
scan_fields-Bounded [] = tt
scan_fields-Bounded (c ∷ cs) = address-Bounded c (scan_ulong 16 cs) (scan_ulong-AllBelow 16 cs)

-- what a line must hold for an access
pub record Accepted (line : List ℕ) (a : MemAccess) : Type 0 where
  pub letter : ℕ
  pub fields : sscanf line ≡ letter ∷ a.virtual_address ∷ a.value ∷ []
  pub type : access_type letter ≡ some a.type
  pub offset : a.virtual_address % page_size ≤ frame_size

abbrev pub Answer : List ℕ → Bool × MemAccess → Type 0
Answer line (true, a) = Accepted line a
Answer line (false, a) = (b : MemAccess) → ¬ Accepted line b

check_offset-Answer :
    (line : List ℕ) (c va v : ℕ)
    → sscanf line ≡ c ∷ va ∷ v ∷ []
    → (t : AccessType) → access_type c ≡ some t
    → (b : Bool) → ltb frame_size (va % page_size) ≡ b
    → Answer line (
        let a : MemAccess = record { type = t; virtual_address = va; value = v } in
        if b then (false, a) else (true, a))
check_offset-Answer line c va v e t is true h = λ b a. absurd (ground (arith, a.fields, a.offset))
check_offset-Answer line c va v e t is false h = record {
  letter = c;
  fields = e;
  type = is;
  offset = ground arith;
}

check_type-Answer :
    (line : List ℕ) (c va v : ℕ)
    → sscanf line ≡ c ∷ va ∷ v ∷ []
    → (t : Option AccessType) → access_type c ≡ t
    → (old : MemAccess)
    → Answer line (check_type t (record old { virtual_address = va; value = v }))
check_type-Answer line c va v e none is old = λ b a. absurd (ground (arith, a.fields, a.type))
check_type-Answer line c va v e (some t) is old =
    check_offset-Answer line c va v e t is (ltb frame_size (va % page_size)) refl

check_access-Answer :
    (line values : List ℕ) (old : MemAccess)
    → sscanf line ≡ values
    → Answer line (check_access values (store_fields values old))
unfolding check_access store_fields
check_access-Answer line [] old e = λ b a. absurd (ground (arith, a.fields))
check_access-Answer line (c ∷ []) old e = λ b a. absurd (ground (arith, a.fields))
check_access-Answer line (c ∷ va ∷ []) old e = λ b a. absurd (ground (arith, a.fields))
check_access-Answer line (c ∷ va ∷ v ∷ _ ∷ _) old e = λ b a. absurd (ground (arith, a.fields))
check_access-Answer line (c ∷ va ∷ v ∷ []) old e =
    check_type-Answer line c va v e (access_type c) refl old

-- CSC369_TraceRead takes the fields of a line, or the line holds no access.
pub parse_line-Answer : (line : List ℕ) (old : MemAccess) → Answer line (parse_line line old)
unfolding parse_line
parse_line-Answer line old = check_access-Answer line (sscanf line) old refl

pub Accepted-bounds :
    (line : List ℕ) (a : MemAccess)
    → Accepted line a
    → (a.virtual_address < 2 ^ 64) × (a.value < 2 ^ 8)
unfolding sscanf
Accepted-bounds line a x = subst Bounded x.fields (scan_fields-Bounded (c_string line))

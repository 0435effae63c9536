-- ===== src/Memsim/Options.antt =====
-- The options of memsim.c: their order, and the names of the replacement algorithms.
use csc369_os_a.Base.{ℕ, ◌≡◌, ◌≢◌, refl, true, none, List, [], ◌∷◌, arith}
use csc369_os_a.Machine.{Policy}
use csc369_os_a.Memsim.{
  Text, same_text, policies, find_policy, get_replacement_algorithm, Args, set_option,
  parse_options,
}

-- Two different options may be given in either order, whatever follows them, and whether or not
-- they are known; of options with the same letter the last counts.
pub parse_options-swap :
    (o1 o2 : ℕ) (a1 a2 : Text) (rest : List (ℕ × Text)) (args : Args)
    → o1 ≢ o2
    → parse_options ((o1, a1) ∷ (o2, a2) ∷ rest) args
      ≡ parse_options ((o2, a2) ∷ (o1, a1) ∷ rest) args
unfolding parse_options set_option
parse_options-swap o1 o2 a1 a2 rest args ne = ground arith

same_text-eq : (a b : Text) → same_text a b ≡ true → a ≡ b
same_text-eq [] [] h = refl
same_text-eq [] (d ∷ ds) h = absurd (ground arith)
same_text-eq (c ∷ cs) [] h = absurd (ground arith)
same_text-eq (c ∷ cs) (d ∷ ds) h = ground (arith, same_text-eq cs ds)

-- the name is none of the list's
abbrev pub IsUnknown : Text → List (Text × Policy) → Type 0
IsUnknown name [] = Unit {0}
IsUnknown name ((n, p) ∷ rest) = (n ≢ name) × IsUnknown name rest

find_policy-IsUnknown :
    (name : Text) (list : List (Text × Policy)) → IsUnknown name list → find_policy name list ≡ none
find_policy-IsUnknown name [] u = refl
find_policy-IsUnknown name ((n, p) ∷ rest) (ne, u) =
    ground (arith, same_text-eq n name, find_policy-IsUnknown name rest u)

pub get_replacement_algorithm-IsUnknown :
    (name : Text) → IsUnknown name policies → get_replacement_algorithm name ≡ none
unfolding get_replacement_algorithm
get_replacement_algorithm-IsUnknown name u = find_policy-IsUnknown name policies u

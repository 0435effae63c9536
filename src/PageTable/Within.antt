-- ===== src/PageTable/Within.antt =====
-- The entries below an entry of csc369_page_table.c, through its table and the tables below.
use csc369_os_a.Base.{
  ℕ, ◌≤◌, ◌<◌, ◌≡◌, ◌≢◌, ◌∙◌, ◌⊎◌, inl, inr, sym, refl, ap, subst, true, arith, Ptr, null,
}
use csc369_os_a.PageTable.{Heap}
use csc369_os_a.PageTable.View.{slot, below, has_pte}
use csc369_os_a.PageTable.Tree.{IsTree, no_table}
use csc369_os_a.PageTable.Owned.{IsRooted}

-- `p` is `q`, or in a table below it
pub data Within (h : Heap) (q : Ptr) : Ptr → Type 0 where
  here : {p : Ptr} → p ≡ q → Within h q p
  deeper :
      {p : Ptr} (r : Ptr) (i : ℕ)
      → Within h q r
      → slot h (below h r) i ≡ p
      → p ≢ null
      → Within h q p

-- `p` is within an entry in slot `i` of `t`, or in a later one
pub data InSlots (h : Heap) (t : Ptr) (i : ℕ) (p : Ptr) : Type 0 where
  in_slot : (j : ℕ) → i ≤ j → slot h t j ≢ null → Within h (slot h t j) p → InSlots h t i p

module _ {h : Heap} {root : Ptr} (v : IsTree h) (r : IsRooted root h) where
  below_of_slot : (q : Ptr) (i : ℕ) → slot h (below h q) i ≢ null → below h q ≢ null
  below_of_slot q i ne = ground (arith, no_table v, v.slot_pte (below h q) i)

  slot_above : (q : Ptr) (i : ℕ) → slot h (below h q) i ≢ null → q < slot h (below h q) i
  slot_above q i ne = omega (arith, r.below_lt q (below_of_slot q i ne), r.slot_lt (below h q) i ne)

  pub Within-le : {q p : Ptr} → Within h q p → q ≤ p
  Within-le (here e) = omega arith
  Within-le {p = p} (deeper s i w e ne) =
      omega (arith, Within-le w, slot_above s i (subst (λ x. x ≢ null) (sym e) ne), e)

  pub Within-has_pte : {q p : Ptr} → has_pte h q ≡ true → Within h q p → has_pte h p ≡ true
  Within-has_pte has (here e) = subst (λ x. has_pte h x ≡ true) (sym e) has
  Within-has_pte has (deeper s i w e ne) =
      subst (λ x. has_pte h x ≡ true) e
        (v.slot_pte (below h s) i (subst (λ x. x ≢ null) (sym e) ne))

  -- what is within an entry is that entry, or in the table below it
  pub Within-InSlots : {q p : Ptr} → Within h q p → (p ≡ q) ⊎ InSlots h (below h q) 0 p
  Within-InSlots (here e) = inl e
  Within-InSlots {q} {p} (deeper s i w e ne) = elim (Within-InSlots w) [
    | inl same ↦ inr (
        in_slot i (omega arith) (λ z. ne (sym e ∙ ap (λ x. slot h (below h x) i) same ∙ z))
          (here (sym e ∙ ap (λ x. slot h (below h x) i) same)))
    | inr (in_slot j l nj x) ↦ inr (in_slot j l nj (deeper s i x e ne))
  ]

  extend :
      {q : Ptr} (j : ℕ)
      → slot h (below h q) j ≢ null
      → {p : Ptr} → Within h (slot h (below h q) j) p
      → Within h q p
  extend {q} j ne (here e) = deeper q j (here refl) (sym e) (λ z. ne (sym e ∙ z))
  extend j ne (deeper s i w e n) = deeper s i (extend j ne w) e n

  pub InSlots-Within : {q p : Ptr} → InSlots h (below h q) 0 p → Within h q p
  InSlots-Within (in_slot j l ne w) = extend j ne w

  -- two entries with a common one within them are one within the other
  pub Within-common : {q q' p : Ptr} → Within h q p → Within h q' p → Within h q q' ⊎ Within h q' q
  Within-common {q} {q'} (here e) w = inr (subst (Within h q') e w)
  Within-common {q} {q'} (deeper s i w e ne) (here e') =
      inl (subst (Within h q) e' (deeper s i w e ne))
  Within-common {q} {q'} (deeper s i w e ne) (deeper s' i' w' e' ne') =
      let nn : slot h (below h s) i ≢ null = λ z. ne (sym e ∙ z) in
      let tables = (v.slot_unique (below h s) (below h s') i i' nn (e ∙ sym e')).0 in
      let owners = v.below_unique s s' (below_of_slot s i nn) tables in
      Within-common w (subst (Within h q') (sym owners) w')

  -- no entry below a table leads back to it
  pub no_loop :
      (t : Ptr) (i : ℕ) (p : Ptr) → slot h t i ≢ null → Within h (slot h t i) p → t ≢ below h p
  no_loop t i p ne w e =
      let nt : t ≢ null = ground (arith, no_table v, v.slot_pte t i) in
      omega (arith, Within-le w, r.slot_lt t i ne, r.below_lt p (λ z. nt (e ∙ z)), e)

  -- the entries in two slots of a table have nothing in common
  pub slots_apart :
      (t : Ptr) (i j : ℕ) {p : Ptr}
      → slot h t i ≢ null
      → slot h t j ≢ null
      → Within h (slot h t i) p
      → Within h (slot h t j) p
      → i ≡ j
  slots_apart t i j ni nj w w' = elim (Within-common w w') [
    | inl x ↦ slot_within t i j ni nj x
    | inr x ↦ sym (slot_within t j i nj ni x)
  ]
    where
      slot_within :
          (t : Ptr) (i j : ℕ)
          → slot h t i ≢ null
          → slot h t j ≢ null
          → Within h (slot h t i) (slot h t j)
          → i ≡ j
      slot_within t i j ni nj (here e) = (v.slot_unique t t i j ni (sym e)).1
      slot_within t i j ni nj (deeper s k x e ne) =
          absurd (no_loop t i s ni x ((v.slot_unique t (below h s) j k nj (sym e)).0))

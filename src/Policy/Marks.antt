-- ===== src/Policy/Marks.antt =====
-- The reference bits that the clock and S2Q policies set and clear.
use csc369_os_a.Base.{
  ◌≡◌, ◌≢◌, ◌∙◌, refl, ap, subst, Bool, true, some, Ptr, null, Option-cases, inl, inr, arith,
}
use csc369_os_a.PageTable.{Pte, Heap, pte_is_referenced, pte_set_referenced, pte_get_frame_number}
use csc369_os_a.PageTable.View.{has_pte, status}
use csc369_os_a.PageTable.Entry.{
  with_entry, with_entry_self, is_referenced_at, set_referenced_at, get_frame_number_at,
  status-with_entry,
}
use csc369_os_a.Policy.Memory.{SameTables, with_entry-same}

-- `h'` is `h` with the reference bit of `p` set to `b`.
pub record Marked (h : Heap) (p : Ptr) (b : Bool) (h' : Heap) : Type 0 where
  pub run : pte_set_referenced p b h ≡ some (tt, h')
  pub same : SameTables h h'
  pub reference : (status h' p).reference ≡ b
  pub others : (q : Ptr) → q ≢ p → (status h' q).reference ≡ (status h q).reference

-- `p` is referenced, and the reference bits of the other entries are the same.
abbrev pub Referenced : Heap → Ptr → Heap → Type 0
Referenced h p h' =
    ((status h' p).reference ≡ true)
    × ((q : Ptr) → q ≢ p → (status h' q).reference ≡ (status h q).reference)

module _ (h : Heap) (p : Ptr) (ne : p ≢ null) (has : has_pte h p ≡ true) where
  an_entry : (e : Pte) × (h.pte p ≡ some e)
  an_entry = elim (Option-cases (h.pte p)) [ inl n ↦ absurd (ground arith) | inr x ↦ x ]

  pub marked : (b : Bool) → (h' : Heap) × Marked h p b h'
  marked b =
      let (e, at) = an_entry in
      let e' = record e { reference = b } in
      let st = status-with_entry h p e' has (ground arith) in
      (
        with_entry h p e',
        record {
          run =
              subst (λ g. pte_set_referenced p b g ≡ some (tt, with_entry h p e'))
                (with_entry_self h p at) (set_referenced_at h p e ne b);
          same = with_entry-same h p e e' at (record {
            valid = refl;
            on_swap = refl;
            frame_number = refl;
            swap_offset = refl;
            page_table = refl;
          });
          reference = ground (arith, st p);
          others = λ q d. ground (arith, st q);
        },
      )

  pub referenced_run : pte_is_referenced p h ≡ some ((status h p).reference, h)
  referenced_run =
      let (e, at) = an_entry in
      subst (λ g. pte_is_referenced p g ≡ some (e.reference, g)) (with_entry_self h p at)
        (is_referenced_at h p e ne)
      ∙ ap (λ b. some (b, h)) (ground arith)

  pub frame_number_run : pte_get_frame_number p h ≡ some ((status h p).frame_number, h)
  frame_number_run =
      let (e, at) = an_entry in
      subst (λ g. pte_get_frame_number p g ≡ some (e.frame_number, g)) (with_entry_self h p at)
        (get_frame_number_at h p e ne)
      ∙ ap (λ b. some (b, h)) (ground arith)

-- ===== src/PageTable/Entry.antt =====
-- The accessors of csc369_page_table.c at an entry whose contents are known.
use csc369_os_a.Base.{
  ℕ, ◌≡◌, ◌≢◌, ◌∙◌, ap, fun_ext, Bool, true, Option, some, ◌==◌, if◌then◌else◌, Ptr, null, update,
  arith,
}
use csc369_os_a.PageTable.{
  Offset, Pte, Heap, pte_is_valid, pte_set_valid, pte_is_dirty, pte_set_dirty, pte_is_referenced,
  pte_set_referenced, pte_is_on_swap, pte_set_on_swap, pte_get_frame_number, pte_set_frame_number,
  pte_get_swap_offset, pte_set_swap_offset,
}
use csc369_os_a.PageTable.View.{below, has_pte, status, walk}
use csc369_os_a.PageTable.Tree.{IsTree}

-- the heap with the entry `e` at `p`
unfoldable pub with_entry : Heap → Ptr → Pte → Heap
with_entry h p e = record h { pte = update h.pte p (some e) }

update-update :
    {A : Type 0} (f : ℕ → A) (p : ℕ) (a b : A) → update (update f p a) p b ≡ update f p b
update-update f p a b = fun_ext λ q. ground arith

update_self : {A : Type 0} (f : ℕ → A) (p : ℕ) {a : A} → f p ≡ a → update f p a ≡ f
update_self f p e = fun_ext λ q. ground arith

pub with_entry-with_entry :
    (h : Heap) (p : Ptr) (e e' : Pte) → with_entry (with_entry h p e) p e' ≡ with_entry h p e'
unfolding with_entry
with_entry-with_entry h p e e' =
    ap (λ f. record h { pte = f }) (update-update h.pte p (some e) (some e'))

pub with_entry_self : (h : Heap) (p : Ptr) {e : Pte} → h.pte p ≡ some e → with_entry h p e ≡ h
unfolding with_entry
with_entry_self h p e = ap (λ f. record h { pte = f }) (update_self h.pte p e)

module _ (h : Heap) (p : Ptr) (e : Pte) where
  settle :
      (e' : Pte) {r : Option (Unit {0} × Heap)}
      → r ≡ some (tt, with_entry (with_entry h p e) p e')
      → r ≡ some (tt, with_entry h p e')
  settle e' run = run ∙ ap (λ h'. some (tt, h')) (with_entry-with_entry h p e e')

  module _ (ne : p ≢ null) where
    pub is_valid_at : pte_is_valid p (with_entry h p e) ≡ some (e.valid, with_entry h p e)
    unfolding pte_is_valid with_entry
    is_valid_at = ground arith

    pub is_dirty_at : pte_is_dirty p (with_entry h p e) ≡ some (e.dirty, with_entry h p e)
    unfolding pte_is_dirty with_entry
    is_dirty_at = ground arith

    pub is_referenced_at :
        pte_is_referenced p (with_entry h p e) ≡ some (e.reference, with_entry h p e)
    unfolding pte_is_referenced with_entry
    is_referenced_at = ground arith

    pub is_on_swap_at : pte_is_on_swap p (with_entry h p e) ≡ some (e.on_swap, with_entry h p e)
    unfolding pte_is_on_swap with_entry
    is_on_swap_at = ground arith

    pub get_frame_number_at :
        pte_get_frame_number p (with_entry h p e) ≡ some (e.frame_number, with_entry h p e)
    unfolding pte_get_frame_number with_entry
    get_frame_number_at = ground arith

    pub get_swap_offset_at :
        pte_get_swap_offset p (with_entry h p e) ≡ some (e.swap_offset, with_entry h p e)
    unfolding pte_get_swap_offset with_entry
    get_swap_offset_at = ground arith

    pub set_valid_at :
        (b : Bool)
        → pte_set_valid p b (with_entry h p e) ≡ some (tt, with_entry h p (record e { valid = b }))
    unfolding pte_set_valid with_entry
    set_valid_at b = settle _ (ground arith)

    pub set_dirty_at :
        (b : Bool)
        → pte_set_dirty p b (with_entry h p e) ≡ some (tt, with_entry h p (record e { dirty = b }))
    unfolding pte_set_dirty with_entry
    set_dirty_at b = settle _ (ground arith)

    pub set_referenced_at :
        (b : Bool)
        → pte_set_referenced p b (with_entry h p e)
          ≡ some (tt, with_entry h p (record e { reference = b }))
    unfolding pte_set_referenced with_entry
    set_referenced_at b = settle _ (ground arith)

    pub set_on_swap_at :
        (b : Bool)
        → pte_set_on_swap p b (with_entry h p e)
          ≡ some (tt, with_entry h p (record e { on_swap = b }))
    unfolding pte_set_on_swap with_entry
    set_on_swap_at b = settle _ (ground arith)

    pub set_frame_number_at :
        (n : ℕ)
        → pte_set_frame_number p n (with_entry h p e)
          ≡ some (tt, with_entry h p (record e { frame_number = n }))
    unfolding pte_set_frame_number with_entry
    set_frame_number_at n = settle _ (ground arith)

    pub set_swap_offset_at :
        (o : Offset)
        → pte_set_swap_offset p o (with_entry h p e)
          ≡ some (tt, with_entry h p (record e { swap_offset = o }))
    unfolding pte_set_swap_offset with_entry
    set_swap_offset_at o = settle _ (ground arith)

-- An entry that keeps its table below changes nothing but its own status.
module _ (h : Heap) (p : Ptr) (e : Pte) (has : has_pte h p ≡ true)
    (keeps : e.page_table ≡ below h p) where
  pub below-with_entry : (q : Ptr) → below (with_entry h p e) q ≡ below h q
  unfolding with_entry
  below-with_entry q = ground arith

  pub has_pte-with_entry : (q : Ptr) → has_pte (with_entry h p e) q ≡ has_pte h q
  unfolding with_entry
  has_pte-with_entry q = ground arith

  pub status-with_entry :
      (q : Ptr)
      → status (with_entry h p e) q
        ≡ (if p == q then record e { page_table = null } else status h q)
  unfolding with_entry
  status-with_entry q = ground arith

  pub with_entry-IsTree : IsTree h → IsTree (with_entry h p e)
  unfolding with_entry
  with_entry-IsTree v = record {
    next_pos = v.next_pos;
    pte_lt = λ q. ground (arith, v.pte_lt q);
    table_lt = v.table_lt;
    slot_pte = λ t i ne. has_pte-with_entry _ ∙ v.slot_pte t i ne;
    below_table = λ q. rw (below-with_entry q) (v.below_table q);
    slot_unique = v.slot_unique;
    below_unique = λ q r. rw (below-with_entry q, below-with_entry r) (v.below_unique q r);
  }

  pub walk-with_entry : (t : Ptr) (va : ℕ) → walk (with_entry h p e) t va ≡ walk h t va
  unfolding walk with_entry
  walk-with_entry t va = simp below-with_entry

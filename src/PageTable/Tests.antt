-- ===== src/PageTable/Tests.antt =====
-- Page tables of csc369_page_table.c that hold one path.
use csc369_os_a.Base.{ℕ, ◌/◌, ◌^◌, ◌≡◌, refl, none, some, ◌==◌, if◌then◌else◌, update, null, arith}
use csc369_os_a.Base.Returns.{Returns}
use csc369_os_a.Kmalloc.{malloc_init}
use csc369_os_a.PageTable.{Pte, Heap, init_pte, page_table_create, page_table_allocate}
use csc369_os_a.PageTable.View.{walk}
use csc369_os_a.PageTable.Tree.{IsTree, walk_unique}
use csc369_os_a.PageTable.Create.{Created, page_table_create-Created}
use csc369_os_a.PageTable.Allocate.{Mapped, page_table_allocate-Mapped, page_table_allocate_of_walk}
use csc369_os_a.PageTable.Search.{
  page_table_search, page_table_search_of_zero, page_table_search_of_ne_zero,
}

abbrev pte_to : ℕ → Pte
pte_to t = record init_pte { page_table = t }

-- the tables 4, 5 and 6, with the entries 1 to 3 between them: 1 in slot 0, 2 in slot `i`, 3 in
-- slot 1
abbrev path : ℕ → Heap
path i = record {
  pte =
      update (update (update (λ _. none) 1 (some (pte_to 5))) 2 (some (pte_to 6))) 3
        (some init_pte);
  table =
      update
        (update
          (update (λ _. none) 4
            (some (record { array = 7; ptes = λ j. if j == 0 then 1 else null })))
          5 (some (record { array = 8; ptes = λ j. if j == i then 2 else null })))
        6 (some (record { array = 9; ptes = λ j. if j == 1 then 3 else null }));
  kmalloc = malloc_init;
  next = 10;
}

path-IsTree : (i : ℕ) → IsTree (path i)
path-IsTree i = record {
  next_pos = omega arith;
  pte_lt = λ q e. ground arith;
  table_lt = λ t e. ground arith;
  slot_pte = λ t j ne. ground arith;
  below_table = λ q ne. ground arith;
  slot_unique = λ t u j k ne e. ground arith;
  below_unique = λ p q ne e. ground arith;
}

found_0 : walk (path 0) 4 0x1003 ≡ 3
unfolding walk
found_0 = refl

found_1 : walk (path 1) 4 0x1001003 ≡ 3
unfolding walk
found_1 = refl

page_table_create-Created_example : Returns (Created (path 0)) (page_table_create (path 0))
page_table_create-Created_example = page_table_create-Created (path-IsTree 0) (omega arith)

page_table_allocate-Mapped_example :
    Returns (Mapped (path 0) 4 0x7f2001003) (page_table_allocate 4 0x7f2001003 (path 0))
page_table_allocate-Mapped_example =
    page_table_allocate-Mapped 4 0x7f2001003 (path-IsTree 0) refl (omega arith) (omega arith)

page_table_allocate_of_walk_example :
    page_table_allocate 4 0x1003 (path 0) ≡ some (walk (path 0) 4 0x1003, path 0)
page_table_allocate_of_walk_example =
    page_table_allocate_of_walk 4 0x1003 (path-IsTree 0) (omega arith) (omega (arith, found_0))

same_page : walk (path 0) 4 0x1003 ≡ walk (path 0) 4 0x1ff5
unfolding walk
same_page = refl

walk_unique_example : 0x1003 / 2 ^ 12 ≡ 0x1ff5 / 2 ^ 12
walk_unique_example = walk_unique (path-IsTree 0) 4 0x1003 0x1ff5 (omega (arith, found_0)) same_page

page_table_search_of_zero_example :
    page_table_search 4 0x1003 (path 0) ≡ some (walk (path 0) 4 0x1003, path 0)
page_table_search_of_zero_example =
    page_table_search_of_zero (path-IsTree 0) 4 0x1003 refl (omega arith) refl

page_table_search_of_ne_zero_example : page_table_search 4 0x1001003 (path 1) ≡ none
page_table_search_of_ne_zero_example =
    page_table_search_of_ne_zero (path-IsTree 1) 4 0x1001003 refl (omega arith) (omega arith)
      (omega (arith, found_1))

-- ===== src/Policy/Tests.antt =====
-- The clock and S2Q policies with one frame, which is in use.
use csc369_os_a.Base.{◌+◌, ◌-◌, ◌≡◌, inl, refl, ◌==◌, if◌then◌else◌, null, arith}
use csc369_os_a.Base.Returns.{Returns}
use csc369_os_a.Links.{Links, list_del, list_add_head}
use csc369_os_a.Links.Ring.{Ring, without, place_without, list_del-Ring}
use csc369_os_a.Links.Insert.{with, place_with, list_add_head-Ring}
use csc369_os_a.Machine.{Machine}
use csc369_os_a.Mm.Tests.{full}
use csc369_os_a.Policy.S2qQueues.{S2qTracked}

-- entry 3, of frame 0, in a ring of its own
abbrev one : Links
one = record { next = λ e. if e == 3 then 3 else null; prev = λ e. if e == 3 then 3 else null }

one-Ring : Ring one 1 (λ k. 3) (λ e. 0)
one-Ring = record {
  entry = λ k l. omega arith;
  place = λ k l. omega arith;
  next = λ k l. refl;
  prev = λ k l. refl;
}

list_del-Ring_example :
    Returns
      (λ _ l'.
        Ring l' (1 - 1) (without 0 (λ k. 3)) (place_without 0 (λ e. 0))
        × (l'.next 3 ≡ null)
        × (l'.prev 3 ≡ null))
      (list_del 3 one)
list_del-Ring_example = list_del-Ring one-Ring 0 (omega arith)

list_add_head-Ring_example :
    Returns
      (λ _ l'. Ring l' (1 + 1) (with (0 + 1) 4 (λ k. 3)) (place_with (0 + 1) 4 (λ e. 0)))
      (list_add_head 3 4 one)
list_add_head-Ring_example =
    list_add_head-Ring one-Ring 4 (omega arith) (λ k l. omega arith) 0 (omega arith)

abbrev on_clock : Machine
on_clock = record full { links = one; clock_list = 3; clock_hand = 3 }

-- frame 0 in A1
abbrev in_a1 : Links
in_a1 = record {
  next = λ e. if e == 1 then 3 else if e == 3 then 1 else if e == 2 then 2 else null;
  prev = λ e. if e == 1 then 3 else if e == 3 then 1 else if e == 2 then 2 else null;
}

abbrev on_s2q : Machine
on_s2q = record full { links = in_a1 }

on_s2q-Tracked : S2qTracked 1 on_s2q
on_s2q-Tracked = record {
  a1 = record {
    n = 2;
    s = λ k. if k == 0 then 1 else 3;
    pos = λ e. if e == 1 then 0 else 1;
    ring = record {
      entry = λ k l. ground arith;
      place = λ k l. ground arith;
      next = λ k l. ground arith;
      prev = λ k l. ground arith;
    };
    some_place = omega arith;
    head_at = refl;
    frames = λ k p l. ground arith;
  };
  am = record {
    n = 1;
    s = λ k. 2;
    pos = λ e. 0;
    ring = record {
      entry = λ k l. omega arith;
      place = λ k l. omega arith;
      next = λ k l. refl;
      prev = λ k l. refl;
    };
    some_place = omega arith;
    head_at = refl;
    frames = λ k p l. absurd (omega arith);
  };
  apart = λ k j a b. ground arith;
  members = λ i l ne b. inl (ground arith);
  unlinked = λ i l w. absurd (ground arith);
}

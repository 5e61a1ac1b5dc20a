-- ===== src/Tests/Ids.antt =====
-- IDM.c.
use hotwired.Prelude.Counts.{count, erase}
use hotwired.Prelude.{ℕ, ◌≡◌, refl, ◌||◌, some, [], ◌∷◌, ◌==◌, if◌then◌else◌, arith}
use hotwired.Idm.{Idm, create, get, join, walk, give_behind, give_back}
use hotwired.Idm.Ranges.{Above, holds, drops, give_back_lem}
use hotwired.Idm.Allocation.{Users, Reach, here, next, allot, release, IsSound, start, allot_fresh}

program : Unit {0}
unfolding create get join walk give_behind give_back count erase
program = tt

-- 1, and 5 to 9.
abbrev two_ranges : Idm
two_ranges = record { start = 1; last = 1 } ∷ record { start = 5; last = 9 } ∷ []

give_back_lem_example :
    Above 0 (give_back two_ranges 4)
    × ((x : ℕ)
        → holds x (give_back two_ranges 4)
          ≡ (if drops two_ranges 4 then holds x two_ranges else x == 4 || holds x two_ranges))
give_back_lem_example = give_back_lem two_ranges 4 (omega arith)

-- 4 joins the second range; 3 becomes a range; 2 is forgotten.
returns :
    (give_back two_ranges 4 ≡ record { start = 1; last = 1 } ∷ record { start = 4; last = 9 } ∷ [])
    × (give_back two_ranges 3
        ≡ record { start = 1; last = 1 }
          ∷ record { start = 3; last = 3 }
          ∷ record { start = 5; last = 9 }
          ∷ [])
    × (give_back two_ranges 2 ≡ two_ranges)
unfolding program
returns = (refl, refl, refl)

-- The ids 1 and 2 are handed out.
abbrev after_two : Users
after_two = record { free = record { start = 3; last = 4097 } ∷ []; out = 2 ∷ 1 ∷ [] }

after_two-Reach : Reach (start 1 4096) after_two
unfolding program
after_two-Reach = next (next here (allot (start 1 4096) 1 _ refl)) (allot _ 2 _ refl)

allot_fresh_example :
    IsSound after_two
    × ((x : ℕ) (ys : Idm) → get after_two.free ≡ some (x, ys) → count x after_two.out ≡ 0)
allot_fresh_example = allot_fresh 1 4096 after_two-Reach

-- 1 to 4 are handed out, and 1 comes back.
abbrev first_back : Users
first_back = record {
  free = record { start = 1; last = 1 } ∷ record { start = 5; last = 4097 } ∷ [];
  out = 4 ∷ 3 ∷ 2 ∷ [];
}

first_back-Reach : Reach (start 1 4096) first_back
unfolding program
first_back-Reach =
    next
      (next
        (next (next (next here (allot (start 1 4096) 1 _ refl)) (allot _ 2 _ refl))
          (allot _ 3 _ refl))
        (allot _ 4 _ refl))
      (release _ 1 (omega arith))

first_back-IsSound : IsSound first_back
first_back-IsSound = (allot_fresh 1 4096 first_back-Reach).0

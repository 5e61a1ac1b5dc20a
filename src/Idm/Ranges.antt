-- ===== src/Idm/Ranges.antt =====
-- The ids that a list of ranges stands for, and what the operations do to them.
use hotwired.Prelude.{
  ℕ, ◌+◌, ◌-◌, ◌≤◌, ◌<◌, ◌≡◌, refl, Bool, true, false, ◌&&◌, ◌||◌, Option, none, some, [], ◌∷◌, inl,
  inr, Bool-cases, ltb→lt, ltb, leb, ◌==◌, if◌then◌else◌, arith,
}
use hotwired.Idm.{Range, Idm, single, get, join, walk, give_behind, give_back}

-- The ranges are not empty, begin at `lo` or above, and rise with a gap between any two.
abbrev pub Above : ℕ → Idm → Type 0
Above lo [] = Unit {0}
Above lo (i ∷ link) = (lo ≤ i.start) × (i.start ≤ i.last) × Above (i.last + 2) link

abbrev pub holds : ℕ → Idm → Bool
holds x [] = false
holds x (i ∷ link) = leb i.start x && leb x i.last || holds x link

Above-mono : (lo hi : ℕ) (xs : Idm) → lo ≤ hi → Above hi xs → Above lo xs
Above-mono lo hi [] h a = tt
Above-mono lo hi (i ∷ link) h a = (omega arith, a.1, a.2)

pub holds_below : (x lo : ℕ) (xs : Idm) → x < lo → Above lo xs → holds x xs ≡ false
holds_below x lo [] h a = refl
holds_below x lo (i ∷ link) h a = ground (arith, holds_below x (i.last + 2) link)

-- The case that `give_back` forgets: the id directly behind the first range, where another range
-- follows that it does not touch.
abbrev pub drops : Idm → ℕ → Bool
drops [] index = false
drops (i ∷ []) index = false
drops (i ∷ l ∷ link) index = index == i.last + 1 && ltb (index + 1) l.start

join-Above :
    (lo : ℕ) (c : Range) (xs : Idm)
    → lo ≤ c.start
    → c.start ≤ c.last
    → Above (c.last + 1) xs
    → Above lo (join c xs)
unfolding join
join-Above lo c [] h k a = omega arith
join-Above lo c (l ∷ link) h k a = ground arith

holds-join :
    (x : ℕ) (c : Range) (xs : Idm)
    → c.start ≤ c.last
    → Above (c.last + 1) xs
    → holds x (join c xs) ≡ holds x (c ∷ xs)
unfolding join
holds-join x c [] k a = refl
holds-join x c (l ∷ link) k a = ground arith

-- The walk starts with an id behind the start of `c`; at the end of the list it is past `c`.
abbrev Ahead : Range → Idm → ℕ → Type 0
Ahead c [] index = c.last + 1 < index
Ahead c (l ∷ link) index = c.start ≤ index

Ahead-next :
    (l : Range) (link : Idm) (index : ℕ)
    → l.start ≤ l.last
    → l.last + 1 < index
    → Ahead l link index
Ahead-next l [] index h k = k
Ahead-next l (m ∷ link) index h k = omega arith

walk-Above :
    (lo : ℕ) (c : Range) (xs : Idm) (index : ℕ)
    → Above lo (c ∷ xs)
    → Ahead c xs index
    → Above lo (walk c xs index)
unfolding walk
walk-Above lo c [] index a h = omega arith
walk-Above lo c (l ∷ link) index a h = ground (
  arith,
  walk-Above (c.last + 2) l link index a.2,
  Ahead-next l link index,
  Above-mono (l.last + 1 + 1) (l.last + 2) link,
  join-Above (c.last + 2) (record l { last = l.last + 1 }) link,
  join-Above lo c (record l { start = l.start - 1 } ∷ link),
  join-Above lo c (single index ∷ l ∷ link),
  join-Above lo c (l ∷ link),
)

drops_past :
    (l : Range) (link : Idm) (index : ℕ) → l.last + 1 < index → drops (l ∷ link) index ≡ false
drops_past l [] index h = refl
drops_past l (m ∷ link) index h = ground arith

holds-walk :
    (x : ℕ) (c : Range) (xs : Idm) (index lo : ℕ)
    → Above lo (c ∷ xs)
    → Ahead c xs index
    → holds x (walk c xs index)
      ≡ (if drops (c ∷ xs) index then holds x (c ∷ xs) else x == index || holds x (c ∷ xs))
unfolding walk
holds-walk x c [] index lo a h = ground arith
holds-walk x c (l ∷ link) index lo a h = elim (Bool-cases (ltb (l.last + 1) index)) [
  | inl past ↦
      rw (past, walk)
        (ground (
          arith,
          holds-walk x l link index (c.last + 2) a.2
              (Ahead-next l link index a.2.1 (ltb→lt _ _ past)),
          drops_past l link index,
        ))
  | inr near ↦
      rw (near, walk)
        (ground (
          arith,
          Above-mono (l.last + 1 + 1) (l.last + 2) link,
          holds-join x (record l { last = l.last + 1 }) link,
          holds-join x c (record l { start = l.start - 1 } ∷ link),
          holds-join x c (single index ∷ l ∷ link),
          holds-join x c (l ∷ link),
        ))
]

give_back-Above : (xs : Idm) (index : ℕ) → Above 0 xs → Above 0 (give_back xs index)
unfolding give_back give_behind join
give_back-Above [] index w = omega arith
give_back-Above (i ∷ []) index w = ground arith
give_back-Above (i ∷ l ∷ link) index w = ground (arith, walk-Above 0 i (l ∷ link) index)

holds-give_back :
    (xs : Idm) (index x : ℕ)
    → Above 0 xs
    → holds x (give_back xs index)
      ≡ (if drops xs index then holds x xs else x == index || holds x xs)
unfolding give_back give_behind join
holds-give_back [] index x w = ground arith
holds-give_back (i ∷ []) index x w = ground arith
holds-give_back (i ∷ l ∷ link) index x w = ground (arith, holds-walk x i (l ∷ link) index 0)

-- On a sound list of ranges `idm_return` leaves a sound list, whose ids are the old ones and the
-- returned one; in the one case that `drops` describes they are the old ones only.
pub give_back_lem :
    (xs : Idm) (index : ℕ)
    → Above 0 xs
    → Above 0 (give_back xs index)
      × ((x : ℕ)
          → holds x (give_back xs index)
            ≡ (if drops xs index then holds x xs else x == index || holds x xs))
give_back_lem xs index w = (give_back-Above xs index w, λ x. holds-give_back xs index x w)

-- What an allocation of `x` does to the ranges.
pub record Takes (xs : Idm) (x : ℕ) (ys : Idm) : Type 0 where
  pub free : holds x xs ≡ true
  pub sound : Above (x + 1) ys
  pub others : (y : ℕ) → holds y ys ≡ (if y == x then false else holds y xs)

abbrev pub Gets : Idm → Option (ℕ × Idm) → Type 0
Gets xs none = (x : ℕ) → holds x xs ≡ false
Gets xs (some (x, ys)) = Takes xs x ys

-- On a sound list of ranges `idm_get` hands out the smallest free id and takes that one away, and
-- answers -1 only where no id is free.
pub get_lem : (xs : Idm) → Above 0 xs → Gets xs (get xs)
unfolding get
get_lem [] w = λ x. refl
get_lem (i ∷ link) w = elim (Bool-cases (ltb i.last (i.start + 1))) [
  | inl used ↦ rw used (record {
    free = ground arith;
    sound = Above-mono (i.start + 1) (i.last + 2) link (omega arith) w.2;
    others = λ y. ground (arith, holds_below y (i.last + 2) link);
  })
  | inr more ↦ rw more (record {
    free = ground arith;
    sound = (ground arith, ground arith, w.2);
    others = λ y. ground (arith, holds_below y (i.last + 2) link);
  })
]

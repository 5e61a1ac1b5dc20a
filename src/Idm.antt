-- ===== src/Idm.antt =====
-- IDM.c: the allocator of transfer ids, a linked list of ranges of free ids. The ids of the program
-- are not negative, so the code's `x - 1` on an `int` is written on the other side of each test.
pub mod Ranges
pub mod Allocation
use hotwired.Prelude.{
  ℕ, ◌+◌, ◌-◌, Bool, false, ◌&&◌, Option, none, some, List, [], ◌∷◌, ltb, ◌==◌, if◌then◌else◌,
}

pub record Range : Type 0 where
  pub start : ℕ
  pub last : ℕ

-- A NULL pointer is the empty list.
abbrev pub Idm : Type 0
Idm = List Range

abbrev pub single : ℕ → Range
single index = record { start = index; last = index }

unfoldable pub create : ℕ → ℕ → Idm
create base size = record { start = base; last = base + size } ∷ []

-- The smallest free id, or `none` for the code's -1.
unfoldable pub get : Idm → Option (ℕ × Idm)
get [] = none
get (i ∷ link) =
    if ltb i.last (i.start + 1)
    then some (i.start, link)
    else some (i.start, record i { start = i.start + 1 } ∷ link)

-- The last statement of `idm_return`: `c` takes in the range behind it if the two touch.
unfoldable pub join : Range → Idm → Idm
join c [] = c ∷ []
join c (l ∷ link) =
    if c.last + 1 == l.start then record c { last = l.last } ∷ link else c ∷ l ∷ link

-- The `for` of `idm_return` from `c` on, and what follows it.
unfoldable pub walk : Range → Idm → ℕ → Idm
walk c [] index = c ∷ single index ∷ []
walk c (l ∷ link) index =
    if ltb (l.last + 1) index
    then c ∷ walk l link index
    else if index == l.last + 1
    then c ∷ join (record l { last = l.last + 1 }) link
    else if index + 1 == l.start
    then join c (record l { start = l.start - 1 } ∷ link)
    else if ltb (index + 1) l.start && ltb (c.last + 1) index
    then join c (single index ∷ l ∷ link)
    else join c (l ∷ link)

-- Where there is one range only, and where there are more.
unfoldable pub give_behind : Range → Idm → ℕ → Idm
give_behind i [] index =
    if ltb (i.last + 1) index
    then i ∷ single index ∷ []
    else if index == i.last + 1
    then record i { last = i.last + 1 } ∷ []
    else i ∷ []
give_behind i (l ∷ link) index = walk i (l ∷ link) index

-- `idm_return`
unfoldable pub give_back : Idm → ℕ → Idm
give_back [] index = single index ∷ []
give_back (i ∷ link) index =
    if ltb (index + 1) i.start
    then join (single index) (i ∷ link)
    else if index + 1 == i.start
    then record i { start = i.start - 1 } ∷ link
    else give_behind i link index

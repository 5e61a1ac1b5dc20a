-- ===== src/Transaction/PathName/Offsets.antt =====
-- Offsets that are not negative.
use native.Mathlib.Nat.{zero-add, suc-add}
use hotwired.Prelude.{
  ℕ, zero, suc, ◌+◌, ◌≡◌, refl, some, List, [], ◌∷◌, take, drop, get_elem?, arith,
}
use hotwired.Prelude.Int.{pos, ◌+ℤ◌}
use hotwired.Transaction.PathName.{name_at}

pub pos-+ℤ : (a b : ℕ) → pos a +ℤ pos b ≡ pos (a + b)
unfolding ◌+ℤ◌
pos-+ℤ a b = ground arith

pub drop-nil : (n : ℕ) → drop {A = ℕ} n [] ≡ []
drop-nil zero = refl
drop-nil (suc n) = refl

pub drop-drop : (m n : ℕ) (bs : List ℕ) → drop m (drop n bs) ≡ drop (n + m) bs
drop-drop m zero bs = rw zero-add refl
drop-drop m (suc n) [] = rw (drop-nil m, drop-nil (suc n + m)) refl
drop-drop m (suc n) (b ∷ bs) = rw suc-add (drop-drop m n bs)

pub get_elem?-drop : (n i : ℕ) (bs : List ℕ) → get_elem? (drop n bs) i ≡ get_elem? bs (n + i)
get_elem?-drop zero i bs = rw zero-add refl
get_elem?-drop (suc n) i [] = refl
get_elem?-drop (suc n) i (b ∷ bs) = rw suc-add (get_elem?-drop n i bs)

pub name_at-take : (bs : List ℕ) (i n : ℕ) → name_at bs (pos i) (pos n) ≡ some (take n (drop i bs))
name_at-take bs i zero = refl
name_at-take bs i (suc n) = refl

-- ===== src/Idm/Allocation.antt =====
-- Histories of an allocator whose users give back only ids that they hold.
use hotwired.Prelude.Counts.{to_nat, count, erase, count-erase}
use hotwired.Prelude.{ℕ, ◌+◌, ◌≤◌, ◌<◌, ◌≡◌, true, false, some, List, [], ◌∷◌, arith}
use mathlib.Core.Path.{subst}
use hotwired.Idm.{Idm, create, get, give_back}
use hotwired.Idm.Ranges.{Above, holds, drops, Takes, Gets, get_lem, give_back_lem}

pub record Users : Type 0 where
  pub free : Idm
  pub out : List ℕ

pub data Step : Users → Users → Type 0 where
  allot :
      (s : Users) (x : ℕ) (ys : Idm)
      → get s.free ≡ some (x, ys)
      → Step s (record { free = ys; out = x ∷ s.out })
  release :
      (s : Users) (x : ℕ)
      → 0 < count x s.out
      → Step s (record { free = give_back s.free x; out = erase x s.out })

pub data Reach (s : Users) : Users → Type 0 where
  here : Reach s s
  next : {t u : Users} → Reach s t → Step t u → Reach s u

-- No id is out twice, and none that is out is free.
pub record IsSound (s : Users) : Type 0 where
  pub ranges : Above 0 s.free
  pub once : (x : ℕ) → count x s.out + to_nat (holds x s.free) ≤ 1

taken :
    (s : Users) (x : ℕ) (ys : Idm) → Above 0 s.free → get s.free ≡ some (x, ys) → Takes s.free x ys
taken s x ys w e = subst (Gets s.free) e (get_lem s.free w)

Above-zero : (lo : ℕ) (xs : Idm) → Above lo xs → Above 0 xs
Above-zero lo [] a = tt
Above-zero lo (i ∷ link) a = (omega arith, a.1, a.2)

Step-IsSound : {s t : Users} → Step s t → IsSound s → IsSound t
unfolding count
Step-IsSound (allot s x ys e) v =
    let t = taken s x ys v.ranges e in
    record {
      ranges = Above-zero (x + 1) ys t.sound;
      once = λ y. ground (arith, t.others y, v.once y, t.free);
    }
Step-IsSound (release s x h) v =
    let (sound, ids) = give_back_lem s.free x v.ranges in
    record { ranges = sound; once = λ y. ground (arith, ids y, v.once y, count-erase x y s.out) }

abbrev pub start : ℕ → ℕ → Users
start base size = record { free = create base size; out = [] }

start-IsSound : (base size : ℕ) → IsSound (start base size)
unfolding create count
start-IsSound base size = record { ranges = omega arith; once = λ x. ground arith }

Reach-IsSound : {s t : Users} → Reach s t → IsSound s → IsSound t
Reach-IsSound here v = v
Reach-IsSound (next r st) v = Step-IsSound st (Reach-IsSound r v)

-- After any history of allocations and returns of ids that are out, on a new allocator, the ranges
-- are sound, no id is out twice and none that is out is free; so the id that the next `idm_get`
-- hands out is not out.
pub allot_fresh :
    (base size : ℕ) {s : Users}
    → Reach (start base size) s
    → IsSound s × ((x : ℕ) (ys : Idm) → get s.free ≡ some (x, ys) → count x s.out ≡ 0)
allot_fresh base size {s} r =
    let v = Reach-IsSound r (start-IsSound base size) in
    (v, λ x ys e. ground (arith, v.once x, (taken s x ys v.ranges e).free))

-- An id that is neither free nor out.
abbrev pub IsLost : ℕ → Users → Type 0
IsLost x s = (holds x s.free ≡ false) × (count x s.out ≡ 0)

Step-IsLost : (x : ℕ) {s t : Users} → Step s t → IsSound s → IsLost x s → IsLost x t
unfolding count
Step-IsLost x (allot s y ys e) v l =
    let t = taken s y ys v.ranges e in ground (arith, t.others x, t.free)
Step-IsLost x (release s y h) v l =
    ground (arith, (give_back_lem s.free y v.ranges).1 x, count-erase y x s.out)

Reach-IsLost : (x : ℕ) {s t : Users} → Reach s t → IsSound s → IsLost x s → IsLost x t
Reach-IsLost x here v l = l
Reach-IsLost x (next r st) v l = Step-IsLost x st (Reach-IsSound r v) (Reach-IsLost x r v l)

-- The id directly behind the first range that is returned while another range follows at a
-- distance is lost: after `idm_return`, and after any further history, it is neither free nor out.
pub give_back-IsLost :
    (s : Users) (x : ℕ) {t : Users}
    → IsSound s
    → 0 < count x s.out
    → drops s.free x ≡ true
    → Reach (record { free = give_back s.free x; out = erase x s.out }) t
    → IsLost x t
give_back-IsLost s x v h d r =
    let st = release s x h in
    Reach-IsLost x r (Step-IsSound st v)
      (ground (arith, (give_back_lem s.free x v.ranges).1 x, count-erase x x s.out, v.once x))

-- ===== src/Permissions/Fields.antt =====
-- The privilege bits.
use Prim.Native.Nat.{bit_and, bit_or}
use hotwired.Prelude.{
  get_or-set, ℕ, zero, suc, ◌+◌, ◌-◌, ◌*◌, ◌/◌, ◌%◌, ◌^◌, ◌<◌, ◌≡◌, refl, true, false, List, [],
  ◌∷◌, get_or, set, ◌==◌, ==_iff, length, arith, All, if◌then◌else◌, Bool, inl, inr, Bool-cases,
}
use hotwired.Prelude.Bytes.{every, every_lem}
use hotwired.Permissions.{Permissions, IsPermissions, check_field, set_field, unset_field}

abbrev pub bit : ℕ → ℕ → ℕ
bit x k = x / 2 ^ (7 - k) % 2

abbrev sets : ℕ → ℕ → ℕ → Bool
sets j k x = bit (bit_or x (2 ^ (7 - j))) k == (if j == k then 1 else bit x k)

abbrev unsets : ℕ → ℕ → ℕ → Bool
unsets j k x = bit (bit_and x (255 - 2 ^ (7 - j))) k == (if j == k then 0 else bit x k)

sets_table : every 8 (λ j. every 8 (λ k. every 256 (sets j k))) ≡ true
unfolding every
sets_table = refl

unsets_table : every 8 (λ j. every 8 (λ k. every 256 (unsets j k))) ≡ true
unfolding every
unsets_table = refl

-- A test that passes on all bytes, at all pairs of bits.
at_bits :
    (test : ℕ → ℕ → ℕ → Bool) (j k x : ℕ)
    → every 8 (λ j. every 8 (λ k. every 256 (test j k))) ≡ true
    → j < 8
    → k < 8
    → x < 256
    → test j k x ≡ true
at_bits test j k x h hj hk hx =
    every_lem 256 (test j k) x (every_lem 8 _ k (every_lem 8 _ j h hj) hk) hx

pub byte-lt : (p : List ℕ) (i : ℕ) → All (λ b. b < 256) p → get_or p i 0 < 256
byte-lt [] i h = omega arith
byte-lt (b ∷ p) zero h = h.0
byte-lt (b ∷ p) (suc i) h = byte-lt p i h.1

-- One byte is written: bit `field` becomes `v` and the others of the byte stay.
write_byte :
    (p : Permissions) (field other y v : ℕ)
    → field / 8 < length p
    → bit y (other % 8)
      ≡ (if field % 8 == other % 8 then v else bit (get_or p (field / 8) 0) (other % 8))
    → check_field (set p (field / 8) y) other ≡ (if field == other then v else check_field p other)
unfolding check_field
write_byte p field other y v inside h =
    rw (get_or-set p (field / 8) (other / 8) y 0 inside)
      (elim (Bool-cases (field / 8 == other / 8)) [
        | inl e ↦ rw (e, h, (==_iff (field / 8) (other / 8)).0 e) (same_byte e)
        | inr d ↦ rw d (other_byte d)
      ])
  where
    same_byte :
        (field / 8 == other / 8) ≡ true
        → (if field % 8 == other % 8 then v else bit (get_or p (other / 8) 0) (other % 8))
          ≡ (if field == other then v else bit (get_or p (other / 8) 0) (other % 8))
    same_byte e = ground arith

    other_byte :
        (field / 8 == other / 8) ≡ false
        → bit (get_or p (other / 8) 0) (other % 8)
          ≡ (if field == other then v else bit (get_or p (other / 8) 0) (other % 8))
    other_byte d = ground arith

-- After permissions_set_field or permissions_unset_field a field reads as 1 or as 0, and every
-- other field as before.
pub check_field-set_field :
    (p : Permissions) (field other : ℕ)
    → IsPermissions p
    → field < 64
    → (check_field (set_field p field) other ≡ (if field == other then 1 else check_field p other))
      × (check_field (unset_field p field) other
          ≡ (if field == other then 0 else check_field p other))
unfolding set_field unset_field
check_field-set_field p field other v h =
    let x = get_or p (field / 8) 0 in
    let inside : field / 8 < length p = omega (arith, v.size) in
    let small = byte-lt p (field / 8) v.bytes in
    let j = field % 8 in
    let k = other % 8 in
    (
      write_byte p field other _ 1 inside
          ((==_iff _ _).0 (at_bits sets j k x sets_table (omega arith) (omega arith) small)),
      write_byte p field other _ 0 inside
          ((==_iff _ _).0 (at_bits unsets j k x unsets_table (omega arith) (omega arith) small)),
    )

-- The bits of a byte give the byte.
abbrev pub from_bits : ℕ → Bool
from_bits x =
    x
    == bit x 0 * 128
      + bit x 1 * 64
      + bit x 2 * 32
      + bit x 3 * 16
      + bit x 4 * 8
      + bit x 5 * 4
      + bit x 6 * 2
      + bit x 7

pub bits_table : every 256 from_bits ≡ true
unfolding every
bits_table = refl

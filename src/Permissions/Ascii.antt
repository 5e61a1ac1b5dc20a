-- ===== src/Permissions/Ascii.antt =====
-- The form of permissions in the account files.
use hotwired.Prelude.{
  ℕ, ◌/◌, ◌%◌, ◌<◌, ◌≡◌, refl, true, some, [], ◌∷◌, get_or, ◌==◌, ==_iff, length, arith, All, ◌*◌,
  Bool,
}
use mathlib.Core.Path.{ap₂}
use hotwired.Prelude.Bytes.{every, every_lem}
use hotwired.Permissions.{
  Permissions, IsPermissions, digit_value, digits_from, strtol_byte, parse_pairs, create_from_ascii,
  hexbuf, to_ascii,
}

abbrev reads_back : ℕ → Bool
reads_back b = strtol_byte (get_or hexbuf (b / 16 % 16) 0 ∷ get_or hexbuf (b % 16) 0 ∷ []) == b

byte_table : every 256 reads_back ≡ true
unfolding every strtol_byte digits_from digit_value
byte_table = refl

length-to_ascii : (p : Permissions) → length (to_ascii p) ≡ 2 * length p
unfolding to_ascii
length-to_ascii [] = refl
length-to_ascii (b ∷ p) = omega (arith, length-to_ascii p)

parse_pairs-to_ascii : (p : Permissions) → All (λ b. b < 256) p → parse_pairs (to_ascii p) ≡ p
unfolding to_ascii parse_pairs
parse_pairs-to_ascii [] h = refl
parse_pairs-to_ascii (b ∷ p) h =
    ap₂ ◌∷◌ ((==_iff _ b).0 (every_lem 256 reads_back b byte_table h.0))
      (parse_pairs-to_ascii p h.1)

-- The text that permissions_to_ascii writes has 16 characters and is read back by
-- permissions_create_from_ascii as the same permissions.
pub create_from_ascii-to_ascii :
    (p : Permissions)
    → IsPermissions p
    → (length (to_ascii p) ≡ 16) × (create_from_ascii (some (to_ascii p)) ≡ p)
unfolding create_from_ascii
create_from_ascii-to_ascii p v =
    let size : length (to_ascii p) ≡ 16 = omega (arith, length-to_ascii p, v.size) in
    (size, rw size (parse_pairs-to_ascii p v.bytes))

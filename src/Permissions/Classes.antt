-- ===== src/Permissions/Classes.antt =====
-- Who is a superuser and who is a visitor, by their privileges.
use mathlib.Core.Path.{ap₂}
use hotwired.Prelude.{
  ℕ, suc, ◌+◌, ◌*◌, ◌/◌, ◌%◌, ◌<◌, ◌≡◌, ◌↔◌, refl, ap, true, false, ◌&&◌, List, [], ◌∷◌, get_or,
  ◌==◌, ==_iff, length, arith, Bool, ◌||◌, leb, ◌∙◌, sym, replicate,
}
use hotwired.Prelude.Bytes.{every, every_lem}
use hotwired.Permissions.{
  Permissions, IsPermissions, check_field, superuser, is_superuser, is_visitor, same_bytes,
}
use hotwired.Permissions.Fields.{bit, from_bits, bits_table, byte-lt}

same_byte : (x y : ℕ) → x < 256 → y < 256 → ((k : ℕ) → k < 8 → bit x k ≡ bit y k) → x ≡ y
same_byte x y hx hy h =
    let ex = (==_iff _ _).0 (every_lem 256 from_bits x bits_table hx) in
    let ey = (==_iff _ _).0 (every_lem 256 from_bits y bits_table hy) in
    omega (
      arith,
      ex,
      ey,
      h 0 (omega arith),
      h 1 (omega arith),
      h 2 (omega arith),
      h 3 (omega arith),
      h 4 (omega arith),
      h 5 (omega arith),
      h 6 (omega arith),
      h 7 (omega arith),
    )

same_entries :
    (p q : List ℕ)
    → length p ≡ length q
    → ((i : ℕ) → i < length p → get_or p i 0 ≡ get_or q i 0)
    → p ≡ q
same_entries [] [] e h = refl
same_entries [] (y ∷ q) e h = absurd (omega arith)
same_entries (x ∷ p) [] e h = absurd (omega arith)
same_entries (x ∷ p) (y ∷ q) e h =
    ap₂ ◌∷◌ (h 0 (omega arith)) (same_entries p q (omega arith) (λ i l. h (suc i) (omega arith)))

check_field-bit :
    (p : Permissions) (i k : ℕ) → k < 8 → check_field p (i * 8 + k) ≡ bit (get_or p i 0) k
unfolding check_field
check_field-bit p i k h =
    let e : (i * 8 + k) / 8 ≡ i = omega arith in
    let r : (i * 8 + k) % 8 ≡ k = omega arith in ap₂ (λ a b. bit (get_or p a 0) b) e r

-- Permissions with the same fields are the same.
check_field_ext :
    (p q : Permissions)
    → IsPermissions p
    → IsPermissions q
    → ((field : ℕ) → field < 64 → check_field p field ≡ check_field q field)
    → p ≡ q
check_field_ext p q v w h = same_entries p q (omega (arith, v.size, w.size)) (λ i l.
    same_byte (get_or p i 0) (get_or q i 0) (byte-lt p i v.bytes) (byte-lt q i w.bytes) (λ k s.
      sym (check_field-bit p i k s)
      ∙ h (i * 8 + k) (omega (arith, l, s, v.size))
      ∙ check_field-bit q i k s))

same_bytes_sound : (a b : List ℕ) → same_bytes a b ≡ true → a ≡ b
unfolding same_bytes
same_bytes_sound [] [] h = refl
same_bytes_sound (a ∷ r) (b ∷ t) h = ground (arith, same_bytes_sound r t)
same_bytes_sound [] (b ∷ t) h = cc
same_bytes_sound (a ∷ r) [] h = cc

is_visitor_sound : (p : Permissions) → is_visitor p ≡ true → p ≡ replicate (length p) 0
unfolding is_visitor
is_visitor_sound [] h = refl
is_visitor_sound (b ∷ p) h = ground (arith, is_visitor_sound p)

-- The privileges that hlid.h numbers.
abbrev pub is_defined : ℕ → Bool
is_defined field =
    leb field 11 || ((leb 14 field && leb field 17) || (leb 20 field && leb field 40))

abbrev pub flag : Bool → ℕ
flag true = 1
flag false = 0

abbrev super_test : ℕ → Bool
super_test field = check_field superuser field == flag (is_defined field)

super_table : every 64 super_test ≡ true
unfolding every check_field
super_table = refl

abbrev visitor_test : ℕ → Bool
visitor_test field = check_field (replicate 8 0) field == 0

visitor_table : every 64 visitor_test ≡ true
unfolding every check_field
visitor_table = refl

super_fields : (field : ℕ) → field < 64 → check_field superuser field ≡ flag (is_defined field)
super_fields field l = (==_iff _ _).0 (every_lem 64 super_test field super_table l)

no_fields : (field : ℕ) → field < 64 → check_field (replicate 8 0) field ≡ 0
no_fields field l = (==_iff _ _).0 (every_lem 64 visitor_test field visitor_table l)

-- permissions_is_superuser holds of exactly the permissions that have every privilege of hlid.h and
-- no other bit, and permissions_is_visitor of exactly those that have none.
pub is_superuser-is_visitor :
    (p : Permissions)
    → IsPermissions p
    → ((is_superuser p ≡ true)
        ↔ ((field : ℕ) → field < 64 → check_field p field ≡ flag (is_defined field)))
      × ((is_visitor p ≡ true) ↔ ((field : ℕ) → field < 64 → check_field p field ≡ 0))
unfolding is_superuser same_bytes is_visitor
is_superuser-is_visitor p v = (
  (
    λ h field l.
        ap (λ a. check_field a field) (same_bytes_sound p superuser h) ∙ super_fields field l,
    λ h. ap is_superuser (
        check_field_ext p superuser v (record { size = refl; bytes = omega arith })
          (λ field l. h field l ∙ sym (super_fields field l))),
  ),
  (
    λ h field l.
        ap (λ a. check_field a field) (is_visitor_sound p h ∙ ap (λ n. replicate n 0) v.size)
        ∙ no_fields field l,
    λ h. ap is_visitor (
        check_field_ext p (replicate 8 0) v (record { size = refl; bytes = omega arith })
          (λ field l. h field l ∙ sym (no_fields field l))),
  ),
)

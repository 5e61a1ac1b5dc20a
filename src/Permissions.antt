-- ===== src/Permissions.antt =====
-- Permissions.c: the 64 privilege bits of an account, as 8 bytes, and their form in the account
-- files. A text is the list of its bytes before the terminator.
pub mod Fields
pub mod Classes
pub mod Ascii
use Prim.Native.Nat.{bit_and, bit_or}
use hotwired.Prelude.{
  ℕ, zero, suc, ◌+◌, ◌-◌, ◌*◌, ◌/◌, ◌%◌, ◌^◌, ◌<◌, ◌≡◌, Bool, true, false, ◌&&◌, ◌||◌, Option, none,
  some, List, [], ◌∷◌, ◌++◌, length, get_or, set, replicate, take, ltb, leb, ◌==◌, if◌then◌else◌,
  All,
}

abbrev pub Permissions : Type 0
Permissions = List ℕ

pub record IsPermissions (p : Permissions) : Type 0 where
  pub size : length p ≡ 8
  pub bytes : All (λ b. b < 256) p

-- A character as a hexadecimal digit.
unfoldable pub digit_value : ℕ → Option ℕ
digit_value c =
    if leb b'0' c && leb c b'9'
    then some (c - b'0')
    else if leb b'A' c && leb c b'F'
    then some (c - b'A' + 10)
    else if leb b'a' c && leb c b'f'
    then some (c - b'a' + 10)
    else none

unfoldable pub digits_from : ℕ → List ℕ → ℕ
digits_from v [] = v
digits_from v (c ∷ s) = elim (digit_value c) [ none ↦ v | some d ↦ digits_from (v * 16 + d) s ]

abbrev pub is_space : ℕ → Bool
is_space c = c == 32 || (leb 9 c && leb c 13)

-- `(uint8_t)strtol(s, NULL, 16)` of a text of at most two characters: spaces, a sign and digits. A
-- prefix `0x` has no digit behind it then, and reads as 0.
unfoldable pub strtol_byte : List ℕ → ℕ
strtol_byte [] = 0
strtol_byte (c ∷ s) =
    let skipped = strtol_byte s in
    if is_space c
    then skipped
    else if c == b'-'
    then (256 - digits_from 0 s % 256) % 256
    else if c == b'+'
    then digits_from 0 s % 256
    else digits_from 0 (c ∷ s) % 256

-- The loop of `permissions_create_from_ascii`: two characters for each byte.
unfoldable pub parse_pairs : List ℕ → Permissions
parse_pairs [] = []
parse_pairs (c ∷ []) = []
parse_pairs (c ∷ d ∷ s) = strtol_byte (c ∷ d ∷ []) ∷ parse_pairs s

-- `none` is a NULL pointer.
unfoldable pub create_from_ascii : Option (List ℕ) → Permissions
create_from_ascii none = replicate 8 0
create_from_ascii (some permbuf) =
    if length permbuf == 16 then parse_pairs permbuf else replicate 8 0

-- From the memory behind the pointer.
unfoldable pub create_from_binary : List ℕ → Permissions
create_from_binary permbuf = take 8 permbuf

unfoldable pub copy : Permissions → Permissions
copy p = take 8 p

abbrev pub hexbuf : List ℕ
hexbuf =
    b'0' ∷ b'1' ∷ b'2' ∷ b'3' ∷ b'4' ∷ b'5' ∷ b'6' ∷ b'7' ∷ b'8' ∷ b'9' ∷ b'A' ∷ b'B' ∷ b'C' ∷ b'D'
    ∷ b'E' ∷ b'F' ∷ []

unfoldable pub to_ascii : Permissions → List ℕ
to_ascii [] = []
to_ascii (b ∷ p) = get_or hexbuf (b / 16 % 16) 0 ∷ get_or hexbuf (b % 16) 0 ∷ to_ascii p

-- The fields are those of hlid.h, from 0 to 40.
unfoldable pub check_field : Permissions → ℕ → ℕ
check_field p field = get_or p (field / 8) 0 / 2 ^ (7 - field % 8) % 2

unfoldable pub set_field : Permissions → ℕ → Permissions
set_field p field = set p (field / 8) (bit_or (get_or p (field / 8) 0) (2 ^ (7 - field % 8)))

-- `~` on a byte.
unfoldable pub unset_field : Permissions → ℕ → Permissions
unset_field p field =
    set p (field / 8) (bit_and (get_or p (field / 8) 0) (255 - 2 ^ (7 - field % 8)))

-- `!memcmp`, on 8 bytes.
unfoldable pub same_bytes : List ℕ → List ℕ → Bool
same_bytes [] [] = true
same_bytes (a ∷ r) (b ∷ t) = a == b && same_bytes r t
same_bytes [] (b ∷ t) = false
same_bytes (a ∷ r) [] = false

abbrev pub superuser : Permissions
superuser = 255 ∷ 243 ∷ 207 ∷ 255 ∷ 255 ∷ 128 ∷ 0 ∷ 0 ∷ []

unfoldable pub is_superuser : Permissions → Bool
is_superuser p = same_bytes p superuser

abbrev pub disconnect_users : ℕ
disconnect_users = 22

unfoldable pub is_operator : Permissions → ℕ
is_operator p = check_field p disconnect_users

unfoldable pub is_visitor : Permissions → Bool
is_visitor [] = true
is_visitor (b ∷ p) = b == 0 && is_visitor p

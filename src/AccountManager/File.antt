-- ===== src/AccountManager/File.antt =====
-- The file hlpasswd: what am_commit writes and am_init reads.
use hotwired.AccountManager.{Account, or_empty, write_account, or_null, parse_line, real_name}
use hotwired.HashTable.{text_key}
use hotwired.Permissions.{Permissions, IsPermissions, to_ascii, hexbuf}
use hotwired.Prelude.Bytes.{every, every_lem}
use hotwired.Prelude.Texts.{contains, strchr-append, contains-append}
use hotwired.Prelude.{
  ℕ, ◌+◌, ◌/◌, ◌%◌, ◌≤◌, ◌<◌, ◌≡◌, refl, sym, ap, ◌∙◌, Bool, true, false, some, List, [], ◌∷◌, ◌++◌,
  length, get_or, ◌==◌, All, arith, if◌then◌else◌,
}
use mathlib.Core.List.{append_assoc}

-- Neither a terminator nor the end of a line nor a colon.
abbrev pub IsPlain : List ℕ → Type 0
IsPlain s = (contains 0 s ≡ false) × (contains b'\n' s ≡ false) × (contains b':' s ≡ false)

-- The digits of a byte are none of these.
abbrev lacks : ℕ → ℕ → Bool
lacks c b =
    if contains c (get_or hexbuf (b / 16 % 16) 0 ∷ get_or hexbuf (b % 16) 0 ∷ [])
    then false
    else true

to_ascii-lacks :
    (c : ℕ)
    → every 256 (lacks c) ≡ true
    → (p : Permissions) → All (λ b. b < 256) p
    → contains c (to_ascii p) ≡ false
unfolding to_ascii contains
to_ascii-lacks c table [] h = refl
to_ascii-lacks c table (b ∷ p) h =
    ground (arith, every_lem 256 (lacks c) b table h.0, to_ascii-lacks c table p h.1)

pub to_ascii-IsPlain : (p : Permissions) → All (λ b. b < 256) p → IsPlain (to_ascii p)
unfolding every contains
to_ascii-IsPlain p h =
    (to_ascii-lacks 0 refl p h, to_ascii-lacks b'\n' refl p h, to_ascii-lacks b':' refl p h)

-- An account whose line can be read: its texts have no character that the format uses, and the
-- line fits in the buffer.
pub record IsStorable (a : Account) : Type 0 where
  pub some_name : 0 < length a.username
  pub name : IsPlain a.username
  pub secret : IsPlain (or_empty a.password)
  pub secret_form : or_null (or_empty a.password) ≡ a.password
  pub real : List ℕ
  pub real_name_of : a.realname ≡ some real
  pub real_text : (contains 0 real ≡ false) × (contains b'\n' real ≡ false)
  pub permissions : IsPermissions a.perms
  pub fits :
      length a.username + length (or_empty a.password) + length (to_ascii a.perms) + length real
      ≤ 251

-- The line of an account up to its end.
abbrev pub text_of : Account → List ℕ → List ℕ
text_of a real =
    a.username ++ b':' ∷ (or_empty a.password ++ b':' ∷ (to_ascii a.perms ++ b':' ∷ real))

pub text_of-ended :
    (a : Account) (real : List ℕ)
    → text_of a real ++ b'\n' ∷ []
      ≡ a.username
        ++ b':' ∷ (or_empty a.password ++ b':' ∷ (to_ascii a.perms ++ b':' ∷ (real ++ b'\n' ∷ [])))
text_of-ended a real =
    let digits = to_ascii a.perms ++ b':' ∷ real in
    append_assoc a.username (b':' ∷ (or_empty a.password ++ b':' ∷ digits)) (b'\n' ∷ [])
    ∙ ap (λ x. a.username ++ b':' ∷ x)
        (append_assoc (or_empty a.password) (b':' ∷ digits) (b'\n' ∷ [])
          ∙ ap (λ x. or_empty a.password ++ b':' ∷ x)
              (append_assoc (to_ascii a.perms) (b':' ∷ real) (b'\n' ∷ [])))

pub write_account-text_of :
    (a : Account) (real : List ℕ)
    → a.realname ≡ some real
    → write_account a ≡ some (text_of a real ++ b'\n' ∷ [])
unfolding write_account
write_account-text_of a real e = rw (e, write_account) (ap some (sym (text_of-ended a real)))

-- A character that is in none of the texts is not in the line.
pub text_of-lacks :
    (a : Account) (real : List ℕ) (c : ℕ)
    → (c == b':') ≡ false
    → contains c a.username ≡ false
    → contains c (or_empty a.password) ≡ false
    → contains c (to_ascii a.perms) ≡ false
    → contains c real ≡ false
    → contains c (text_of a real) ≡ false
unfolding contains
text_of-lacks a real c h u p d r =
    let tail = b':' ∷ (to_ascii a.perms ++ b':' ∷ real) in
    rw
      (
        contains-append c a.username (b':' ∷ (or_empty a.password ++ tail)),
        contains-append c (or_empty a.password) tail,
        contains-append c (to_ascii a.perms) (b':' ∷ real),
        u,
        p,
        d,
        r,
      )
      (ground arith)

pub parse_line-parts :
    (u p d r : List ℕ)
    → 0 < length u
    → contains b':' u ≡ false
    → contains b':' p ≡ false
    → contains b':' d ≡ false
    → contains b'\n' r ≡ false
    → parse_line (u ++ b':' ∷ (p ++ b':' ∷ (d ++ b':' ∷ (r ++ b'\n' ∷ []))))
      ≡ some (record { username = u; realname = some r; password = or_null p; permissions = d })
unfolding parse_line contains
parse_line-parts [] p d r some_name hu hp hd hr = absurd (omega arith)
parse_line-parts (c ∷ u) p d r some_name hu hp hd hr =
    let first : (c == b':') ≡ false = ground arith in
    rw
      (
        first,
        strchr-append (c ∷ u) (p ++ b':' ∷ (d ++ b':' ∷ (r ++ b'\n' ∷ []))) b':' hu,
        strchr-append p (d ++ b':' ∷ (r ++ b'\n' ∷ [])) b':' hp,
        strchr-append d (r ++ b'\n' ∷ []) b':' hd,
        parse_line,
      )
      (ap
        (λ o.
          some (record { username = c ∷ u; realname = o; password = or_null p; permissions = d }))
        (ended r hr))
  where
    ended : (r : List ℕ) → contains b'\n' r ≡ false → real_name (r ++ b'\n' ∷ []) ≡ some r
    ended [] h = rw (strchr-append [] [] b'\n' h) refl
    ended (x ∷ r) h = rw (strchr-append (x ∷ r) [] b'\n' h) refl

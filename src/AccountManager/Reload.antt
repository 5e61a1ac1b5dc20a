-- ===== src/AccountManager/Reload.antt =====
-- am_init behind am_commit: reading the file that was written.
use hotwired.AccountManager.Changes.{enter, add_account_with_permissions-enter}
use hotwired.AccountManager.File.{
  IsStorable, text_of, write_account-text_of, text_of-lacks, text_of-ended, parse_line-parts,
  to_ascii-IsPlain,
}
use hotwired.AccountManager.Roster.{
  roster, named, find_account, IsConsistent, pointer_of, named-append, flag,
}
use hotwired.AccountManager.{
  Account, account_create, AccountManager, add_account, or_empty, write_accounts, commit, or_null,
  parse_line, process_hlpasswd, process_lines, emptied, init, loaded, unless_empty,
}
use hotwired.Collection.Operations.{create-IsWellFormed}
use hotwired.HashTable
use hotwired.HashTable.{text_key}
use hotwired.Permissions
use hotwired.Permissions.{Permissions, IsPermissions, to_ascii, create_from_ascii, hexbuf}
use hotwired.Permissions.Ascii.{create_from_ascii-to_ascii}
use hotwired.Prelude.Texts.{
  contains, text_at, lines_from, contains-append, text_at-whole, lines_from-line,
}
use hotwired.Prelude.{
  ℕ, suc, ◌≤◌, ◌<◌, ◌≡◌, refl, sym, ap, ◌∙◌, true, none, some, List, [], ◌∷◌, ◌++◌, map, length,
  length-append, take, take-all, All, arith,
}
use mathlib.Core.List.{append_assoc, append-nil}
use mathlib.Core.Path.{subst}

-- No account of the name is found where none is counted.
find_account-none : (u : List ℕ) (l : List Account) → named u l ≡ 0 → find_account u l ≡ none
unfolding named find_account
find_account-none u [] h = refl
find_account-none u (a ∷ l) h = ground (arith, find_account-none u l)

named_self : (a : Account) (l : List Account) → named a.username (a ∷ l) ≡ suc (named a.username l)
unfolding named
named_self a l = omega (arith, ap flag ((text_key.same_iff a.username a.username).1 refl))

-- The parsed line makes the account that was written.
account_create-same :
    (a : Account)
    → (v : IsStorable a)
    → account_create a.username
        (some v.real)
        (or_null (or_empty a.password))
        (create_from_ascii (some (to_ascii a.perms)))
      ≡ a
unfolding account_create Permissions.copy
account_create-same a v =
    let perms : take 8 (create_from_ascii (some (to_ascii a.perms))) ≡ a.perms =
      ap (take 8) (create_from_ascii-to_ascii a.perms v.permissions).1
      ∙ subst (λ n. take n a.perms ≡ a.perms) v.permissions.size (take-all a.perms) in
    rw (v.secret_form, perms) (ap (λ r. record a { realname = r }) (sym v.real_name_of))

-- The line of an account that is not there adds it behind the others.
process_hlpasswd-added :
    (s : AccountManager) (a : Account)
    → IsConsistent s
    → (v : IsStorable a) → named a.username (roster s) ≡ 0
    → let r = process_hlpasswd s (text_of a v.real ++ b'\n' ∷ []) in
      IsConsistent r × (roster r ≡ roster s ++ a ∷ [])
unfolding process_hlpasswd add_account enter roster contains
process_hlpasswd-added s a c v free =
    let (ok, entered) =
      add_account_with_permissions-enter s a.username (some v.real) (or_null (or_empty a.password))
        (create_from_ascii (some (to_ascii a.perms))) c in
    rw (whole, parsed)
      (
        ok,
        ap (λ r. r.0) (entered ∙ ap (λ b. enter b (roster s)) (account_create-same a v) ∙ at_end),
      )
  where
    at_end : enter a (roster s) ≡ (roster s ++ a ∷ [], true)
    at_end = rw (find_account-none a.username (roster s) free, enter) refl

    line : List ℕ
    line = text_of a v.real

    whole : text_at (line ++ b'\n' ∷ []) ≡ line ++ b'\n' ∷ []
    whole =
        let digits = to_ascii-IsPlain a.perms v.permissions.bytes in
        text_at-whole (line ++ b'\n' ∷ []) (
          contains-append 0 line (b'\n' ∷ [])
          ∙ rw (text_of-lacks a v.real 0 refl v.name.0 v.secret.0 digits.0 v.real_text.0, contains)
              refl)

    parsed :
        parse_line (line ++ b'\n' ∷ [])
        ≡ some (record {
          username = a.username;
          realname = some v.real;
          password = or_null (or_empty a.password);
          permissions = to_ascii a.perms;
        })
    parsed =
        ap parse_line (text_of-ended a v.real)
        ∙ parse_line-parts a.username (or_empty a.password) (to_ascii a.perms) v.real v.some_name
            v.name.2 v.secret.2 (to_ascii-IsPlain a.perms v.permissions.bytes).2 v.real_text.1

text_of-fits : (a : Account) → (v : IsStorable a) → length (text_of a v.real) ≤ 254
text_of-fits a v =
    let digits = to_ascii a.perms ++ b':' ∷ v.real in
    omega (
      arith,
      length-append a.username (b':' ∷ (or_empty a.password ++ b':' ∷ digits)),
      length-append (or_empty a.password) (b':' ∷ digits),
      length-append (to_ascii a.perms) (b':' ∷ v.real),
      v.fits,
    )

-- What is left to enter when the first account is entered.
named-rest :
    (old new : AccountManager) (a : Account) (l : List Account)
    → roster new ≡ roster old ++ a ∷ []
    → roster old ++ a ∷ l ≡ roster new ++ l
named-rest old new a l e = sym (append_assoc (roster old) (a ∷ []) l) ∙ ap (λ k. k ++ l) (sym e)

-- The file of storable accounts, and what the loop of am_init makes of it.
pub process_lines-write_accounts :
    (s : AccountManager) (l : List Account)
    → IsConsistent s
    → All IsStorable l
    → ((u : List ℕ) → named u (roster s ++ l) ≤ 1)
    → (file : List ℕ) × (write_accounts l ≡ some file)
      × IsConsistent (process_lines s (lines_from 254 254 [] file))
      × (roster (process_lines s (lines_from 254 254 [] file)) ≡ roster s ++ l)
unfolding write_accounts process_lines lines_from
process_lines-write_accounts s [] c v once = ([], refl, c, sym (append-nil (roster s)))
process_lines-write_accounts s (a ∷ l) c v once =
    let line = text_of a v.0.real in
    let free : named a.username (roster s) ≡ 0 =
      omega (arith, once a.username, named-append a.username (roster s) (a ∷ l), named_self a l) in
    let (c1, r1) = process_hlpasswd-added s a c v.0 free in
    let s1 = process_hlpasswd s (line ++ b'\n' ∷ []) in
    let moved = named-rest s s1 a l r1 in
    let (file, wrote, c2, r2) =
      process_lines-write_accounts s1 l c1 v.1 (λ u. subst (λ k. named u k ≤ 1) moved (once u)) in
    let one_line =
      text_of-lacks a v.0.real b'\n' refl v.0.name.1 v.0.secret.1
        (to_ascii-IsPlain a.perms v.0.permissions.bytes).1 v.0.real_text.1 in
    let pieces : lines_from 254 254 [] ((line ++ b'\n' ∷ []) ++ file)
        ≡ (line ++ b'\n' ∷ []) ∷ lines_from 254 254 [] file =
      ap (lines_from 254 254 []) (append_assoc line (b'\n' ∷ []) file)
      ∙ lines_from-line 254 254 [] line file one_line (text_of-fits a v.0) in
    (
      (line ++ b'\n' ∷ []) ++ file,
      rw (write_account-text_of a v.0.real v.0.real_name_of, wrote) refl,
      rw pieces c2,
      rw pieces (r2 ∙ sym moved),
    )

-- The manager behind `am_destroy_structures`.
pub emptied-IsConsistent :
    (s : AccountManager) → IsConsistent (emptied s) × (roster (emptied s) ≡ [])
unfolding emptied roster pointer_of named HashTable.create
emptied-IsConsistent s =
    let (table, size, free) = create-IsWellFormed {V = ℕ} in
    (record { table = table; same = λ u. free u; once = λ u. omega arith; below = tt }, refl)

loaded-some : (s : AccountManager) → 0 < length (roster s) → loaded s ≡ s
unfolding roster
loaded-some s h = go s.accounts h
  where
    go : (l : List ℕ) → 0 < length (map s.heap l) → unless_empty s l ≡ s
    go [] h = absurd (omega arith)
    go (p ∷ l) h = refl

-- Where the table and the list hold the same accounts, which are one or more, and each has a user
-- name, no password or a password that is not empty, a real name, permissions of 8 bytes, no
-- terminator, end of line or (but in the real name) colon in these texts, and a line of at most 255
-- bytes, am_commit writes a file from which am_init, in any former state, makes the same accounts in
-- the same order, with the table and the list holding the same.
pub init-commit :
    (s old : AccountManager)
    → IsConsistent s
    → All IsStorable (roster s)
    → 0 < length (roster s)
    → (file : List ℕ) × (commit s ≡ some file)
      × IsConsistent (init old (some file))
      × (roster (init old (some file)) ≡ roster s)
unfolding commit init roster
init-commit s old c v some_there =
    let (fresh, none_yet) = emptied-IsConsistent old in
    let all : roster (emptied old) ++ roster s ≡ roster s = ap (λ l. l ++ roster s) none_yet in
    let (file, wrote, ok, same) =
      process_lines-write_accounts (emptied old) (roster s) fresh v
        (λ u. subst (λ l. named u l ≤ 1) (sym all) (c.once u)) in
    let read = process_lines (emptied old) (lines_from 254 254 [] file) in
    let kept = loaded-some read (subst (λ l. 0 < length l) (sym (same ∙ all)) some_there) in
    (file, wrote, rw kept ok, rw kept (same ∙ all))

-- ===== src/AccountManager.antt =====
-- Account.c and AccountManager.c: the accounts, in a hash table by user name and in a list in the
-- order in which they were added, and the file hlpasswd. Both hold pointers to the same structures,
-- so that the structures lie in a store by address. The functions are the bodies between the locks.
pub mod Roster
pub mod Unlink
pub mod Amend
pub mod Changes
pub mod Deletion
pub mod Listing
pub mod File
pub mod Reload
use hotwired.Collection
use hotwired.HashTable
use hotwired.HashTable.{HashTable, text_key}
use hotwired.Permissions
use hotwired.Permissions.{Permissions}
use hotwired.Prelude.Bytes.{be16}
use hotwired.Prelude.Texts.{codes, text_at, strchr, lines_from}
use hotwired.Prelude.{
  ℕ, zero, suc, ◌+◌, ◌%◌, ◌^◌, Bool, true, false, Option, none, some, List, [], ◌∷◌, ◌++◌, map,
  length, ◌==◌, if◌then◌else◌,
}
use hotwired.Transaction.Objects.{mask}
use hotwired.Transaction.{TransactionIn, TransactionOut, reply_create, add_object}

pub record Account : Type 0 where
  pub username : List ℕ
  pub realname : Option (List ℕ)
  pub password : Option (List ℕ)
  pub perms : Permissions

unfoldable pub account_create : List ℕ → Option (List ℕ) → Option (List ℕ) → Permissions → Account
account_create username realname password permissions = record {
  username = username;
  realname = realname;
  password = password;
  perms = Permissions.copy permissions;
}

-- `accounts` are the pointers of the list from `am_head` on; `fresh` is the address that is
-- allocated next, and above it nothing is allocated.
pub record AccountManager : Type 0 where
  pub account_table : HashTable ℕ
  pub accounts : List ℕ
  pub heap : ℕ → Account
  pub fresh : ℕ

abbrev pub update {ℓ} : {A : Type ℓ} → (ℕ → A) → ℕ → A → ℕ → A
update f p a q = if q == p then a else f q

-- `true` is 0, and `false` is -1.
unfoldable pub add_account_with_permissions :
    AccountManager
    → Option (List ℕ)
    → Option (List ℕ)
    → Option (List ℕ)
    → Permissions
    → AccountManager × Bool
add_account_with_permissions s none realname password permissions = (s, false)
add_account_with_permissions s (some username) realname password permissions =
    let a = account_create username realname password permissions in
    let r = HashTable.insert s.account_table username s.fresh in
    if r.1
    then (
      record s {
        account_table = r.0;
        accounts = s.accounts ++ s.fresh ∷ [];
        heap = update s.heap s.fresh a;
        fresh = s.fresh + 1;
      },
      true,
    )
    else (record s { account_table = r.0 }, false)

-- The function ends with no `return`, so that it has no answer.
unfoldable pub add_account :
    AccountManager
    → Option (List ℕ)
    → Option (List ℕ)
    → Option (List ℕ)
    → Option (List ℕ)
    → AccountManager
add_account s username realname password permissions =
    (add_account_with_permissions s username realname password
      (Permissions.create_from_ascii permissions)).0

-- The node of a pointer leaves the list.
unfoldable pub unlink : ℕ → List ℕ → List ℕ
unlink a [] = []
unlink a (n ∷ l) = if n == a then l else n ∷ unlink a l

unfoldable pub del_account : AccountManager → List ℕ → AccountManager × Bool
del_account s username =
    let r = HashTable.remove s.account_table username in
    elim r.1 [
      | none ↦ (record s { account_table = r.0 }, false)
      | some a ↦ (record s { account_table = r.0; accounts = unlink a s.accounts }, true)
    ]

-- The pointer, or NULL.
unfoldable pub lookup_account : AccountManager → List ℕ → AccountManager × Option ℕ
lookup_account s username =
    let r = HashTable.lookup s.account_table username in (record s { account_table = r.0 }, r.1)

abbrev pub or_empty : Option (List ℕ) → List ℕ
or_empty none = []
or_empty (some text) = text

-- `write_account`: the line, or `none` where the real name is NULL, which `%s` cannot print.
unfoldable pub write_account : Account → Option (List ℕ)
write_account a = elim a.realname [
  | none ↦ none
  | some realname ↦ some (
      a.username
      ++ b':'
        ∷ (or_empty a.password
            ++ b':' ∷ (Permissions.to_ascii a.perms ++ b':' ∷ (realname ++ b'\n' ∷ []))))
]

abbrev pub joined : Option (List ℕ) → Option (List ℕ) → Option (List ℕ)
joined (some line) (some rest) = some (line ++ rest)
joined none rest = none
joined (some line) none = none

-- The loop of `am_commit`.
unfoldable pub write_accounts : List Account → Option (List ℕ)
write_accounts [] = some []
write_accounts (a ∷ l) = joined (write_account a) (write_accounts l)

-- The file as it is written.
unfoldable pub commit : AccountManager → Option (List ℕ)
commit s = write_accounts (map s.heap s.accounts)

pub record Entry : Type 0 where
  pub username : List ℕ
  pub realname : Option (List ℕ)
  pub password : Option (List ℕ)
  pub permissions : List ℕ

abbrev pub or_null : List ℕ → Option (List ℕ)
or_null [] = none
or_null (c ∷ s) = some (c ∷ s)

abbrev pub without_end : Option (List ℕ × List ℕ) → List ℕ → List ℕ
without_end none s = s
without_end (some (before, behind)) s = before

abbrev pub real_name : List ℕ → Option (List ℕ)
real_name [] = none
real_name (c ∷ s) = some (without_end (strchr (c ∷ s) b'\n') (c ∷ s))

abbrev pub parse_realname : List ℕ → List ℕ → Option (List ℕ × List ℕ) → Option Entry
parse_realname username password none = none
parse_realname username password (some (permissions, realname)) = some (record {
  username = username;
  realname = real_name realname;
  password = or_null password;
  permissions = permissions;
})

abbrev pub parse_permissions : List ℕ → Option (List ℕ × List ℕ) → Option Entry
parse_permissions username none = none
parse_permissions username (some (password, behind)) =
    parse_realname username password (strchr behind b':')

abbrev pub parse_password : Option (List ℕ × List ℕ) → Option Entry
parse_password none = none
parse_password (some (username, behind)) = parse_permissions username (strchr behind b':')

-- What `process_hlpasswd` makes of a line.
unfoldable pub parse_line : List ℕ → Option Entry
parse_line [] = none
parse_line (c ∷ s) = if c == b':' then none else parse_password (strchr (c ∷ s) b':')

abbrev pub add_entry : AccountManager → Option Entry → AccountManager
add_entry s none = s
add_entry s (some e) = add_account s (some e.username) e.realname e.password (some e.permissions)

unfoldable pub process_hlpasswd : AccountManager → List ℕ → AccountManager
process_hlpasswd s line = add_entry s (parse_line (text_at line))

-- The loop of `am_init`.
unfoldable pub process_lines : AccountManager → List (List ℕ) → AccountManager
process_lines s [] = s
process_lines s (line ∷ l) = process_lines (process_hlpasswd s line) l

-- `am_destroy_structures` and what follows it; the store keeps what is no longer reached.
unfoldable pub emptied : AccountManager → AccountManager
emptied s = record s { account_table = HashTable.create; accounts = [] }

unfoldable pub fall_back : AccountManager → AccountManager
fall_back s =
    add_account s (some (codes "admin")) (some (codes "Administrator")) none
      (some (codes "FFF3CFFFFF800000"))

abbrev pub unless_empty : AccountManager → List ℕ → AccountManager
unless_empty s [] = fall_back s
unless_empty s (p ∷ l) = s

abbrev pub loaded : AccountManager → AccountManager
loaded s = unless_empty s s.accounts

-- `am_init`, with the file, or `none` where it cannot be opened. The buffer has 256 bytes.
unfoldable pub init : AccountManager → Option (List ℕ) → AccountManager
init s none = fall_back (emptied s)
init s (some file) = loaded (process_lines (emptied s) (lines_from 254 254 [] file))

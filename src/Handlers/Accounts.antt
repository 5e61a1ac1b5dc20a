-- ===== src/Handlers/Accounts.antt =====
-- The handlers that read and change single accounts. `encrypt` is `password_encrypt`, with the
-- random numbers that it takes.
use hotwired.AccountManager.{
  Account, AccountManager, update, lookup_account, add_account_with_permissions, del_account,
  commit,
}
use hotwired.AccountManager.Listing.{build_userlist}
use hotwired.ConnectionManager.{perm_check}
use hotwired.Handlers.{Server, saved, Outcome, emit, send, reply_success, reply_error, guarded}
use hotwired.Handlers.Login.{string_of, masked_string_of}
use hotwired.Permissions
use hotwired.Permissions.{Permissions}
use hotwired.Prelude.{
  ℕ, Bool, true, false, Option, none, some, List, [], ◌∷◌, ◌++◌, take, ◌==◌, if◌then◌else◌,
}
use hotwired.Prelude.Texts.{codes}
use hotwired.Transaction.{TransactionIn, TransactionOut, reply_create, add_object, add_string}
use hotwired.Transaction.Objects.{
  object_index, object_at, object_data, object_permissions, add_masked_string,
}

abbrev pub Encrypt : Type 0
Encrypt = List ℕ → Option (List ℕ)

-- `am_commit` and `reply_success`.
unfoldable pub commit_reply : Server → ℕ → TransactionIn → Outcome
commit_reply s uid t = some (reply_success (emit s (saved (commit s.accounts))) uid t, true)

abbrev no_username : Server → ℕ → TransactionIn → Outcome
no_username s uid t = some (reply_error s uid t (codes "Error: No username specified."), true)

abbrev no_such_user : List ℕ → List ℕ
no_such_user username = codes "Error: No such user: '" ++ username ++ codes "'"

abbrev with_realname : TransactionOut → Option (List ℕ) → TransactionOut
with_realname reply none = reply
with_realname reply (some realname) = add_string reply 102 realname

unfoldable pub account_reply : TransactionIn → Account → TransactionOut
account_reply t a =
    let named = add_masked_string (with_realname (reply_create t 0 4) a.realname) 105 a.username in
    add_object (add_string named 106 (codes "x")) 110 a.perms 8

-- The name in the error has been freed before it is printed: `freed` is what is found there.
abbrev read_found : List ℕ → Server → ℕ → TransactionIn → Option ℕ → Outcome
read_found freed s uid t none = some (reply_error s uid t (no_such_user freed), true)
read_found freed s uid t (some p) = some (send s uid (account_reply t (s.accounts.heap p)), true)

abbrev read_named : List ℕ → Server → ℕ → TransactionIn → Option (List ℕ) → Outcome
read_named freed s uid t none = no_username s uid t
read_named freed s uid t (some username) =
    let found = lookup_account s.accounts username in
    read_found freed (record s { accounts = found.0 }) uid t found.1

-- `cm_perm_check(…) < 0`
abbrev unknown : Option ℕ → Bool
unknown none = true
unknown (some n) = false

unfoldable pub txn_read_account : List ℕ → Server → ℕ → TransactionIn → Outcome
txn_read_account freed s uid t =
    let r = perm_check s.connections uid 16 in
    let asked = record s { connections = r.0 } in
    if unknown r.1
    then some (reply_error asked uid t (codes "Error: You are not allowed to read accounts."), true)
    else read_named freed asked uid t (string_of t (object_index t 105))

abbrev pub default_permissions : Permissions
default_permissions = Permissions.create_from_ascii (some (codes "60700C2003800000"))

-- The permissions of an object of the type HL_PERMISSIONS, which is the id of a transaction; none
-- where its length is not 8.
abbrev pub permissions_or_default : TransactionIn → Option ℕ → Option Permissions
permissions_or_default t none = some default_permissions
permissions_or_default t (some i) = object_permissions (object_at t i)

abbrev pub or_empty_text : Option (List ℕ) → List ℕ
or_empty_text none = []
or_empty_text (some s) = s

abbrev pub encrypted : Encrypt → Option (List ℕ) → Option (List ℕ)
encrypted encrypt none = none
encrypted encrypt (some password) = encrypt password

abbrev pub created : List ℕ → Server → ℕ → TransactionIn → AccountManager × Bool → Outcome
created username s uid t (accounts, true) = commit_reply (record s { accounts = accounts }) uid t
created username s uid t (accounts, false) = some (
  reply_error (record s { accounts = accounts }) uid t
      (codes "Error: The account '" ++ username ++ codes "' already exists."),
  true,
)

abbrev pub create_with :
    Encrypt → List ℕ → Server → ℕ → TransactionIn → Option Permissions → Outcome
create_with encrypt username s uid t none =
    some (reply_error s uid t (codes "Error: Permissions format is invalid."), true)
create_with encrypt username s uid t (some permissions) = created username s uid t (
    add_account_with_permissions s.accounts (some username)
      (some (or_empty_text (string_of t (object_index t 102))))
      (encrypted encrypt (masked_string_of t (object_index t 106))) permissions)

abbrev pub create_named : Encrypt → ℕ → TransactionIn → Server → Option (List ℕ) → Outcome
create_named encrypt uid t s none = no_username s uid t
create_named encrypt uid t s (some username) =
    create_with encrypt username s uid t (permissions_or_default t (object_index t 354))

unfoldable pub txn_create_account : Encrypt → Server → ℕ → TransactionIn → Outcome
txn_create_account encrypt s uid t =
    guarded s uid t 14 (codes "Error: You are not allowed to create accounts.")
      (λ asked. create_named encrypt uid t asked (masked_string_of t (object_index t 105)))

-- The password of a modified account: the text of the one byte 255 stands for the old one.
abbrev new_password : Encrypt → Option (List ℕ) → Option (List ℕ) → Option (List ℕ)
new_password encrypt old none = none
new_password encrypt old (some []) = encrypt []
new_password encrypt old (some (c ∷ [])) = if c == 255 then old else encrypt (c ∷ [])
new_password encrypt old (some (c ∷ d ∷ s)) = encrypt (c ∷ d ∷ s)

abbrev new_realname : Option (List ℕ) → Option (List ℕ) → Option (List ℕ)
new_realname old none = old
new_realname old (some realname) = some realname

-- `memcpy` of 8 bytes, whatever the length of the object: `behind` is the memory behind it.
abbrev new_permissions : List ℕ → TransactionIn → Permissions → Option ℕ → Permissions
new_permissions behind t old none = old
new_permissions behind t old (some i) = take 8 (object_data t i ++ behind)

unfoldable pub modified : Encrypt → List ℕ → TransactionIn → Account → Account
modified encrypt behind t a = record a {
  password = new_password encrypt a.password (masked_string_of t (object_index t 106));
  realname = new_realname a.realname (string_of t (object_index t 102));
  perms = new_permissions behind t a.perms (object_index t 110);
}

unfoldable pub modify_account :
    Encrypt → List ℕ → TransactionIn → AccountManager → ℕ → AccountManager
modify_account encrypt behind t s p = record s {
  heap = update s.heap p (modified encrypt behind t (s.heap p));
}

abbrev pub modify_found :
    Encrypt → List ℕ → List ℕ → Server → ℕ → TransactionIn → Option ℕ → Outcome
modify_found encrypt behind username s uid t none =
    some (reply_error s uid t (no_such_user username), true)
modify_found encrypt behind username s uid t (some p) =
    commit_reply (record s { accounts = modify_account encrypt behind t s.accounts p }) uid t

abbrev pub modify_named : Encrypt → List ℕ → ℕ → TransactionIn → Server → Option (List ℕ) → Outcome
modify_named encrypt behind uid t s none =
    some (reply_error s uid t (codes "Error: No account name specified."), true)
modify_named encrypt behind uid t s (some username) =
    let found = lookup_account s.accounts username in
    modify_found encrypt behind username (record s { accounts = found.0 }) uid t found.1

unfoldable pub txn_modify_account : Encrypt → List ℕ → Server → ℕ → TransactionIn → Outcome
txn_modify_account encrypt behind s uid t =
    guarded s uid t 17 (codes "Error: You are not allowed to modify accounts.")
      (λ asked. modify_named encrypt behind uid t asked (masked_string_of t (object_index t 105)))

-- The format has a `%s` for which nothing is passed: `unset` is what is printed there.
abbrev pub deleted : List ℕ → Server → ℕ → TransactionIn → AccountManager × Bool → Outcome
deleted unset s uid t (accounts, true) = commit_reply (record s { accounts = accounts }) uid t
deleted unset s uid t (accounts, false) =
    some (reply_error (record s { accounts = accounts }) uid t (no_such_user unset), true)

abbrev pub delete_named : List ℕ → ℕ → TransactionIn → Server → Option (List ℕ) → Outcome
delete_named unset uid t s none = no_username s uid t
delete_named unset uid t s (some username) = deleted unset s uid t (del_account s.accounts username)

unfoldable pub txn_delete_account : List ℕ → Server → ℕ → TransactionIn → Outcome
txn_delete_account unset s uid t =
    guarded s uid t 15 (codes "Error: You are not allowed to delete accounts.")
      (λ asked. delete_named unset uid t asked (masked_string_of t (object_index t 105)))

-- There is no test of a privilege.
unfoldable pub txn_admin_accounts : Server → ℕ → TransactionIn → Outcome
txn_admin_accounts s uid t = elim (build_userlist s.accounts t) [
  | none ↦ none
  | some reply ↦ some (send s uid reply, true)
]

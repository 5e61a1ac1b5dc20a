-- ===== src/Handlers/Edits.antt =====
-- What an entry of `txn_admin_submit` does to the roster.
use hotwired.AccountManager.Changes.{enter}
use hotwired.AccountManager.Roster.{roster, find_account, strike, IsConsistent}
use hotwired.AccountManager.{Account, account_create, AccountManager}
use hotwired.Handlers.Accounts.{default_permissions, or_empty_text}
use hotwired.Handlers.Submit.{
  Fields, Entered, stuck, failed, failed_locked, entered, or_text, or_permissions, is_null, Parsed,
  fault, malformed, fields,
}
use hotwired.Prelude.{ℕ, ◌≡◌, ◌&&◌, Option, none, some, List, if◌then◌else◌}

-- The account that a new entry describes, and the one that takes the place of `a`.
abbrev pub added_by : Fields → List ℕ → Account
added_by f username =
    account_create username (some (or_empty_text f.realname)) f.password
      (or_permissions f.permissions default_permissions)

abbrev pub replacing : Fields → List ℕ → Account → Account
replacing f username a =
    account_create username (or_text f.realname a.realname)
      (if f.null_password then f.password else or_text f.password a.password)
      (or_permissions f.permissions a.perms)

abbrev edit_found : Fields → List ℕ → List ℕ → List Account → Option Account → Option (List Account)
edit_found f source username l none = none
edit_found f source username l (some a) = some (enter (replacing f username a) (strike source l)).0

abbrev edit_named : Fields → List ℕ → List Account → Option (List ℕ) → Option (List Account)
edit_named f source l none = none
edit_named f source l (some username) = edit_found f source username l (find_account source l)

abbrev edit_new : Fields → List Account → Option (List ℕ) → Option (List Account)
edit_new f l none = none
edit_new f l (some username) = some (enter (added_by f username) l).0

abbrev edit_source : Fields → List Account → Option (List ℕ) → Option (List Account)
edit_source f l none = edit_new f l f.username
edit_source f l (some source) =
    if is_null f.realname && is_null f.password && is_null f.permissions && is_null f.username
    then some (strike source l)
    else edit_named f source l f.username

-- The accounts that an entry makes of some, or none where it is an error.
abbrev pub edit : Parsed → List Account → Option (List Account)
edit fault l = none
edit malformed l = none
edit (fields f) l = edit_source f l f.source_username

-- The accounts of the specification where the entry is entered, the former ones where it fails.
abbrev pub Edits : List Account → Option (List Account) → Entered → Type 0
Edits l none stuck = Unit
Edits l none (failed r) = IsConsistent r × (roster r ≡ l)
Edits l none (failed_locked r) = IsConsistent r × (roster r ≡ l)
Edits l none (entered r) = ⊥
Edits l (some k) (entered r) = IsConsistent r × (roster r ≡ k)
Edits l (some k) stuck = ⊥
Edits l (some k) (failed r) = ⊥
Edits l (some k) (failed_locked r) = ⊥

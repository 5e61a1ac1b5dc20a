-- ===== src/Handlers/Rosters.antt =====
-- What the handlers of single accounts do to the roster, for a client that may.
use hotwired.AccountManager.Amend.{amend, written-IsConsistent, amend-found, amend-none}
use hotwired.AccountManager.Changes.{
  enter, add_account_with_permissions-enter, lookup_account-pointer_of,
}
use hotwired.AccountManager.Deletion.{del_account-strike}
use hotwired.AccountManager.Roster.{roster, strike, pointer_of, IsConsistent}
use hotwired.AccountManager.{Account, account_create, AccountManager, lookup_account, del_account}
use hotwired.Collection.Keys.{collection_key}
use hotwired.Collection.View.{IsWellFormed, view}
use hotwired.Handlers.Accounts.{
  Encrypt, encrypted, or_empty_text, modified, modify_account, permissions_or_default,
  txn_create_account, txn_modify_account, txn_delete_account, created, create_with, create_named,
  modify_found, modify_named, deleted, delete_named,
}
use hotwired.Handlers.Login.{string_of, masked_string_of}
use hotwired.Handlers.Privileges.{grants}
use hotwired.Handlers.Replies.{Leaves, reply_error-Leaves, commit_reply-Leaves, guarded-granted}
use hotwired.Handlers.{Server}
use hotwired.Permissions.{Permissions}
use hotwired.Prelude.{ℕ, ◌≡◌, refl, sym, ap, ◌∙◌, Bool, true, false, Option, none, some, List}
use hotwired.Transaction.{TransactionIn}
use hotwired.Transaction.Objects.{object_index}

-- The account that a message to create one describes; none where it has no name, or an object of
-- permissions that are not 8 bytes.
abbrev pub described_with : Encrypt → TransactionIn → List ℕ → Option Permissions → Option Account
described_with encrypt t username none = none
described_with encrypt t username (some permissions) = some (
    account_create username (some (or_empty_text (string_of t (object_index t 102))))
      (encrypted encrypt (masked_string_of t (object_index t 106))) permissions)

abbrev pub described_named : Encrypt → TransactionIn → Option (List ℕ) → Option Account
described_named encrypt t none = none
described_named encrypt t (some username) =
    described_with encrypt t username (permissions_or_default t (object_index t 354))

abbrev pub described : Encrypt → TransactionIn → Option Account
described encrypt t = described_named encrypt t (masked_string_of t (object_index t 105))

abbrev pub entered_in : List Account → Option Account → List Account
entered_in l none = l
entered_in l (some a) = (enter a l).0

created-Leaves :
    (username : List ℕ) (s : Server) (uid : ℕ) (t : TransactionIn) (r : AccountManager × Bool)
    (l : List Account)
    → IsConsistent r.0
    → roster r.0 ≡ l
    → Leaves (created username s uid t r) l
created-Leaves username s uid t (a, true) l c e = commit_reply-Leaves _ uid t l c e
created-Leaves username s uid t (a, false) l c e = reply_error-Leaves _ uid t _ l c e

module _ (encrypt : Encrypt) (uid : ℕ) (t : TransactionIn) where
  create_with-Leaves :
      (username : List ℕ) (s : Server) (p : Option Permissions)
      → IsConsistent s.accounts
      → Leaves
          (create_with encrypt username s uid t p)
          (entered_in (roster s.accounts) (described_with encrypt t username p))
  create_with-Leaves username s none c = reply_error-Leaves s uid t _ _ c refl
  create_with-Leaves username s (some permissions) c =
      let (ok, same) =
        add_account_with_permissions-enter s.accounts username
          (some (or_empty_text (string_of t (object_index t 102))))
          (encrypted encrypt (masked_string_of t (object_index t 106))) permissions c in
      created-Leaves username s uid t _ _ ok (ap (λ r. r.0) same)

  create_named-Leaves :
      (s : Server) (username : Option (List ℕ))
      → IsConsistent s.accounts
      → Leaves
          (create_named encrypt uid t s username)
          (entered_in (roster s.accounts) (described_named encrypt t username))
  create_named-Leaves s none c = reply_error-Leaves s uid t _ _ c refl
  create_named-Leaves s (some username) c = create_with-Leaves username s _ c

  -- txn_create_account of a client that has the privilege, from a state in which the table and the list
  -- hold the same accounts, answers 0 and leaves such a state; the account that the message describes
  -- is behind the others, unless its name is taken or the message describes none, where the accounts
  -- are as they were.
  pub txn_create_account-described :
      (s : Server)
      → IsWellFormed s.connections
      → IsConsistent s.accounts
      → grants (view s.connections uid) 14 ≡ true
      → Leaves
          (txn_create_account encrypt s uid t)
          (entered_in (roster s.accounts) (described encrypt t))
  unfolding txn_create_account
  txn_create_account-described s w c h =
      rw (guarded-granted s uid t 14 _ _ w h) (create_named-Leaves _ _ c)

  modify_found-Leaves :
      (behind username : List ℕ) (s : Server) (p : Option ℕ)
      → IsConsistent s.accounts
      → p ≡ pointer_of s.accounts.heap username s.accounts.accounts
      → Leaves
          (modify_found encrypt behind username s uid t p)
          (amend username (modified encrypt behind t) (roster s.accounts))
  unfolding roster modify_account modified
  modify_found-Leaves behind username s none c e = reply_error-Leaves s uid t _ _ c (
      sym (
        amend-none s.accounts.heap username (modified encrypt behind t) s.accounts.accounts
          (sym e)))
  modify_found-Leaves behind username s (some p) c e =
      let f = modified encrypt behind t in
      let (ok, same) =
        written-IsConsistent s.accounts username p (f (s.accounts.heap p)) c (sym e) refl in
      commit_reply-Leaves _ uid t _ ok
        (same ∙ amend-found s.accounts.heap username p f s.accounts.accounts (sym e))

  abbrev pub amended : List ℕ → Option (List ℕ) → List Account → List Account
  amended behind none l = l
  amended behind (some username) l = amend username (modified encrypt behind t) l

  modify_named-Leaves :
      (behind : List ℕ) (s : Server) (username : Option (List ℕ))
      → IsConsistent s.accounts
      → Leaves
          (modify_named encrypt behind uid t s username)
          (amended behind username (roster s.accounts))
  unfolding lookup_account roster
  modify_named-Leaves behind s none c = reply_error-Leaves s uid t _ _ c refl
  modify_named-Leaves behind s (some username) c =
      let (ok, answer) = lookup_account-pointer_of s.accounts username c in
      modify_found-Leaves behind username _ _ ok answer

  -- txn_modify_account of a client that has the privilege, from a state in which the table and the list
  -- hold the same accounts, answers 0 and leaves such a state; the account that the message names has
  -- the password, the real name and the permissions that the message sets, and every other account is
  -- as it was, in the same order, as are all where no account has the name or none is given.
  pub txn_modify_account-amended :
      (behind : List ℕ) (s : Server)
      → IsWellFormed s.connections
      → IsConsistent s.accounts
      → grants (view s.connections uid) 17 ≡ true
      → Leaves
          (txn_modify_account encrypt behind s uid t)
          (amended behind (masked_string_of t (object_index t 105)) (roster s.accounts))
  unfolding txn_modify_account
  txn_modify_account-amended behind s w c h =
      rw (guarded-granted s uid t 17 _ _ w h) (modify_named-Leaves behind _ _ c)

module _ (unset : List ℕ) (uid : ℕ) (t : TransactionIn) where
  abbrev pub struck : Option (List ℕ) → List Account → List Account
  struck none l = l
  struck (some username) l = strike username l

  deleted-Leaves :
      (s : Server) (r : AccountManager × Bool) (l : List Account)
      → IsConsistent r.0
      → roster r.0 ≡ l
      → Leaves (deleted unset s uid t r) l
  deleted-Leaves s (a, true) l c e = commit_reply-Leaves _ uid t l c e
  deleted-Leaves s (a, false) l c e = reply_error-Leaves _ uid t _ l c e

  delete_named-Leaves :
      (s : Server) (username : Option (List ℕ))
      → IsConsistent s.accounts
      → Leaves (delete_named unset uid t s username) (struck username (roster s.accounts))
  delete_named-Leaves s none c = reply_error-Leaves s uid t _ _ c refl
  delete_named-Leaves s (some username) c =
      let (ok, gone, answer) = del_account-strike s.accounts username c in
      deleted-Leaves s (del_account s.accounts username) _ ok gone

  -- txn_delete_account of a client that has the privilege, from a state in which the table and the list
  -- hold the same accounts, answers 0 and leaves such a state without the account that the message
  -- names; the others are as they were.
  pub txn_delete_account-struck :
      (s : Server)
      → IsWellFormed s.connections
      → IsConsistent s.accounts
      → grants (view s.connections uid) 15 ≡ true
      → Leaves
          (txn_delete_account unset s uid t)
          (struck (masked_string_of t (object_index t 105)) (roster s.accounts))
  unfolding txn_delete_account
  txn_delete_account-struck s w c h =
      rw (guarded-granted s uid t 15 _ _ w h) (delete_named-Leaves _ _ c)

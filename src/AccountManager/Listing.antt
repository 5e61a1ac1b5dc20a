-- ===== src/AccountManager/Listing.antt =====
-- `am_build_userlist`: the accounts for an administrator.
use hotwired.HashTable
use hotwired.HashTable.{HashTable, text_key}
use hotwired.Prelude.Bytes.{be16}
use hotwired.Prelude.{◌+◌, ◌%◌, ◌^◌, Option, none, some, List, [], ◌∷◌, ◌++◌, map, length}
use hotwired.Transaction.Objects.{mask}
use hotwired.Transaction.{TransactionIn, TransactionOut, reply_create, add_object}
use hotwired.AccountManager.{Account, AccountManager}

-- `add_userlist_entry`; `none` where the real name is NULL. The masked name follows the real one.
unfoldable pub add_userlist_entry : TransactionOut → Account → Option TransactionOut
add_userlist_entry t a = elim a.realname [
  | none ↦ none
  | some realname ↦
      let buf =
        be16 4
        ++ be16 102
        ++ be16 (length realname)
        ++ realname
        ++ be16 105
        ++ be16 (length a.username)
        ++ mask a.username
        ++ be16 106
        ++ be16 1
        ++ b'x' ∷ []
        ++ be16 110
        ++ be16 8
        ++ a.perms in
      some (add_object t 101 buf ((27 + length a.username + length realname) % 2 ^ 16))
]

abbrev pub then_entry : Option TransactionOut → Account → Option TransactionOut
then_entry none a = none
then_entry (some t) a = add_userlist_entry t a

unfoldable pub add_entries : Option TransactionOut → List Account → Option TransactionOut
add_entries t [] = t
add_entries t (a ∷ l) = add_entries (then_entry t a) l

unfoldable pub build_userlist : AccountManager → TransactionIn → Option TransactionOut
build_userlist s t =
    add_entries (some (reply_create t 0 (HashTable.size s.account_table % 2 ^ 16)))
      (map s.heap s.accounts)

-- ===== src/Tests/Accounts.antt =====
-- AccountManager.c.
use hotwired.AccountManager
use hotwired.AccountManager.Changes.{enter, add_account_with_permissions-enter}
use hotwired.AccountManager.Deletion.{present, del_account-strike}
use hotwired.AccountManager.File.{IsStorable}
use hotwired.AccountManager.Reload.{emptied-IsConsistent, init-commit}
use hotwired.AccountManager.Roster.{roster, find_account, strike, IsConsistent}
use hotwired.AccountManager.{
  Account, account_create, AccountManager, add_account_with_permissions, del_account, commit,
}
use hotwired.Collection.Bucket.{find, take_out}
use hotwired.Collection.Load.{to_float, above_three, above_one}
use hotwired.Collection.{
  slot, next_prime, create, size, relink, drain, drain_all, rebuild, grow, shrink, insert_at,
  insert, remove_at, remove, lookup,
}
use hotwired.HashTable
use hotwired.HashTable.{same_text, hash, hash_from}
use hotwired.Permissions
use hotwired.Permissions.{superuser, to_ascii}
use hotwired.Prelude.{ℕ, ◌<◌, ◌≡◌, refl, none, some, List, [], ◌∷◌, length, All, arith}
use hotwired.Prelude.Texts.{codes, contains}

program : Unit {0}
unfolding find take_out to_float above_three above_one slot next_prime create size relink drain
    drain_all rebuild grow shrink insert_at insert remove_at remove lookup HashTable.create
    HashTable.insert HashTable.remove HashTable.lookup same_text hash hash_from account_create
    Permissions.copy add_account_with_permissions roster AccountManager.emptied contains to_ascii
program = tt

abbrev nothing : AccountManager
nothing = AccountManager.emptied (record {
  account_table = HashTable.create;
  accounts = [];
  heap = λ p. account_create [] none none [];
  fresh = 1;
})

nothing-IsConsistent : IsConsistent nothing
nothing-IsConsistent = (emptied-IsConsistent _).0

abbrev pub admin_name : List ℕ
admin_name = codes "admin"

add_account_with_permissions-enter_example :
    IsConsistent
      (add_account_with_permissions nothing (some admin_name) (some (codes "Ann")) none superuser).0
    × ((
      roster
          (add_account_with_permissions nothing
            (some admin_name)
            (some (codes "Ann"))
            none
            superuser).0,
      (add_account_with_permissions nothing
          (some admin_name)
          (some (codes "Ann"))
          none
          superuser).1,
    )
        ≡ enter (account_create admin_name (some (codes "Ann")) none superuser) (roster nothing))
add_account_with_permissions-enter_example =
    add_account_with_permissions-enter nothing admin_name (some (codes "Ann")) none superuser
      nothing-IsConsistent

-- One account.
abbrev pub one_account : AccountManager
one_account =
    (add_account_with_permissions nothing (some admin_name) (some (codes "Ann"))
      (some (codes "ABhi")) superuser).0

pub one_account-IsConsistent : IsConsistent one_account
one_account-IsConsistent =
    (add_account_with_permissions-enter nothing admin_name (some (codes "Ann"))
      (some (codes "ABhi")) superuser nothing-IsConsistent).0

abbrev ann : Account
ann = record {
  username = admin_name;
  realname = some (codes "Ann");
  password = some (codes "ABhi");
  perms = superuser;
}

one_account-roster : roster one_account ≡ ann ∷ []
unfolding program
one_account-roster = refl

ann-IsStorable : IsStorable ann
unfolding program
ann-IsStorable = record {
  some_name = omega arith;
  name = (refl, refl, refl);
  secret = (refl, refl, refl);
  secret_form = refl;
  real = codes "Ann";
  real_name_of = refl;
  real_text = (refl, refl);
  permissions = record { size = refl; bytes = omega arith };
  fits = omega arith;
}

storable : All IsStorable (roster one_account)
storable = rw one_account-roster (ann-IsStorable, tt)

some_account : 0 < length (roster one_account)
some_account = rw one_account-roster (omega arith)

del_account-strike_example :
    IsConsistent (del_account one_account admin_name).0
    × (roster (del_account one_account admin_name).0 ≡ strike admin_name (roster one_account))
    × ((del_account one_account admin_name).1
        ≡ present (find_account admin_name (roster one_account)))
del_account-strike_example = del_account-strike one_account admin_name one_account-IsConsistent

init-commit_example :
    (file : List ℕ) × (commit one_account ≡ some file)
    × IsConsistent (AccountManager.init nothing (some file))
    × (roster (AccountManager.init nothing (some file)) ≡ roster one_account)
init-commit_example = init-commit one_account nothing one_account-IsConsistent storable some_account

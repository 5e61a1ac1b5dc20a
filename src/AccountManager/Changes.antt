-- ===== src/AccountManager/Changes.antt =====
-- The operations of AccountManager.c as operations on the roster.
use hotwired.AccountManager.Roster.{
  roster, named, find_account, pointer_of, IsConsistent, fetched, fetched-pointer_of, named-none,
  named-append, map-append_end, map-update, pointer_of-added, All-append_end, flag,
}
use hotwired.AccountManager.{
  Account, account_create, AccountManager, update, add_account_with_permissions, lookup_account,
}
use hotwired.Collection
use hotwired.Collection.Operations.{InsertResult, Writes, insert_lem}
use hotwired.Collection.Rebuild.{Keeps}
use hotwired.Collection.Removal.{lookup_lem}
use hotwired.HashTable
use hotwired.HashTable.{HashTable, text_key}
use hotwired.Permissions.{Permissions}
use hotwired.Prelude.{
  ℕ, ◌+◌, ◌≤◌, ◌≡◌, refl, sym, ap, ◌∙◌, ==_iff, Bool, true, false, Bool-cases, Option-cases, inl,
  inr, Option, none, some, List, [], ◌∷◌, ◌++◌, map, arith, if◌then◌else◌,
}
use mathlib.Core.Path.{subst}

-- The account is entered behind the others, unless one has its name.
unfoldable pub enter : Account → List Account → List Account × Bool
enter a l = elim (find_account a.username l) [ none ↦ (l ++ a ∷ [], true) | some b ↦ (l, false) ]

-- A table that keeps its entries keeps the state consistent.
pub kept-IsConsistent :
    (s : AccountManager) (table : HashTable ℕ)
    → IsConsistent s
    → Keeps s.account_table table
    → IsConsistent (record s { account_table = table })
kept-IsConsistent s table c k = record {
  table = k.valid;
  same = λ u. k.same_view u ∙ c.same u;
  once = c.once;
  below = c.below;
}

-- The table with the new pointer, and the list with it at the end.
added-IsConsistent :
    (s : AccountManager) (a : Account) (table : HashTable ℕ)
    → IsConsistent s
    → pointer_of s.heap a.username s.accounts ≡ none
    → Writes s.account_table a.username (some s.fresh) table
    → IsConsistent (record s {
      account_table = table;
      accounts = s.accounts ++ s.fresh ∷ [];
      heap = update s.heap s.fresh a;
      fresh = s.fresh + 1;
    })
      × (map (update s.heap s.fresh a) (s.accounts ++ s.fresh ∷ [])
          ≡ map s.heap s.accounts ++ a ∷ [])
unfolding named
added-IsConsistent s a table c free w =
    let new : update s.heap s.fresh a s.fresh ≡ a = rw ((==_iff s.fresh s.fresh).1 refl) refl in
    let listed : map (update s.heap s.fresh a) (s.accounts ++ s.fresh ∷ [])
        ≡ map s.heap s.accounts ++ a ∷ [] =
      map-append_end (update s.heap s.fresh a) s.accounts s.fresh
      ∙ ap (λ l. l ++ update s.heap s.fresh a s.fresh ∷ [])
          (map-update s.heap s.fresh a s.accounts c.below)
      ∙ ap (λ x. map s.heap s.accounts ++ x ∷ []) new in
    (
      record {
        table = w.valid;
        same = λ u.
            w.views u
            ∙ ap (λ o. if text_key.same u a.username then some s.fresh else o) (c.same u)
            ∙ sym (pointer_of-added s.heap s.fresh a u s.accounts c.below free);
        once = λ u. rw listed (once u);
        below = All-append_end s.accounts s.fresh c.below;
      },
      listed,
    )
  where
    none_yet : named a.username (map s.heap s.accounts) ≡ 0
    none_yet = named-none s.heap a.username s.accounts free

    once : (u : List ℕ) → named u (map s.heap s.accounts ++ a ∷ []) ≤ 1
    once u = elim (Bool-cases (text_key.same u a.username)) [
      | inl e ↦
          let at =
            ap (λ x. named x (map s.heap s.accounts)) ((text_key.same_iff u a.username).0 e) in
          omega (arith, named-append u (map s.heap s.accounts) (a ∷ []), at, none_yet, ap flag e)
      | inr e ↦ omega (arith, named-append u (map s.heap s.accounts) (a ∷ []), c.once u, ap flag e)
    ]

-- am_add_account_with_permissions with a user name, from a state in which the table and the list
-- hold the same accounts, leaves such a state; it answers 0 and puts the new account behind the
-- others where no account has the name, and answers -1 and leaves the accounts as they were where
-- one has it.
pub add_account_with_permissions-enter :
    (s : AccountManager) (username : List ℕ) (realname password : Option (List ℕ))
    (permissions : Permissions)
    → IsConsistent s
    → let r = add_account_with_permissions s (some username) realname password permissions in
      IsConsistent r.0
      × ((roster r.0, r.1)
          ≡ enter (account_create username realname password permissions) (roster s))
unfolding add_account_with_permissions enter roster account_create HashTable.insert
add_account_with_permissions-enter s username realname password permissions c =
    let a = account_create username realname password permissions in
    let found = fetched-pointer_of s.heap username s.accounts in
    let done = insert_lem s.account_table username s.fresh c.table in
    elim (Option-cases (pointer_of s.heap username s.accounts)) [
      | inl e ↦
          let r =
            subst
              (λ o.
                InsertResult s.account_table username s.fresh o
                  (Collection.insert s.account_table username s.fresh))
              (c.same username ∙ e) done in
          let (ok, listed) = added-IsConsistent s a _ c e r.1 in
          rw (r.0, sym found ∙ ap (fetched s.heap) e, add_account_with_permissions, enter)
            (ok, ap (λ l. (l, true)) listed)
      | inr (p, e) ↦
          let r =
            subst
              (λ o.
                InsertResult s.account_table username s.fresh o
                  (Collection.insert s.account_table username s.fresh))
              (c.same username ∙ e) done in
          rw (r.0, sym found ∙ ap (fetched s.heap) e, add_account_with_permissions, enter)
            (kept-IsConsistent s _ c r.1, refl)
    ]

pub lookup_account-pointer_of :
    (s : AccountManager) (username : List ℕ)
    → IsConsistent s
    → IsConsistent (lookup_account s username).0
      × ((lookup_account s username).1 ≡ pointer_of s.heap username s.accounts)
unfolding lookup_account HashTable.lookup
lookup_account-pointer_of s username c =
    let (answer, kept) = lookup_lem s.account_table username c.table in
    (kept-IsConsistent s _ c kept, answer ∙ c.same username)

-- am_lookup_account, from a state in which the table and the list hold the same accounts, answers
-- the pointer to the account of the name, or NULL where no account has it, and leaves such a state
-- with the same accounts.
pub lookup_account-find_account :
    (s : AccountManager) (username : List ℕ)
    → IsConsistent s
    → let r = lookup_account s username in
      IsConsistent r.0
      × (roster r.0 ≡ roster s)
      × (fetched s.heap r.1 ≡ find_account username (roster s))
unfolding lookup_account roster
lookup_account-find_account s username c =
    let (kept, answer) = lookup_account-pointer_of s username c in
    (kept, refl, ap (fetched s.heap) answer ∙ fetched-pointer_of s.heap username s.accounts)

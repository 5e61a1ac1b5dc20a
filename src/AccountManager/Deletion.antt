-- ===== src/AccountManager/Deletion.antt =====
-- `am_del_account` as an operation on the roster.
use hotwired.AccountManager.Roster.{
  roster, named, find_account, strike, pointer_of, IsConsistent, fetched, fetched-pointer_of,
  none-named,
}
use hotwired.AccountManager.Unlink.{
  unlink-strike, unlink-pointer_of, unlink-named, strike-le, All-unlink,
}
use hotwired.AccountManager.{Account, AccountManager, unlink, del_account}
use hotwired.Collection
use hotwired.Collection.Operations.{Writes}
use hotwired.Collection.Removal.{remove_lem}
use hotwired.Collection.View.{view}
use hotwired.HashTable
use hotwired.HashTable.{HashTable, text_key}
use hotwired.Prelude.{
  ℕ, ◌<◌, ◌≡◌, refl, sym, ap, ◌∙◌, Bool, true, false, Bool-cases, Option-cases, inl, inr, Option,
  none, some, List, [], ◌∷◌, map, arith,
}

abbrev pub present : Option Account → Bool
present none = false
present (some a) = true

-- The pointer leaves the table and the list.
deleted-IsConsistent :
    (s : AccountManager) (u : List ℕ) (p : ℕ) (table : HashTable ℕ)
    → IsConsistent s
    → pointer_of s.heap u s.accounts ≡ some p
    → Writes s.account_table u none table
    → IsConsistent (record s { account_table = table; accounts = unlink p s.accounts })
deleted-IsConsistent s u p table c e w = record {
  table = w.valid;
  same = same;
  once = λ v. rw gone (omega (arith, strike-le u v (map s.heap s.accounts), c.once v));
  below = All-unlink (λ q. q < s.fresh) p s.accounts c.below;
}
  where
    gone : map s.heap (unlink p s.accounts) ≡ strike u (map s.heap s.accounts)
    gone = unlink-strike s.heap u p s.accounts e

    same : (v : List ℕ) → view table v ≡ pointer_of s.heap v (unlink p s.accounts)
    same v = elim (Bool-cases (text_key.same v u)) [
      | inl hit ↦
          let left : named u (map s.heap (unlink p s.accounts)) ≡ 0 =
            ap (named u) gone ∙ omega (arith, unlink-named s.heap u p s.accounts e, c.once u) in
          w.views v
          ∙ rw hit (
              sym (
                ap (λ x. pointer_of s.heap x (unlink p s.accounts)) ((text_key.same_iff v u).0 hit)
                ∙ none-named s.heap u (unlink p s.accounts) left))
      | inr miss ↦
          w.views v ∙ rw miss (c.same v ∙ sym (unlink-pointer_of s.heap u p v s.accounts e miss))
    ]

strike-absent : (u : List ℕ) (l : List Account) → find_account u l ≡ none → strike u l ≡ l
unfolding find_account strike
strike-absent u [] h = refl
strike-absent u (a ∷ l) h = elim (Bool-cases (text_key.same u a.username)) [
  | inl e ↦ ground (arith, e, h)
  | inr e ↦ rw e (ap (◌∷◌ a) (strike-absent u l (ground (arith, e, h))))
]

-- am_del_account, from a state in which the table and the list hold the same accounts, leaves such
-- a state and removes the account of the name and no other; it answers 0 where there was one and
-- -1 where there was none.
pub del_account-strike :
    (s : AccountManager) (username : List ℕ)
    → IsConsistent s
    → let r = del_account s username in
      IsConsistent r.0
      × (roster r.0 ≡ strike username (roster s))
      × (r.1 ≡ present (find_account username (roster s)))
unfolding del_account roster HashTable.remove
del_account-strike s username c =
    let found = fetched-pointer_of s.heap username s.accounts in
    let (answer, w) = remove_lem s.account_table username c.table in
    elim (Option-cases (pointer_of s.heap username s.accounts)) [
      | inl e ↦
          let none_found = sym found ∙ ap (fetched s.heap) e in
          rw (answer ∙ c.same username ∙ e, none_found, del_account)
            (
              missing (Collection.remove s.account_table username).0 e w,
              sym (strike-absent username (map s.heap s.accounts) none_found),
              refl,
            )
      | inr (p, e) ↦
          rw (answer ∙ c.same username ∙ e, sym found ∙ ap (fetched s.heap) e, del_account)
            (
              deleted-IsConsistent s username p _ c e w,
              unlink-strike s.heap username p s.accounts e,
              refl,
            )
    ]
  where
    missing :
        (table : HashTable ℕ)
        → pointer_of s.heap username s.accounts ≡ none
        → Writes s.account_table username none table
        → IsConsistent (record s { account_table = table })
    missing table e w = record {
      table = w.valid;
      same = λ v. w.views v ∙ elim (Bool-cases (text_key.same v username)) [
        | inl hit ↦ rw hit (
            sym
              (ap (λ x. pointer_of s.heap x s.accounts) ((text_key.same_iff v username).0 hit) ∙ e))
        | inr miss ↦ rw miss (c.same v)
      ];
      once = c.once;
      below = c.below;
    }

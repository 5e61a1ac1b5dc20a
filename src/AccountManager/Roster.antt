-- ===== src/AccountManager/Roster.antt =====
-- The accounts as a list without pointers: what adding, deleting and looking up do to it.
use mathlib.Core.Path.{ap₂}
use hotwired.AccountManager.{Account, AccountManager, update}
use hotwired.Collection.View.{IsWellFormed, view}
use hotwired.HashTable.{text_key}
use hotwired.Prelude.{
  ℕ, ◌+◌, ◌≤◌, ◌<◌, ◌≡◌, refl, ap, ◌∙◌, ==_iff, Bool, true, false, Bool-cases, inl, inr, Option,
  none, some, List, [], ◌∷◌, ◌++◌, map, All, arith, if◌then◌else◌,
}

-- The accounts in their order.
unfoldable pub roster : AccountManager → List Account
roster s = map s.heap s.accounts

abbrev pub flag : Bool → ℕ
flag true = 1
flag false = 0

-- How many accounts have a user name, and the first one that has it.
unfoldable pub named : List ℕ → List Account → ℕ
named u [] = 0
named u (a ∷ l) = flag (text_key.same u a.username) + named u l

unfoldable pub find_account : List ℕ → List Account → Option Account
find_account u [] = none
find_account u (a ∷ l) = if text_key.same u a.username then some a else find_account u l

unfoldable pub strike : List ℕ → List Account → List Account
strike u [] = []
strike u (a ∷ l) = if text_key.same u a.username then l else a ∷ strike u l

unfoldable pub pointer_of : (ℕ → Account) → List ℕ → List ℕ → Option ℕ
pointer_of heap u [] = none
pointer_of heap u (p ∷ l) =
    if text_key.same u (heap p).username then some p else pointer_of heap u l

-- The table and the list hold the same pointers, to allocated accounts of different names.
pub record IsConsistent (s : AccountManager) : Type 0 where
  pub table : IsWellFormed s.account_table
  pub same : (u : List ℕ) → view s.account_table u ≡ pointer_of s.heap u s.accounts
  pub once : (u : List ℕ) → named u (map s.heap s.accounts) ≤ 1
  pub below : All (λ p. p < s.fresh) s.accounts

abbrev pub fetched : (ℕ → Account) → Option ℕ → Option Account
fetched heap none = none
fetched heap (some p) = some (heap p)

pub fetched-pointer_of :
    (heap : ℕ → Account) (u : List ℕ) (l : List ℕ)
    → fetched heap (pointer_of heap u l) ≡ find_account u (map heap l)
unfolding pointer_of find_account
fetched-pointer_of heap u [] = refl
fetched-pointer_of heap u (p ∷ l) = ground (arith, fetched-pointer_of heap u l)

pub named-none :
    (heap : ℕ → Account) (u : List ℕ) (l : List ℕ)
    → pointer_of heap u l ≡ none
    → named u (map heap l) ≡ 0
unfolding pointer_of named
named-none heap u [] h = refl
named-none heap u (p ∷ l) h = ground (arith, named-none heap u l)

pub none-named :
    (heap : ℕ → Account) (u : List ℕ) (l : List ℕ)
    → named u (map heap l) ≡ 0
    → pointer_of heap u l ≡ none
unfolding pointer_of named
none-named heap u [] h = refl
none-named heap u (p ∷ l) h = ground (arith, none-named heap u l)

pub named-append : (u : List ℕ) (k l : List Account) → named u (k ++ l) ≡ named u k + named u l
unfolding named
named-append u [] l = omega arith
named-append u (a ∷ k) l = omega (arith, named-append u k l)

pub map-append_end :
    (heap : ℕ → Account) (l : List ℕ) (p : ℕ) → map heap (l ++ p ∷ []) ≡ map heap l ++ heap p ∷ []
map-append_end heap [] p = refl
map-append_end heap (q ∷ l) p = ap (◌∷◌ (heap q)) (map-append_end heap l p)

-- Writing at an address that is not in the list changes no account of it.
pub map-update :
    (heap : ℕ → Account) (p : ℕ) (a : Account) (l : List ℕ)
    → All (λ q. q < p) l
    → map (update heap p a) l ≡ map heap l
map-update heap p a [] h = refl
map-update heap p a (q ∷ l) h = ap₂ ◌∷◌ (ground (arith, h.0)) (map-update heap p a l h.1)

pointer_of-update :
    (heap : ℕ → Account) (p : ℕ) (a : Account) (u : List ℕ) (l : List ℕ)
    → All (λ q. q < p) l
    → pointer_of (update heap p a) u l ≡ pointer_of heap u l
unfolding pointer_of
pointer_of-update heap p a u [] h = refl
pointer_of-update heap p a u (q ∷ l) h =
    let kept : update heap p a q ≡ heap q = ground (arith, h.0) in
    ap₂ (λ x o. if text_key.same u x then some q else o) (ap (λ x. x.username) kept)
      (pointer_of-update heap p a u l h.1)

abbrev or_last : Option ℕ → Option ℕ → Option ℕ
or_last none o = o
or_last (some p) o = some p

pointer_of-append :
    (heap : ℕ → Account) (p : ℕ) (u : List ℕ) (l : List ℕ)
    → pointer_of heap u (l ++ p ∷ [])
      ≡ or_last (pointer_of heap u l) (if text_key.same u (heap p).username then some p else none)
unfolding pointer_of
pointer_of-append heap p u [] = refl
pointer_of-append heap p u (q ∷ l) = elim (Bool-cases (text_key.same u (heap q).username)) [
  | inl e ↦ rw e refl
  | inr e ↦ rw e (pointer_of-append heap p u l)
]

-- The list with a new account at its end.
pub pointer_of-added :
    (heap : ℕ → Account) (p : ℕ) (a : Account) (u : List ℕ) (l : List ℕ)
    → All (λ q. q < p) l
    → pointer_of heap a.username l ≡ none
    → pointer_of (update heap p a) u (l ++ p ∷ [])
      ≡ (if text_key.same u a.username then some p else pointer_of heap u l)
pointer_of-added heap p a u l h free =
    let new : update heap p a p ≡ a = rw ((==_iff p p).1 refl) refl in
    let all =
      pointer_of-append (update heap p a) p u l
      ∙ ap₂ (λ o x. or_last o (if text_key.same u x then some p else none))
          (pointer_of-update heap p a u l h) (ap (λ x. x.username) new) in
    elim (Bool-cases (text_key.same u a.username)) [
      | inl e ↦
          let none_there =
            ap (λ x. pointer_of heap x l) ((text_key.same_iff u a.username).0 e) ∙ free in
          rw e (all ∙ ap₂ (λ o b. or_last o (if b then some p else none)) none_there e)
      | inr e ↦ rw e (
          all
          ∙ ap (λ b. or_last (pointer_of heap u l) (if b then some p else none)) e
          ∙ or_last_none (pointer_of heap u l))
    ]
  where
    or_last_none : (o : Option ℕ) → or_last o none ≡ o
    or_last_none none = refl
    or_last_none (some p) = refl

pub All-append_end : (l : List ℕ) (p : ℕ) → All (λ q. q < p) l → All (λ q. q < p + 1) (l ++ p ∷ [])
All-append_end [] p h = omega arith
All-append_end (q ∷ l) p h = (omega (arith, h.0), All-append_end l p h.1)

-- ===== src/AccountManager/Amend.antt =====
-- Writing to an account through the pointer that a lookup answered.
use hotwired.AccountManager.Roster.{named, pointer_of, flag, IsConsistent}
use hotwired.AccountManager.Unlink.{other_node, pointer_of-name}
use hotwired.AccountManager.{Account, AccountManager, update}
use hotwired.HashTable.{text_key}
use hotwired.Prelude.{
  ℕ, ◌+◌, ◌≤◌, ◌≡◌, refl, sym, ap, ◌∙◌, ◌==◌, ==_iff, true, Bool-cases, inl, inr, none, some, List,
  [], ◌∷◌, map, arith, if◌then◌else◌,
}
use mathlib.Core.Path.{ap₂}

-- The first account of the name becomes another one.
unfoldable pub amend : List ℕ → (Account → Account) → List Account → List Account
amend u f [] = []
amend u f (a ∷ l) = if text_key.same u a.username then f a ∷ l else a ∷ amend u f l

module _ (heap : ℕ → Account) (u : List ℕ) (p : ℕ) (b : Account) where
  -- Where no account has the name of the pointer's, none is at the pointer.
  map-update_other :
      (l : List ℕ)
      → text_key.same u (heap p).username ≡ true
      → named u (map heap l) ≡ 0
      → map (update heap p b) l ≡ map heap l
  unfolding named
  map-update_other [] h n = refl
  map-update_other (q ∷ l) h n = elim (Bool-cases (text_key.same u (heap q).username)) [
    | inl e ↦ absurd (omega (arith, n, ap flag e))
    | inr e ↦
        let apart = other_node heap u p q h e in
        ap₂ ◌∷◌ (rw apart refl) (map-update_other l h (omega (arith, n)))
  ]

  map-amend :
      (l : List ℕ)
      → pointer_of heap u l ≡ some p
      → named u (map heap l) ≤ 1
      → map (update heap p b) l ≡ amend u (λ a. b) (map heap l)
  unfolding pointer_of named amend
  map-amend [] h n = cc
  map-amend (q ∷ l) h n = elim (Bool-cases (text_key.same u (heap q).username)) [
    | inl e ↦
        let same : q ≡ p = ground (arith, e, h) in
        let name = pointer_of-name heap u p (q ∷ l) h in
        rw ((==_iff q p).1 same, e)
          (ap (◌∷◌ b) (map-update_other l name (omega (arith, n, ap flag e))))
    | inr e ↦
        let tail : pointer_of heap u l ≡ some p = ground (arith, e, h) in
        let apart = other_node heap u p q (pointer_of-name heap u p l tail) e in
        rw (apart, e) (ap (◌∷◌ (heap q)) (map-amend l tail (omega (arith, n))))
  ]

-- An account of the same name at a pointer moves no account.
module _ (heap : ℕ → Account) (p : ℕ) (b : Account) (h : b.username ≡ (heap p).username) where
  same_name : (q : ℕ) → (update heap p b q).username ≡ (heap q).username
  same_name q = elim (Bool-cases (q == p)) [
    | inl e ↦ rw e (h ∙ ap (λ x. (heap x).username) (sym ((==_iff q p).0 e)))
    | inr e ↦ rw e refl
  ]

  pointer_of-rewritten :
      (u : List ℕ) (l : List ℕ) → pointer_of (update heap p b) u l ≡ pointer_of heap u l
  unfolding pointer_of
  pointer_of-rewritten u [] = refl
  pointer_of-rewritten u (q ∷ l) =
      ap₂ (λ x o. if text_key.same u x then some q else o) (same_name q) (pointer_of-rewritten u l)

  named-rewritten :
      (u : List ℕ) (l : List ℕ) → named u (map (update heap p b) l) ≡ named u (map heap l)
  unfolding named
  named-rewritten u [] = refl
  named-rewritten u (q ∷ l) =
      ap₂ (λ x n. flag (text_key.same u x) + n) (same_name q) (named-rewritten u l)

-- Behind a lookup that answered `p`, writing an account of the same name there.
pub written-IsConsistent :
    (s : AccountManager) (u : List ℕ) (p : ℕ) (b : Account)
    → IsConsistent s
    → pointer_of s.heap u s.accounts ≡ some p
    → b.username ≡ (s.heap p).username
    → IsConsistent (record s { heap = update s.heap p b })
      × (map (update s.heap p b) s.accounts ≡ amend u (λ a. b) (map s.heap s.accounts))
written-IsConsistent s u p b c e h = (
  record {
    table = c.table;
    same = λ v. c.same v ∙ sym (pointer_of-rewritten s.heap p b h v s.accounts);
    once = λ v. rw (named-rewritten s.heap p b h v s.accounts) (c.once v);
    below = c.below;
  },
  map-amend s.heap u p b s.accounts e (c.once u),
)

-- What is written may depend on the account that is found.
pub amend-found :
    (heap : ℕ → Account) (u : List ℕ) (p : ℕ) (f : Account → Account) (l : List ℕ)
    → pointer_of heap u l ≡ some p
    → amend u (λ a. f (heap p)) (map heap l) ≡ amend u f (map heap l)
unfolding amend pointer_of
amend-found heap u p f [] h = refl
amend-found heap u p f (q ∷ l) h = elim (Bool-cases (text_key.same u (heap q).username)) [
  | inl e ↦
      let same : q ≡ p = ground (arith, e, h) in rw e (ap (λ x. f (heap x) ∷ map heap l) (sym same))
  | inr e ↦ rw e (ap (◌∷◌ (heap q)) (amend-found heap u p f l (ground (arith, e, h))))
]

pub amend-none :
    (heap : ℕ → Account) (u : List ℕ) (f : Account → Account) (l : List ℕ)
    → pointer_of heap u l ≡ none
    → amend u f (map heap l) ≡ map heap l
unfolding amend pointer_of
amend-none heap u f [] h = refl
amend-none heap u f (q ∷ l) h = elim (Bool-cases (text_key.same u (heap q).username)) [
  | inl e ↦ ground (arith, e, h)
  | inr e ↦ rw e (ap (◌∷◌ (heap q)) (amend-none heap u f l (ground (arith, e, h))))
]

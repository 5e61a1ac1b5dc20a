-- ===== src/AccountManager/Unlink.antt =====
-- What unlinking an account's pointer leaves of the list.
use hotwired.AccountManager.{Account, unlink}
use hotwired.AccountManager.Roster.{named, strike, pointer_of}
use hotwired.HashTable.{text_key}
use hotwired.Prelude.{
  ℕ, suc, ◌≤◌, ◌≡◌, sym, ap, ◌∙◌, ◌==◌, ==_iff, true, false, Bool-cases, inl, inr, some, List, [],
  ◌∷◌, map, All, arith, if◌then◌else◌,
}

pub pointer_of-name :
    (heap : ℕ → Account) (u : List ℕ) (p : ℕ) (l : List ℕ)
    → pointer_of heap u l ≡ some p
    → text_key.same u (heap p).username ≡ true
unfolding pointer_of
pointer_of-name heap u p [] h = cc
pointer_of-name heap u p (q ∷ l) h = elim (Bool-cases (text_key.same u (heap q).username)) [
  | inl e ↦ ground (arith, e, h)
  | inr e ↦ pointer_of-name heap u p l (ground (arith, e, h))
]

-- A node of another name is another node.
pub other_node :
    (heap : ℕ → Account) (u : List ℕ) (p q : ℕ)
    → text_key.same u (heap p).username ≡ true
    → text_key.same u (heap q).username ≡ false
    → (q == p) ≡ false
other_node heap u p q h e = elim (Bool-cases (q == p)) [
  | inl same ↦ absurd (clash (ap heap ((==_iff q p).0 same)))
  | inr other ↦ other
]
  where
    clash : heap q ≡ heap p → ⊥
    clash x = let y = ap (λ z. text_key.same u z.username) x in cc

-- What unlinking the pointer of a name leaves.
module _ (heap : ℕ → Account) (u : List ℕ) (p : ℕ) where
  pub unlink-strike :
      (l : List ℕ) → pointer_of heap u l ≡ some p → map heap (unlink p l) ≡ strike u (map heap l)
  unfolding pointer_of unlink strike
  unlink-strike [] h = cc
  unlink-strike (q ∷ l) h = elim (Bool-cases (text_key.same u (heap q).username)) [
    | inl e ↦ ground (arith, e, h)
    | inr e ↦
        let tail : pointer_of heap u l ≡ some p = ground (arith, e, h) in
        let apart = other_node heap u p q (pointer_of-name heap u p l tail) e in
        rw (apart, e) (ap (◌∷◌ (heap q)) (unlink-strike l tail))
  ]

  pub unlink-pointer_of :
      (v : List ℕ) (l : List ℕ)
      → pointer_of heap u l ≡ some p
      → text_key.same v u ≡ false
      → pointer_of heap v (unlink p l) ≡ pointer_of heap v l
  unfolding pointer_of unlink
  unlink-pointer_of v [] h d = cc
  unlink-pointer_of v (q ∷ l) h d = elim (Bool-cases (text_key.same u (heap q).username)) [
    | inl e ↦
        let at = (text_key.same_iff u (heap q).username).0 e in
        let away : text_key.same v (heap q).username ≡ false = ap (text_key.same v) (sym at) ∙ d in
        ground (arith, e, h, away)
    | inr e ↦
        let tail : pointer_of heap u l ≡ some p = ground (arith, e, h) in
        let apart = other_node heap u p q (pointer_of-name heap u p l tail) e in
        rw (apart, pointer_of)
          (ap (λ o. if text_key.same v (heap q).username then some q else o)
            (unlink-pointer_of v l tail d))
  ]

  pub unlink-named :
      (l : List ℕ)
      → pointer_of heap u l ≡ some p
      → suc (named u (strike u (map heap l))) ≡ named u (map heap l)
  unfolding pointer_of named strike
  unlink-named [] h = cc
  unlink-named (q ∷ l) h = ground (arith, unlink-named l)

pub strike-le : (u v : List ℕ) (l : List Account) → named v (strike u l) ≤ named v l
unfolding named strike
strike-le u v [] = omega arith
strike-le u v (a ∷ l) = ground (arith, strike-le u v l)

pub All-unlink {κ} : (P : ℕ → Type κ) (p : ℕ) (l : List ℕ) → All P l → All P (unlink p l)
unfolding unlink
All-unlink P p [] h = h
All-unlink P p (q ∷ l) h = elim (Bool-cases (q == p)) [
  | inl e ↦ rw e h.1
  | inr e ↦ rw e (h.0, All-unlink P p l h.1)
]

-- ===== src/Password/Check.antt =====
-- Checking a password against the text that was made of it.
use hotwired.HashTable.{same_text_iff}
use hotwired.Password.{password_encrypt, password_check}
use hotwired.Prelude.{
  ℕ, ◌≡◌, ◌↔◌, sym, ap, ◌∙◌, true, Option, Option-cases, inl, inr, some, List, [], ◌∷◌, take,
}

-- A text is accepted exactly where it is encrypted as the given text.
accepted :
    (crypt : List ℕ → List ℕ → Option (List ℕ)) (pw other : List ℕ)
    → (password_check crypt pw other ≡ some true) ↔ (crypt other (take 2 pw) ≡ some pw)
unfolding password_check
accepted crypt pw other = elim (Option-cases (crypt other (take 2 pw))) [
  | inl e ↦ rw (e, password_check) (λ h. cc, λ h. cc)
  | inr (got, e) ↦
      rw (e, password_check)
        (λ h. ap some ((same_text_iff got pw).0 cc), λ h. ap some ((same_text_iff got pw).1 cc))
]

-- Where the text that crypt answers begins with its salt of two characters, a password that
-- password_encrypt could encrypt is accepted by password_check against the result, and the texts
-- that it accepts against that result are exactly those that crypt turns, under the same salt, into
-- the same result.
pub password_check-password_encrypt :
    (crypt : List ℕ → List ℕ → Option (List ℕ))
    → ((a b : ℕ) (key pw : List ℕ) → crypt key (a ∷ b ∷ []) ≡ some pw → take 2 pw ≡ a ∷ b ∷ [])
    → (rand : ℕ × ℕ) (key pw : List ℕ) → password_encrypt crypt rand key ≡ some pw
    → (password_check crypt pw key ≡ some true)
      × ((other : List ℕ)
          → (password_check crypt pw other ≡ some true)
            ↔ (password_encrypt crypt rand other ≡ some pw))
unfolding password_encrypt
password_check-password_encrypt crypt salted rand key pw e =
    let salt = salted _ _ key pw e in
    (
      (accepted crypt pw key).1 (ap (crypt key) salt ∙ e),
      λ other. (
        λ h. ap (crypt other) (sym salt) ∙ (accepted crypt pw other).0 h,
        λ h. (accepted crypt pw other).1 (ap (crypt other) salt ∙ h),
      ),
    )

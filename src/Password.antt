-- ===== src/Password.antt =====
-- password.c. `crypt` of the C library is an argument: of a text and a salt it answers the encrypted
-- text, or none for NULL. What `rand` returns is an argument too.
pub mod Check
use hotwired.HashTable.{same_text}
use hotwired.Prelude.{ℕ, ◌%◌, Bool, Option, none, some, List, [], ◌∷◌, get_or, take}
use hotwired.Prelude.Texts.{codes}

abbrev pub salt_chars : List ℕ
salt_chars = codes "ABCDEFGHIJKLMNOPQRSTUVWXYZabcdefghijklmnopqrstuvwxyz0123456789./"

unfoldable pub password_encrypt :
    (List ℕ → List ℕ → Option (List ℕ)) → ℕ × ℕ → List ℕ → Option (List ℕ)
password_encrypt crypt rand key =
    crypt key (get_or salt_chars (rand.0 % 64) 0 ∷ get_or salt_chars (rand.1 % 64) 0 ∷ [])

-- The third byte of the salt is not set: what `crypt` reads of it is the first two. `none` is the
-- comparison with a NULL pointer.
unfoldable pub password_check : (List ℕ → List ℕ → Option (List ℕ)) → List ℕ → List ℕ → Option Bool
password_check crypt cyphertext plaintext = elim (crypt plaintext (take 2 cyphertext)) [
  | none ↦ none
  | some pw ↦ some (same_text pw cyphertext)
]

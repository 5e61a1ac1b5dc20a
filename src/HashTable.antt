-- ===== src/HashTable.antt =====
-- HashTable.c: the table of Collection.c over zero-terminated texts. A text is the list of its
-- bytes before the terminator; `char` is signed, as on the machines that the Makefile is for.
pub mod Hash
use hotwired.Collection
use hotwired.Collection.Keys.{Key}
use hotwired.Collection.{Collection}
use hotwired.Prelude.{
  ℕ, ◌+◌, ◌-◌, ◌*◌, ◌%◌, ◌^◌, ◌≡◌, refl, ◌↔◌, Bool, true, false, ◌&&◌, Option, List, [], ◌∷◌, ltb,
  ◌==◌, if◌then◌else◌, arith,
}

-- `!strcmp(a, b)`
unfoldable pub same_text : List ℕ → List ℕ → Bool
same_text [] [] = true
same_text (a ∷ r) (b ∷ t) = a == b && same_text r t
same_text [] (b ∷ t) = false
same_text (a ∷ r) [] = false

-- A byte as a `char`, converted to `unsigned`.
abbrev pub char_value : ℕ → ℕ
char_value c = if ltb c 128 then c else c + 2 ^ 32 - 256

-- `h = (h << 5) - h + *s` in 32 bits, down the text.
unfoldable pub hash_from : ℕ → List ℕ → ℕ
hash_from h [] = h
hash_from h (c ∷ s) = hash_from ((h * 32 % 2 ^ 32 + 2 ^ 32 - h + char_value c) % 2 ^ 32) s

unfoldable pub hash : List ℕ → ℕ
unfolding hash_from
hash s = hash_from 0 s

same_text_sound : (a b : List ℕ) → same_text a b ≡ true → a ≡ b
unfolding same_text
same_text_sound [] [] h = refl
same_text_sound (a ∷ r) (b ∷ t) h = ground (arith, same_text_sound r t)
same_text_sound [] (b ∷ t) h = cc
same_text_sound (a ∷ r) [] h = cc

same_text_refl : (a : List ℕ) → same_text a a ≡ true
unfolding same_text
same_text_refl [] = refl
same_text_refl (a ∷ r) = ground (arith, same_text_refl r)

pub same_text_iff : (a b : List ℕ) → (same_text a b ≡ true) ↔ (a ≡ b)
same_text_iff a b = (same_text_sound a b, λ e. rw e (same_text_refl b))

instance abbrev pub text_key : Key (List ℕ)
text_key = record { same = same_text; same_iff = same_text_iff; code = hash }

abbrev pub HashTable : Type 0 → Type 0
HashTable V = Collection (List ℕ) V

module _ {V : Type 0} where
  unfoldable pub create : HashTable V
  create = Collection.create

  unfoldable pub size : HashTable V → ℕ
  size table = Collection.size table

  unfoldable pub rebuild : HashTable V → ℕ → HashTable V
  rebuild table bucket_count = Collection.rebuild table bucket_count

  unfoldable pub grow : HashTable V → HashTable V
  grow table = Collection.grow table

  unfoldable pub shrink : HashTable V → HashTable V
  shrink table = Collection.shrink table

  -- `xstrdup` copies the key, so that the table owns it.
  unfoldable pub insert : HashTable V → List ℕ → V → HashTable V × Bool
  insert table k v = Collection.insert table k v

  unfoldable pub remove : HashTable V → List ℕ → HashTable V × Option V
  remove table k = Collection.remove table k

  unfoldable pub lookup : HashTable V → List ℕ → HashTable V × Option V
  lookup table k = Collection.lookup table k

  -- The callback does not see the key.
  unfoldable pub iterate {κ} : {S : Type κ} → HashTable V → (V → S → S × Bool) → S → S
  iterate table iterator s = Collection.iterate table (λ k v. iterator v) s

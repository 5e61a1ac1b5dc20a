-- ===== src/HashTable/Hash.antt =====
-- The hash of HashTable.c as a polynomial, and what a text finds after an insertion.
use hotwired.Prelude.{
  ℕ, ◌+◌, ◌-◌, ◌*◌, ◌%◌, ◌^◌, ◌≡◌, refl, ◌∙◌, true, none, some, List, [], ◌∷◌, if◌then◌else◌, arith,
}
use mathlib.Core.Path.{subst}
use hotwired.Collection
use hotwired.HashTable.{
  HashTable, same_text, char_value, hash_from, hash, text_key, insert, remove, lookup,
}
use hotwired.Collection.View.{IsWellFormed, view}
use hotwired.Collection.Operations.{InsertResult, insert_lem}
use hotwired.Collection.Removal.{remove_lem, lookup_lem}

-- The value at 31 of the polynomial whose coefficients are the characters, without a bound.
pub horner : ℕ → List ℕ → ℕ
horner a [] = a
horner a (c ∷ s) = horner (31 * a + char_value c) s

hash_from-horner : (a : ℕ) (s : List ℕ) → hash_from (a % 2 ^ 32) s ≡ horner a s % 2 ^ 32
unfolding hash_from horner
hash_from-horner a [] = refl
hash_from-horner a (c ∷ s) = rw (step a (char_value c)) (hash_from-horner (31 * a + char_value c) s)
  where
    step :
        (a c : ℕ)
        → (a % 2 ^ 32 * 32 % 2 ^ 32 + 2 ^ 32 - a % 2 ^ 32 + c) % 2 ^ 32 ≡ (31 * a + c) % 2 ^ 32
    step a c = omega arith

-- The shifts and subtractions of `hash`, which wrap in 32 bits at each character, compute the
-- polynomial in 31 of the text's characters modulo 2 ^ 32.
pub hash-horner : (s : List ℕ) → hash s ≡ horner 0 s % 2 ^ 32
unfolding hash
hash-horner s = hash_from-horner 0 s

module _ {V : Type 0} (table : HashTable V) (k : List ℕ) (w : IsWellFormed table) where
  -- On a well-formed table without the text `k`, an insertion under `k` answers 0, and a lookup
  -- then returns the new pointer for `k` and the former answer for every other text.
  pub lookup-insert :
      (x : V)
      → view table k ≡ none
      → ((insert table k x).1 ≡ true)
        × ((q : List ℕ)
            → (lookup (insert table k x).0 q).1 ≡ (if same_text q k then some x else view table q))
  unfolding insert lookup
  lookup-insert x free =
      let r : InsertResult table k x none (Collection.insert table k x) =
        subst (λ o. InsertResult table k x o (Collection.insert table k x)) free
          (insert_lem table k x w) in
      (r.0, λ q. (lookup_lem (Collection.insert table k x).0 q r.1.valid).0 ∙ r.1.views q)

  -- After a removal of `k` a lookup returns NULL for `k` and the former answer for other texts.
  pub lookup-remove :
      (q : List ℕ)
      → (lookup (remove table k).0 q).1 ≡ (if same_text q k then none else view table q)
  unfolding remove lookup
  lookup-remove q =
      let (_, writes) = remove_lem table k w in
      (lookup_lem (Collection.remove table k).0 q writes.valid).0 ∙ writes.views q

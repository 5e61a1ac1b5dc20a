-- ===== src/Collection/Keys.antt =====
-- What the two hash tables ask of a key: the comparison of two keys and the number that is reduced
-- to a bucket index. Collection.c compares and hashes `unsigned long`s, HashTable.c texts.
use hotwired.Prelude.{ℕ, ◌≡◌, ◌↔◌, Bool, true, ◌==◌, ==_iff}

pub record Key {ℓ} (K : Type ℓ) : Type ℓ where
  pub same : K → K → Bool
  pub same_iff : (a b : K) → (same a b ≡ true) ↔ (a ≡ b)
  pub code : K → ℕ

-- `CollectionKey` is an `unsigned long` and is its own code.
instance abbrev pub collection_key : Key ℕ
collection_key = record { same = ◌==◌; same_iff = ==_iff; code = λ k. k }

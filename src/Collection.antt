-- ===== src/Collection.antt =====
-- Collection.c and the algorithms that HashTable.c repeats for texts: a table of chained buckets
-- that grows and shrinks. The code of the two files differs only in the comparison and the hash of
-- keys, which come as an instance of `Key`. A data pointer is never NULL, so that NULL is `none`.
pub mod Keys
pub mod Bucket
pub mod Load
pub mod View
pub mod Rebuild
pub mod Operations
pub mod Removal
pub mod Through
pub mod Walk
use hotwired.Prelude.{
  ℕ, zero, ◌+◌, ◌-◌, ◌/◌, ◌%◌, ◌^◌, Bool, true, false, Option, none, some, List, [], ◌∷◌, length,
  get_or, set, replicate, ltb, if◌then◌else◌,
}
use Bucket.{Chain, find, take_out}
use Keys.{Key}
use Load.{above_three, above_one}

pub record Collection {ℓ} (K V : Type ℓ) : Type ℓ where
  pub n_nodes : ℕ
  pub n_buckets : ℕ
  pub buckets : List (Chain K V)

abbrev pub int_max : ℕ
int_max = 2 ^ 31 - 1

abbrev pub primes : List ℕ
primes =
    19 ∷ 31 ∷ 43 ∷ 73 ∷ 103 ∷ 193 ∷ 229 ∷ 349 ∷ 463 ∷ 523 ∷ 811 ∷ 1153 ∷ 1699 ∷ 2689 ∷ 3673 ∷ 5653
    ∷ 8539 ∷ 12843 ∷ 19149 ∷ 28753 ∷ 43051 ∷ 64663 ∷ 97003 ∷ 145513 ∷ 21803 ∷ 327211 ∷ 490969
    ∷ 736363 ∷ 1104559 ∷ 1656829 ∷ 2485123 ∷ int_max ∷ []

-- `while(primes[i] < p) i++;`. The last entry ends the loop for every `int`; past the array the
-- model answers the last entry.
unfoldable pub scan_primes : ℕ → List ℕ → ℕ
scan_primes p [] = int_max
scan_primes p (x ∷ xs) = if ltb x p then scan_primes p xs else x

unfoldable pub next_prime : ℕ → ℕ
unfolding scan_primes
next_prime p = scan_primes p primes

-- What comes next in a walk, unless the callback has stopped it.
abbrev pub go_on {ℓ} : {S : Type ℓ} → (S → S × Bool) → S × Bool → S × Bool
go_on next (s, true) = next s
go_on next (s, false) = (s, false)

module _ {ℓ} {K V : Type ℓ} where
  unfoldable pub create : Collection K V
  create = record { n_nodes = 0; n_buckets = 19; buckets = replicate 19 [] }

  unfoldable pub size : Collection K V → ℕ
  size table = table.n_nodes

  -- The callback takes its user pointer's target as a state, and its `int` is `false` to stop. It does
  -- not work on the table; the one that does, of cm_transaction_broadcast, has a walk of its own there.
  unfoldable pub iterate_chain {κ} :
      {S : Type κ} → (K → V → S → S × Bool) → Chain K V → S → S × Bool
  iterate_chain iterator [] s = (s, true)
  iterate_chain iterator (e ∷ c) s = go_on (iterate_chain iterator c) (iterator e.0 e.1 s)

  unfoldable pub iterate_buckets {κ} :
      {S : Type κ} → (K → V → S → S × Bool) → List (Chain K V) → S → S × Bool
  iterate_buckets iterator [] s = (s, true)
  iterate_buckets iterator (c ∷ cs) s =
      go_on (iterate_buckets iterator cs) (iterate_chain iterator c s)

  unfoldable pub iterate {κ} : {S : Type κ} → Collection K V → (K → V → S → S × Bool) → S → S
  iterate table iterator s = (iterate_buckets iterator table.buckets s).0

-- `key % n_buckets`, or `hash(key) % n_buckets`.
unfoldable pub slot {ℓ} : {K : Type ℓ} ⦃key : Key K⦄ → K → ℕ → ℕ
slot ⦃key⦄ k n = key.code k % n

module _ {ℓ} {K V : Type ℓ} ⦃key : Key K⦄ where
  -- A node is pushed on the front of its new bucket.
  unfoldable pub relink : ℕ → K × V → List (Chain K V) → List (Chain K V)
  relink n e fresh = let j = slot e.0 n in set fresh j (e ∷ get_or fresh j [])

  -- The inner `while` of the rebuild.
  unfoldable pub drain : ℕ → Chain K V → List (Chain K V) → List (Chain K V)
  drain n [] fresh = fresh
  drain n (e ∷ c) fresh = drain n c (relink n e fresh)

  -- The outer `for` of the rebuild.
  unfoldable pub drain_all : ℕ → List (Chain K V) → List (Chain K V) → List (Chain K V)
  drain_all n [] fresh = fresh
  drain_all n (c ∷ cs) fresh = drain_all n cs (drain n c fresh)

  unfoldable pub rebuild : Collection K V → ℕ → Collection K V
  rebuild table bucket_count = record table {
    n_buckets = bucket_count;
    buckets = drain_all bucket_count table.buckets (replicate bucket_count []);
  }

  unfoldable pub grow : Collection K V → Collection K V
  grow table =
      if above_three table.n_nodes table.n_buckets
      then rebuild table (next_prime (table.n_buckets + 1))
      else table

  unfoldable pub shrink : Collection K V → Collection K V
  shrink table =
      if above_one table.n_nodes table.n_buckets
      then rebuild table (next_prime (table.n_buckets / 2))
      else table

  -- After the table has grown. `true` is the 0 that the code returns, and `false` its -1.
  unfoldable pub insert_at : Collection K V → K → V → Collection K V × Bool
  insert_at table k v =
      let i = slot k table.n_buckets in
      let c = get_or table.buckets i [] in
      elim (find k c) [
        | some old ↦ (table, false)
        | none ↦ (
          record table { n_nodes = table.n_nodes + 1; buckets = set table.buckets i ((k, v) ∷ c) },
          true,
        )
      ]

  unfoldable pub insert : Collection K V → K → V → Collection K V × Bool
  insert table k v = insert_at (grow table) k v

  -- After the table has shrunk.
  unfoldable pub remove_at : Collection K V → K → Collection K V × Option V
  remove_at table k =
      let i = slot k table.n_buckets in
      elim (take_out k (get_or table.buckets i [])) [
        | none ↦ (table, none)
        | some (t, rest) ↦ (
          record table { n_nodes = table.n_nodes - 1; buckets = set table.buckets i rest },
          some t.1,
        )
      ]

  unfoldable pub remove : Collection K V → K → Collection K V × Option V
  remove table k = remove_at (shrink table) k

  -- The node that was found moves to the front of its bucket.
  unfoldable pub lookup : Collection K V → K → Collection K V × Option V
  lookup table k =
      let i = slot k table.n_buckets in
      elim (take_out k (get_or table.buckets i [])) [
        | none ↦ (table, none)
        | some (o, rest) ↦ (record table { buckets = set table.buckets i (o ∷ rest) }, some o.1)
      ]

-- ===== src/Collection/View.antt =====
-- Where the nodes of a table stand, and the map from keys to data that they stand for.
use mathlib.Core.List.{flatten}
use Prim.Native.Nat.{max}
use hotwired.Prelude.{
  get_or-set, ap, true, inl, inr, Bool-cases, ==_iff, ℕ, zero, suc, ◌+◌, ◌≤◌, ◌<◌, ◌≡◌, ◌≢◌, refl,
  ◌∙◌, Option, List, [], ◌∷◌, ◌==◌, length, get_or, set, length-append, replicate, if◌then◌else◌,
  arith,
}
use hotwired.Collection.Bucket.{
  Chain, tally, find, times, find-append, find-append_left, times-append,
}
use hotwired.Collection.Keys.{Key}
use hotwired.Collection.{Collection, slot}

module _ {ℓ} {A : Type ℓ} where
  -- The lengths of all chains together.
  abbrev pub total : List (List A) → ℕ
  total [] = 0
  total (c ∷ cs) = length c + total cs

  pub total-set :
      (bs : List (List A)) (i : ℕ) (c : List A)
      → i < length bs
      → total (set bs i c) + length (get_or bs i []) ≡ total bs + length c
  total-set [] i c h = absurd (omega arith)
  total-set (b ∷ bs) zero c h = omega arith
  total-set (b ∷ bs) (suc i) c h = omega (arith, total-set bs i c (omega arith))

  pub total-flatten : (bs : List (List A)) → total bs ≡ length (flatten bs)
  unfolding flatten
  total-flatten [] = refl
  total-flatten (b ∷ bs) = omega (arith, total-flatten bs, length-append b (flatten bs))

pub total-replicate {ℓ} : (A : Type ℓ) (n : ℕ) → total {A = A} (replicate n []) ≡ 0
total-replicate A zero = refl
total-replicate A (suc n) = omega (arith, total-replicate A n)

pub slot-lt {ℓ} : {K : Type ℓ} ⦃key : Key K⦄ (k : K) (n : ℕ) → 0 < n → slot k n < n
unfolding slot
slot-lt k n h = omega arith

slot_congr {ℓ} :
    {K : Type ℓ} ⦃key : Key K⦄ (q k : K) (n : ℕ) → key.same q k ≡ true → slot q n ≡ slot k n
slot_congr ⦃key⦄ q k n h = ap (λ a. slot a n) ((key.same_iff q k).0 h)

module _ {ℓ} {K V : Type ℓ} ⦃key : Key K⦄ where
  -- A key stands at most once in the table, and only in the bucket that its code selects.
  abbrev pub IsPlaced : ℕ → List (Chain K V) → Type ℓ
  IsPlaced n bs = (q : K) (i : ℕ) → times q (get_or bs i []) ≤ tally (slot q n == i)

  abbrev pub chain_of : ℕ → List (Chain K V) → K → Chain K V
  chain_of n bs k = get_or bs (slot k n) []

  pub record IsWellFormed (table : Collection K V) : Type ℓ where
    pub width : length table.buckets ≡ table.n_buckets
    pub some_bucket : 0 < table.n_buckets
    pub counted : table.n_nodes ≡ total table.buckets
    pub placed : IsPlaced table.n_buckets table.buckets

  -- The map that a table stands for.
  unfoldable pub view : Collection K V → K → Option V
  view table q = find q (chain_of table.n_buckets table.buckets q)

  abbrev pub update : (K → Option V) → K → Option V → K → Option V
  update f k v q = if key.same q k then v else f q

  -- Another chain `c` in the bucket of `k`, which differs from the old one at `k` at most.
  module _ (n : ℕ) (bs : List (Chain K V)) (k : K) (c : Chain K V)
      (inside : slot k n < length bs) where
    pub set-IsPlaced :
        IsPlaced n bs
        → ((q : K) → times q c ≤ max (tally (key.same q k)) (times q (chain_of n bs k)))
        → IsPlaced n (set bs (slot k n) c)
    set-IsPlaced placed fits q j =
        rw (get_or-set bs (slot k n) j c [] inside) (elim (Bool-cases (slot k n == j)) [
          | inl here ↦ rw here (ground (arith, placed q j, fits q, slot_congr q k n))
          | inr away ↦ rw away (placed q j)
        ])

    pub find-set :
        (v : Option V)
        → ((q : K) → find q c ≡ (if key.same q k then v else find q (chain_of n bs k)))
        → (q : K)
        → find q (chain_of n (set bs (slot k n) c) q)
          ≡ (if key.same q k then v else find q (chain_of n bs q))
    find-set v reads q =
        rw (get_or-set bs (slot k n) (slot q n) c [] inside)
          (elim (Bool-cases (slot k n == slot q n)) [
            | inl here ↦ rw (here, reads q, (==_iff (slot k n) (slot q n)).0 here) refl
            | inr away ↦ elim (Bool-cases (key.same q k)) [
              | inl hit ↦ absurd (ground (arith, slot_congr q k n hit))
              | inr miss ↦ rw (away, miss) refl
            ]
          ])

  -- How often a key stands in each bucket.
  abbrev in_bucket : K → List (Chain K V) → ℕ → ℕ
  in_bucket k cs i = times k (get_or cs i [])

  nowhere-times :
      (cs : List (Chain K V)) (k : K) → ((i : ℕ) → in_bucket k cs i ≡ 0) → times k (flatten cs) ≡ 0
  unfolding times flatten
  nowhere-times [] k none_in = refl
  nowhere-times (b ∷ cs) k none_in =
      let behind = nowhere-times cs k (λ i. none_in (suc i)) in
      omega (arith, none_in 0, behind, times-append k b (flatten cs))

  -- The sequence of all nodes reads as one chain does, at a key.
  record SameAt (k : K) (all one : Chain K V) : Type ℓ where
    data_found : find k all ≡ find k one
    times_met : times k all ≡ times k one

  -- A key of one bucket only is found in the whole sequence of nodes where it is found there.
  one_bucket :
      (cs : List (Chain K V)) (home : ℕ) (k : K)
      → ((i : ℕ) → i ≢ home → in_bucket k cs i ≡ 0)
      → SameAt k (flatten cs) (get_or cs home [])
  unfolding flatten
  one_bucket [] home k away = record { data_found = refl; times_met = refl }
  one_bucket (b ∷ cs) zero k away =
      let behind = nowhere-times cs k (λ i. away (suc i) (omega arith)) in
      record {
        data_found = find-append_left k b (flatten cs) behind;
        times_met = omega (arith, behind, times-append k b (flatten cs));
      }
  one_bucket (b ∷ cs) (suc home) k away =
      let free = away 0 (omega arith) in
      let there = one_bucket cs home k (λ i d. away (suc i) (omega (arith, d))) in
      record {
        data_found = find-append k b (flatten cs) free ∙ there.data_found;
        times_met = omega (arith, free, there.times_met, times-append k b (flatten cs));
      }

  -- All nodes in the order of the buckets: each key once, and found as the map gives it.
  pub nodes-view :
      (table : Collection K V) (q : K)
      → IsWellFormed table
      → (find q (flatten table.buckets) ≡ view table q) × (times q (flatten table.buckets) ≤ 1)
  unfolding view
  nodes-view table q w =
      let n = table.n_buckets in
      let there = one_bucket table.buckets (slot q n) q (λ i d. ground (arith, w.placed q i)) in
      (there.data_found, ground (arith, there.times_met, w.placed q (slot q n)))

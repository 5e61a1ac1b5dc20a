-- ===== src/Collection/Rebuild.antt =====
-- Moving all nodes into a new array of buckets.
use mathlib.Core.List.{flatten}
use mathlib.Core.Option.{or_else}
use Prim.Native.Nat.{max}
use hotwired.Prelude.{
  get_or-replicate, All, ap, some, ℕ, suc, ◌+◌, ◌/◌, ◌^◌, if◌then◌else◌, ltb, ◌≤◌, ◌<◌, ◌≡◌, refl,
  sym, ◌∙◌, Bool-cases, inl, inr, Option, none, List, [], ◌∷◌, ◌++◌, length, length-set, replicate,
  length-replicate, arith,
}
use hotwired.Collection.Bucket.{Chain, tally, find, times, find-eq-none, times-eq-zero}
use hotwired.Collection.Keys.{Key}
use hotwired.Collection.Load.{above_three, above_one, above_one-ltb}
use hotwired.Collection.View.{
  total, total-set, total-replicate, total-flatten, slot-lt, IsPlaced, chain_of, IsWellFormed, view,
  set-IsPlaced, find-set, nodes-view,
}
use hotwired.Collection.{
  int_max, Collection, scan_primes, next_prime, primes, slot, relink, drain, drain_all, rebuild,
  grow, shrink,
}

or_else-none {ℓ} : {A : Type ℓ} (o : Option A) → or_else o none ≡ o
unfolding or_else
or_else-none none = refl
or_else-none (some a) = refl

scan_primes_pos : (p : ℕ) (xs : List ℕ) → All (λ x. 0 < x) xs → 0 < scan_primes p xs
unfolding scan_primes
scan_primes_pos p [] h = omega arith
scan_primes_pos p (x ∷ xs) h = ground (arith, scan_primes_pos p xs)

next_prime_pos : (p : ℕ) → 0 < next_prime p
unfolding next_prime
next_prime_pos p = scan_primes_pos p primes (omega arith)

-- The scan stops at an entry that is large enough, if the last one is.
scan_primes_ge : (p : ℕ) (xs : List ℕ) → p ≤ int_max → p ≤ scan_primes p xs
unfolding scan_primes
scan_primes_ge p [] h = h
scan_primes_ge p (x ∷ xs) h = ground (arith, scan_primes_ge p xs h)

module _ {ℓ} {K V : Type ℓ} ⦃key : Key K⦄ where
  -- What a new array holds in the course of a rebuild: `size` nodes, read as `f`.
  pub record Filled (n size : ℕ) (f : K → Option V) (bs : List (Chain K V)) : Type ℓ where
    pub width : length bs ≡ n
    pub nodes : total bs ≡ size
    pub placed : IsPlaced n bs
    pub reads : (q : K) → find q (chain_of n bs q) ≡ f q

  pub push-times :
      (e : K × V) (c : Chain K V) (q : K)
      → times e.0 c ≡ 0
      → times q (e ∷ c) ≤ max (tally (key.same q e.0)) (times q c)
  unfolding times
  push-times e c q absent = elim (Bool-cases (key.same q e.0)) [
    | inl hit ↦ rw hit (omega (arith, ap (λ a. times a c) ((key.same_iff q e.0).0 hit)))
    | inr miss ↦ rw miss (omega arith)
  ]

  pub push-find :
      (e : K × V) (c : Chain K V) (q : K)
      → find q (e ∷ c) ≡ (if key.same q e.0 then some e.1 else find q c)
  unfolding find
  push-find e c q = refl

  pub empty-Filled : (n : ℕ) → Filled n 0 (λ _. none) (replicate n [])
  unfolding find times
  empty-Filled n = record {
    width = length-replicate n [];
    nodes = total-replicate (K × V) n;
    placed = λ q i. rw get_or-replicate (omega arith);
    reads = λ q. rw get_or-replicate refl;
  }

  relink-Filled :
      (n : ℕ) (e : K × V) (bs : List (Chain K V)) {size : ℕ} {f : K → Option V}
      → 0 < n
      → f e.0 ≡ none
      → Filled n size f bs
      → Filled n (suc size) (λ q. if key.same q e.0 then some e.1 else f q) (relink n e bs)
  unfolding relink
  relink-Filled n e bs {f = f} pos fresh t =
      let inside : slot e.0 n < length bs = omega (arith, slot-lt e.0 n pos, t.width) in
      let absent = times-eq-zero e.0 (chain_of n bs e.0) (t.reads e.0 ∙ fresh) in
      record {
        width = length-set bs _ _ ∙ t.width;
        nodes = omega (arith, total-set bs _ (e ∷ chain_of n bs e.0) inside, t.nodes);
        placed =
            set-IsPlaced n bs e.0 _ inside t.placed
              (λ q. push-times e (chain_of n bs e.0) q absent);
        reads = λ q.
            find-set n bs e.0 _ inside (some e.1) (λ q'. push-find e (chain_of n bs e.0) q') q
            ∙ ap (λ o. if key.same q e.0 then some e.1 else o) (t.reads q);
      }

  -- A chain whose keys are new to the array moves into it.
  drain-Filled :
      (n : ℕ) (c : Chain K V) (bs : List (Chain K V)) {size : ℕ} {f : K → Option V}
      → 0 < n
      → ((q : K) → times q c ≤ 1)
      → ((q : K) → 0 < times q c → f q ≡ none)
      → Filled n size f bs
      → Filled n (length c + size) (λ q. or_else (find q c) (f q)) (drain n c bs)
  unfolding drain find times or_else
  drain-Filled n [] bs pos once fresh t = record {
    width = t.width;
    nodes = omega (arith, t.nodes);
    placed = t.placed;
    reads = t.reads;
  }
  drain-Filled n (e ∷ c) bs {size = size} {f = f} pos once fresh t =
      let step =
        relink-Filled n e bs pos (fresh e.0 (ground (arith, (key.same_iff e.0 e.0).1 refl))) t in
      let rest =
        drain-Filled n c (relink n e bs) pos (λ q. omega (arith, once q))
          (λ q h. ground (arith, once q, fresh q)) step in
      record {
        width = rest.width;
        nodes = omega (arith, rest.nodes);
        placed = rest.placed;
        reads = λ q. rest.reads q ∙ ground (arith, once q, fresh q, find-eq-none q c);
      }

  drain-append :
      (n : ℕ) (a b : Chain K V) (bs : List (Chain K V))
      → drain n (a ++ b) bs ≡ drain n b (drain n a bs)
  unfolding drain
  drain-append n [] b bs = refl
  drain-append n (e ∷ a) b bs = drain-append n a b (relink n e bs)

  -- The two loops are one over all nodes.
  drain_all-flatten :
      (n : ℕ) (old bs : List (Chain K V)) → drain_all n old bs ≡ drain n (flatten old) bs
  unfolding drain_all drain flatten
  drain_all-flatten n [] bs = refl
  drain_all-flatten n (c ∷ cs) bs =
      drain_all-flatten n cs (drain n c bs) ∙ sym (drain-append n c (flatten cs) bs)

  -- A rebuild for any number of buckets keeps the map and the number of nodes.
  pub record Keeps (old new : Collection K V) : Type ℓ where
    pub valid : IsWellFormed new
    pub same_view : (q : K) → view new q ≡ view old q
    pub same_size : new.n_nodes ≡ old.n_nodes

  pub rebuild-Keeps :
      (table : Collection K V) (n : ℕ) → 0 < n → IsWellFormed table → Keeps table (rebuild table n)
  unfolding rebuild view or_else
  rebuild-Keeps table n pos w =
      let all = flatten table.buckets in
      let t =
        drain-Filled n all (replicate n []) pos (λ q. (nodes-view table q w).1) (λ q h. refl)
          (empty-Filled n) in
      rw drain_all-flatten record {
        valid = record {
          width = t.width;
          some_bucket = pos;
          counted = omega (arith, w.counted, total-flatten table.buckets, t.nodes);
          placed = t.placed;
        };
        same_view = λ q. t.reads q ∙ or_else-none (find q all) ∙ (nodes-view table q w).0;
        same_size = refl;
      }

  Keeps-refl : (table : Collection K V) → IsWellFormed table → Keeps table table
  Keeps-refl table w = record { valid = w; same_view = λ q. refl; same_size = refl }

  -- Growing keeps the map.
  pub grow-Keeps : (table : Collection K V) → IsWellFormed table → Keeps table (grow table)
  unfolding grow
  grow-Keeps table w = elim (Bool-cases (above_three table.n_nodes table.n_buckets)) [
    | inl h ↦ rw h (rebuild-Keeps table _ (next_prime_pos (table.n_buckets + 1)) w)
    | inr h ↦ rw h (Keeps-refl table w)
  ]

  -- Shrinking keeps the map.
  pub shrink-Keeps : (table : Collection K V) → IsWellFormed table → Keeps table (shrink table)
  unfolding shrink
  shrink-Keeps table w = elim (Bool-cases (above_one table.n_nodes table.n_buckets)) [
    | inl h ↦ rw h (rebuild-Keeps table _ (next_prime_pos (table.n_buckets / 2)) w)
    | inr h ↦ rw h (Keeps-refl table w)
  ]

  -- With fewer than 2 ^ 23 nodes and buckets, `hash_table_shrink` rebuilds a table exactly when it
  -- has more nodes than buckets, and leaves a table with spare buckets as it is.
  pub shrink_crowded :
      (table : Collection K V)
      → table.n_nodes < 2 ^ 23
      → table.n_buckets < 2 ^ 23
      → shrink table ≡ (
          if ltb table.n_buckets table.n_nodes
          then rebuild table (next_prime (table.n_buckets / 2))
          else table)
  unfolding shrink
  shrink_crowded table hn hb = rw (above_one-ltb table.n_nodes table.n_buckets hn hb) refl

-- ===== src/Collection/Operations.antt =====
-- `collection_create` and `collection_insert` against the abstract map.
use Prim.Native.Nat.{max}
use hotwired.Prelude.{
  ℕ, ◌+◌, ◌≤◌, ◌<◌, ◌≡◌, refl, sym, ap, ◌∙◌, Bool, true, false, Option-cases, inl, inr, Option,
  none, some, ◌∷◌, length, set, length-set, if◌then◌else◌, arith,
}
use hotwired.Collection.Bucket.{Chain, tally, find, times, times-eq-zero}
use hotwired.Collection.Keys.{Key}
use hotwired.Collection.Rebuild.{Keeps, grow-Keeps, push-times, push-find, empty-Filled}
use hotwired.Collection.View.{
  total-set, slot-lt, chain_of, IsWellFormed, view, update, set-IsPlaced, find-set,
}
use hotwired.Collection.{Collection, slot, create, size, insert_at, insert, grow}

-- What is counted for a result: nothing for NULL, one for a pointer.
abbrev pub held {ℓ} : {V : Type ℓ} → Option V → ℕ
held none = 0
held (some _) = 1

module _ {ℓ} {K V : Type ℓ} ⦃key : Key K⦄ where
  -- A new table is well formed and empty.
  pub create-IsWellFormed :
      let table : Collection K V = create in
      IsWellFormed table × (size table ≡ 0) × ((q : K) → view table q ≡ none)
  unfolding create size view
  create-IsWellFormed =
      let t = empty-Filled {V = V} 19 in
      (
        record {
          width = t.width;
          some_bucket = omega arith;
          counted = sym t.nodes;
          placed = t.placed;
        },
        refl,
        t.reads,
      )

  -- One bucket is replaced: `c` for the chain of `k`, which then reads as `v`.
  pub set-Changes :
      (table : Collection K V) (k : K) (c : Chain K V) (v : Option V) (nodes : ℕ)
      → IsWellFormed table
      → nodes + length (chain_of table.n_buckets table.buckets k) ≡ table.n_nodes + length c
      → ((q : K)
          → times q c
            ≤ max (tally (key.same q k)) (times q (chain_of table.n_buckets table.buckets k)))
      → ((q : K)
          → find q c
            ≡ (if key.same q k then v else find q (chain_of table.n_buckets table.buckets k)))
      → let new = record table {
        n_nodes = nodes;
        buckets = set table.buckets (slot k table.n_buckets) c;
      } in
        IsWellFormed new × ((q : K) → view new q ≡ update (view table) k v q)
  unfolding view
  set-Changes table k c v nodes w sized few reads =
      let n = table.n_buckets in
      let inside : slot k n < length table.buckets =
        omega (arith, slot-lt k n w.some_bucket, w.width) in
      (
        record {
          width = length-set table.buckets (slot k n) c ∙ w.width;
          some_bucket = w.some_bucket;
          counted = omega (arith, total-set table.buckets (slot k n) c inside, w.counted);
          placed = set-IsPlaced n table.buckets k c inside w.placed few;
        },
        find-set n table.buckets k c inside v reads,
      )

  -- A write of `v` at `k`, which finds `old` there and ends in `new`.
  pub record Writes (table : Collection K V) (k : K) (v : Option V) (new : Collection K V)
      : Type ℓ where
    pub valid : IsWellFormed new
    pub views : (q : K) → view new q ≡ update (view table) k v q
    pub sized : size new + held (view table k) ≡ size table + held v

  pub after_Keeps :
      (old table : Collection K V) (k : K) (v : Option V) (new : Collection K V)
      → Keeps old table
      → Writes table k v new
      → Writes old k v new
  unfolding size
  after_Keeps old table k v new keeps w = record {
    valid = w.valid;
    views = λ q. w.views q ∙ ap (λ o. if key.same q k then v else o) (keeps.same_view q);
    sized = omega (arith, w.sized, keeps.same_size, ap held (keeps.same_view k));
  }

  -- `insert` after the growth, where the key is free.
  insert_at-absent :
      (table : Collection K V) (k : K) (x : V)
      → IsWellFormed table
      → view table k ≡ none
      → ((insert_at table k x).1 ≡ true) × Writes table k (some x) (insert_at table k x).0
  unfolding insert_at view size
  insert_at-absent table k x w e =
      let c = chain_of table.n_buckets table.buckets k in
      let absent = times-eq-zero k c e in
      let (valid, views) =
        set-Changes table k ((k, x) ∷ c) (some x) (table.n_nodes + 1) w (omega arith)
          (λ q. push-times (k, x) c q absent) (push-find (k, x) c) in
      rw (e, insert_at) (refl, record { valid = valid; views = views; sized = rw e (omega arith) })

  insert_at-present :
      (table : Collection K V) (k : K) (x old : V)
      → view table k ≡ some old
      → insert_at table k x ≡ (table, false)
  unfolding insert_at view
  insert_at-present table k x old e = rw (e, insert_at) refl

  -- What `insert` answers and leaves, by what the map held at the key.
  abbrev pub InsertResult : Collection K V → K → V → Option V → Collection K V × Bool → Type ℓ
  InsertResult table k x none r = (r.1 ≡ true) × Writes table k (some x) r.0
  InsertResult table k x (some old) r = (r.1 ≡ false) × Keeps table r.0

  -- On a well-formed table, `insert` stores a pointer under a key that is free and answers 0, and
  -- answers -1 and changes no entry where the key is taken; the table stays well formed, also
  -- where it grows first.
  pub insert_lem :
      (table : Collection K V) (k : K) (x : V)
      → IsWellFormed table
      → InsertResult table k x (view table k) (insert table k x)
  unfolding insert
  insert_lem table k x w =
      let g = grow-Keeps table w in
      elim (Option-cases (view table k)) [
        | inl e ↦
            let (done, writes) = insert_at-absent (grow table) k x g.valid (g.same_view k ∙ e) in
            rw e (done, after_Keeps table (grow table) k (some x) _ g writes)
        | inr (old, e) ↦
            let kept = insert_at-present (grow table) k x old (g.same_view k ∙ e) in
            rw (e, kept) (refl, g)
      ]

  pub insert-IsWellFormed :
      (table : Collection K V) (k : K) (x : V)
      → IsWellFormed table
      → IsWellFormed (insert table k x).0
  insert-IsWellFormed table k x w = split (view table k) (insert_lem table k x w)
    where
      split :
          (o : Option V)
          → InsertResult table k x o (insert table k x)
          → IsWellFormed (insert table k x).0
      split none r = r.1.valid
      split (some old) r = r.1.valid

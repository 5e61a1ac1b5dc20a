-- ===== src/Collection/Removal.antt =====
-- `collection_remove` and `collection_lookup` against the abstract map.
use Prim.Native.Nat.{max}
use hotwired.Prelude.{
  ◌-◌, ◌≤◌, ◌<◌, ◌≡◌, refl, sym, ap, ◌∙◌, Bool-cases, inl, inr, Option, none, some, [], ◌∷◌, set,
  if◌then◌else◌, arith,
}
use hotwired.Collection.Bucket.{
  Chain, tally, find, times, find-eq-none, take_out, TakesOut, Taken, take_out-Taken,
}
use hotwired.Collection.Keys.{Key}
use hotwired.Collection.Rebuild.{Keeps, shrink-Keeps, push-find}
use hotwired.Collection.View.{total-set, slot-lt, chain_of, IsWellFormed, view}
use hotwired.Collection.{Collection, slot, size, remove_at, remove, lookup, shrink}
use hotwired.Collection.Operations.{set-Changes, after_Keeps, Writes}

module _ {ℓ} {K V : Type ℓ} ⦃key : Key K⦄ where
  -- What follows from cutting the node of a key out of its bucket.
  module _ (table : Collection K V) (k : K) (o : K × V) (rest : Chain K V) (w : IsWellFormed table)
      (t : TakesOut k (chain_of table.n_buckets table.buckets k) o rest) where
    cut-gone : times k rest ≡ 0
    cut-gone =
        ground (arith, t.counted k, w.placed k (slot k table.n_buckets), (key.same_iff k k).1 refl)

    cut-find :
        (q : K)
        → find q rest
          ≡ (if key.same q k then none else find q (chain_of table.n_buckets table.buckets k))
    cut-find q = elim (Bool-cases (key.same q k)) [
      | inl hit ↦
          rw hit
            (find-eq-none q rest (ap (λ a. times a rest) ((key.same_iff q k).0 hit) ∙ cut-gone))
      | inr miss ↦ rw miss (sym (t.others q miss))
    ]

    cut-times :
        (q : K)
        → times q rest
          ≤ max (tally (key.same q k)) (times q (chain_of table.n_buckets table.buckets k))
    cut-times q = omega (arith, t.counted q)

    some_node : 0 < table.n_nodes
    some_node =
        let i = slot k table.n_buckets in
        omega (
          arith,
          total-set table.buckets i []
              (omega (arith, slot-lt k table.n_buckets w.some_bucket, w.width)),
          t.shorter,
          w.counted,
        )

    cut-Writes : Writes table k none (record table {
      n_nodes = table.n_nodes - 1;
      buckets = set table.buckets (slot k table.n_buckets) rest;
    })
    unfolding view size
    cut-Writes =
        let (valid, views) =
          set-Changes table k rest none (table.n_nodes - 1) w (omega (arith, t.shorter, some_node))
            cut-times cut-find in
        record { valid = valid; views = views; sized = rw t.found (omega (arith, some_node)) }

    front-times :
        (q : K)
        → times q (o ∷ rest)
          ≤ max (tally (key.same q k)) (times q (chain_of table.n_buckets table.buckets k))
    unfolding times
    front-times q = omega (arith, t.counted q, ap (λ a. tally (key.same q a)) t.key_of)

    front-find :
        (q : K)
        → find q (o ∷ rest)
          ≡ (if key.same q k then some o.1 else find q (chain_of table.n_buckets table.buckets k))
    front-find q =
        push-find o rest q
        ∙ ap (λ a. if key.same q a then some o.1 else find q rest) t.key_of
        ∙ elim (Bool-cases (key.same q k)) [
          | inl hit ↦ rw hit refl
          | inr miss ↦ rw miss (sym (t.others q miss))
        ]

    -- The node at the front of its bucket.
    front-Keeps :
        Keeps table
          (record table { buckets = set table.buckets (slot k table.n_buckets) (o ∷ rest) })
    unfolding view
    front-Keeps =
        let (valid, views) =
          set-Changes table k (o ∷ rest) (some o.1) table.n_nodes w (omega (arith, t.shorter))
            front-times front-find in
        record {
          valid = valid;
          same_view = λ q. views q ∙ elim (Bool-cases (key.same q k)) [
            | inl hit ↦ rw hit (sym (ap (view table) ((key.same_iff q k).0 hit) ∙ t.found))
            | inr miss ↦ rw miss refl
          ];
          same_size = refl;
        }

  -- The bucket's `take_out` decides `remove` and `lookup`.
  RemoveResult : Collection K V → K → Collection K V × Option V → Type ℓ
  RemoveResult table k r = (r.1 ≡ view table k) × Writes table k none r.0

  remove_at-RemoveResult :
      (table : Collection K V) (k : K) (t : Option ((K × V) × Chain K V))
      → IsWellFormed table
      → take_out k (chain_of table.n_buckets table.buckets k) ≡ t
      → Taken k (chain_of table.n_buckets table.buckets k) t
      → RemoveResult table k (remove_at table k)
  unfolding RemoveResult remove_at view size
  remove_at-RemoveResult table k none w e absent =
      rw (e, remove_at)
        (
          sym absent,
          record {
            valid = w;
            views = λ q. elim (Bool-cases (key.same q k)) [
              | inl hit ↦ rw hit (ap (view table) ((key.same_iff q k).0 hit) ∙ absent)
              | inr miss ↦ rw miss refl
            ];
            sized = rw absent refl;
          },
        )
  remove_at-RemoveResult table k (some (o, rest)) w e t =
      rw (e, remove_at) (sym t.found, cut-Writes table k o rest w t)

  -- `remove` returns the pointer of the key, or NULL where it has none, and deletes that entry
  -- and no other; the table stays well formed, also where it shrinks first.
  pub remove_lem :
      (table : Collection K V) (k : K)
      → IsWellFormed table
      → ((remove table k).1 ≡ view table k) × Writes table k none (remove table k).0
  unfolding remove RemoveResult
  remove_lem table k w =
      let s = shrink-Keeps table w in
      let c = chain_of (shrink table).n_buckets (shrink table).buckets k in
      let (answer, writes) =
        remove_at-RemoveResult (shrink table) k (take_out k c) s.valid refl (take_out-Taken k c) in
      (answer ∙ s.same_view k, after_Keeps table (shrink table) k none _ s writes)

  lookup_step :
      (table : Collection K V) (k : K) (t : Option ((K × V) × Chain K V))
      → IsWellFormed table
      → take_out k (chain_of table.n_buckets table.buckets k) ≡ t
      → Taken k (chain_of table.n_buckets table.buckets k) t
      → ((lookup table k).1 ≡ view table k) × Keeps table (lookup table k).0
  unfolding lookup view
  lookup_step table k none w e absent =
      rw (e, lookup) (sym absent, record { valid = w; same_view = λ q. refl; same_size = refl })
  lookup_step table k (some (o, rest)) w e t =
      rw (e, lookup) (sym t.found, front-Keeps table k o rest w t)

  -- `lookup` returns the pointer of the key, or NULL; moving the node to the front of its bucket
  -- changes no entry and no times, and keeps the table well formed.
  pub lookup_lem :
      (table : Collection K V) (k : K)
      → IsWellFormed table
      → ((lookup table k).1 ≡ view table k) × Keeps table (lookup table k).0
  lookup_lem table k w =
      let c = chain_of table.n_buckets table.buckets k in
      lookup_step table k (take_out k c) w refl (take_out-Taken k c)

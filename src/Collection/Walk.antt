-- ===== src/Collection/Walk.antt =====
-- `collection_iterate`: which nodes the callback sees.
use mathlib.Core.List.{flatten}
use hotwired.Prelude.{
  ◌≤◌, ◌≡◌, refl, sym, ap, ◌∙◌, Bool, true, false, List, [], ◌∷◌, ◌++◌, length, arith,
}
use hotwired.Collection.Bucket.{Chain, find, times}
use hotwired.Collection.Keys.{Key}
use hotwired.Collection.View.{total-flatten, IsWellFormed, view, nodes-view}
use hotwired.Collection.{Collection, size, go_on, iterate_chain, iterate_buckets, iterate}

module _ {ℓ κ} {K V : Type ℓ} {S : Type κ} (iterator : K → V → S → S × Bool) where
  go_on_assoc :
      (f g : S → S × Bool) (r : S × Bool) → go_on g (go_on f r) ≡ go_on (λ s. go_on g (f s)) r
  go_on_assoc f g (s, true) = refl
  go_on_assoc f g (s, false) = refl

  go_on_congr : (f g : S → S × Bool) (r : S × Bool) → ((s : S) → f s ≡ g s) → go_on f r ≡ go_on g r
  go_on_congr f g (s, true) h = h s
  go_on_congr f g (s, false) h = refl

  iterate_chain-append :
      (a b : Chain K V) (s : S)
      → iterate_chain iterator (a ++ b) s
        ≡ go_on (iterate_chain iterator b) (iterate_chain iterator a s)
  unfolding iterate_chain
  iterate_chain-append [] b s = refl
  iterate_chain-append (e ∷ a) b s =
      go_on_congr (iterate_chain iterator (a ++ b)) _ (iterator e.0 e.1 s)
        (λ s'. iterate_chain-append a b s')
      ∙ sym (go_on_assoc (iterate_chain iterator a) (iterate_chain iterator b) (iterator e.0 e.1 s))

  -- The two loops are one over all nodes.
  iterate_buckets-flatten :
      (bs : List (Chain K V)) (s : S)
      → iterate_buckets iterator bs s ≡ iterate_chain iterator (flatten bs) s
  unfolding flatten iterate_buckets iterate_chain
  iterate_buckets-flatten [] s = refl
  iterate_buckets-flatten (c ∷ cs) s =
      go_on_congr _ _ (iterate_chain iterator c s) (iterate_buckets-flatten cs)
      ∙ sym (iterate_chain-append c (flatten cs) s)

module _ {ℓ} {K V : Type ℓ} ⦃key : Key K⦄ where
  -- The nodes that a walk over a well-formed table goes through hold each entry of the table once
  -- and nothing else, and they are as many as the size says. A callback that does not itself work on
  -- the table, as that of cm_transaction_broadcast does, is called on them in turn, until it stops
  -- the walk.
  pub iterate_lem :
      (table : Collection K V)
      → IsWellFormed table
      → (nodes : Chain K V) × ((q : K) → (find q nodes ≡ view table q) × (times q nodes ≤ 1))
        × (length nodes ≡ size table)
        × ((S : Type ℓ) (iterator : K → V → S → S × Bool) (s : S)
            → iterate table iterator s ≡ (iterate_chain iterator nodes s).0)
  unfolding iterate size
  iterate_lem table w = (
    flatten table.buckets,
    λ q. nodes-view table q w,
    omega (arith, w.counted, total-flatten table.buckets),
    λ S iterator s. ap (λ (r : S × Bool). r.0) (iterate_buckets-flatten iterator table.buckets s),
  )

-- ===== src/Collection/Through.antt =====
-- A write through a data pointer that a lookup returned. The table owns what its pointers point to,
-- and no two of them point to the same, so that one entry changes.
use hotwired.Prelude.{
  ◌≡◌, refl, ap, sym, Bool-cases, inl, inr, some, [], ◌∷◌, length, set, get_or, if◌then◌else◌,
  arith,
}
use hotwired.Collection.Bucket.{Chain, find, times}
use hotwired.Collection.Keys.{Key}
use hotwired.Collection.Operations.{Writes, set-Changes, held}
use hotwired.Collection.View.{IsWellFormed, view, chain_of}
use hotwired.Collection.{Collection, slot, size}

module _ {ℓ} {K V : Type ℓ} ⦃key : Key K⦄ where
  unfoldable pub patch : K → (V → V) → Chain K V → Chain K V
  patch k write [] = []
  patch k write (node ∷ next) =
      if key.same k node.0 then (node.0, write node.1) ∷ next else node ∷ patch k write next

  unfoldable pub write_through : Collection K V → K → (V → V) → Collection K V
  write_through table k write =
      let i = slot k table.n_buckets in
      record table { buckets = set table.buckets i (patch k write (get_or table.buckets i [])) }

  patch-length :
      (k : K) (write : V → V) (next : Chain K V) → length (patch k write next) ≡ length next
  unfolding patch
  patch-length k write [] = refl
  patch-length k write (node ∷ next) = ground (arith, patch-length k write next)

  patch-times :
      (k q : K) (write : V → V) (next : Chain K V) → times q (patch k write next) ≡ times q next
  unfolding patch times
  patch-times k q write [] = refl
  patch-times k q write (node ∷ next) = ground (arith, patch-times k q write next)

  patch-find :
      (k q : K) (write : V → V) (old : V) (next : Chain K V)
      → find k next ≡ some old
      → find q (patch k write next) ≡ (if key.same q k then some (write old) else find q next)
  unfolding patch find
  patch-find k q write old [] h = cc
  patch-find k q write old (node ∷ next) h = elim (Bool-cases (key.same k node.0)) [
    | inl here ↦
        let at = (key.same_iff k node.0).0 here in
        let same : key.same q node.0 ≡ key.same q k = ap (key.same q) (sym at) in
        ground (arith, here, same, h)
    | inr away ↦ elim (Bool-cases (key.same q k)) [
      | inl hit ↦
          let at = (key.same_iff q k).0 hit in
          let same : key.same q node.0 ≡ key.same k node.0 = ap (λ a. key.same a node.0) at in
          ground (arith, away, same, h, hit, patch-find k q write old next)
      | inr miss ↦ ground (arith, away, miss, h, patch-find k q write old next)
    ]
  ]

  pub write_through-Writes :
      (table : Collection K V) (k : K) (write : V → V) (old : V)
      → IsWellFormed table
      → view table k ≡ some old
      → Writes table k (some (write old)) (write_through table k write)
  unfolding write_through view size
  write_through-Writes table k write old w h =
      let c = chain_of table.n_buckets table.buckets k in
      let (valid, views) =
        set-Changes table k (patch k write c) (some (write old)) table.n_nodes w
          (omega (arith, patch-length k write c)) (λ q. omega (arith, patch-times k q write c))
          (λ q. patch-find k q write old c h) in
      record { valid = valid; views = views; sized = omega (arith, ap held h) }

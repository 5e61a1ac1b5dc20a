-- ===== src/Collection/Bucket.antt =====
-- One bucket of Collection.c and HashTable.c: a singly linked list of nodes, which nothing else
-- points to. A node is its key and its data pointer.
use hotwired.Prelude.{
  ℕ, suc, ◌+◌, ◌≡◌, refl, Bool, true, false, Option, none, some, List, [], ◌∷◌, ◌++◌, length,
  if◌then◌else◌, arith, sym, ap, inl, inr, Bool-cases,
}
use hotwired.Collection.Keys.{Key}

abbrev pub Chain {ℓ} : Type ℓ → Type ℓ → Type ℓ
Chain K V = List (K × V)

abbrev pub tally : Bool → ℕ
tally true = 1
tally false = 0

-- `x` goes back in front of what was cut off behind it.
abbrev pub behind {ℓ} : {A : Type ℓ} → A → Option (A × List A) → Option (A × List A)
behind x none = none
behind x (some (a, rest)) = some (a, x ∷ rest)

module _ {ℓ} {K V : Type ℓ} ⦃key : Key K⦄ where
  -- The data of the first node with the key, as the `while` loops search for it.
  unfoldable pub find : K → Chain K V → Option V
  find k [] = none
  find k (e ∷ c) = if key.same k e.0 then some e.1 else find k c

  -- The first node with the key, and the chain with that node unlinked.
  unfoldable pub take_out : K → Chain K V → Option ((K × V) × Chain K V)
  take_out k [] = none
  take_out k (e ∷ c) = if key.same k e.0 then some (e, c) else behind e (take_out k c)

  -- How often a key stands in a chain.
  unfoldable pub times : K → Chain K V → ℕ
  times q [] = 0
  times q (e ∷ c) = tally (key.same q e.0) + times q c

  pub find-eq-none : (q : K) (c : Chain K V) → times q c ≡ 0 → find q c ≡ none
  unfolding find times
  find-eq-none q [] h = refl
  find-eq-none q (e ∷ c) h = ground (arith, find-eq-none q c)

  pub times-eq-zero : (q : K) (c : Chain K V) → find q c ≡ none → times q c ≡ 0
  unfolding find times
  times-eq-zero q [] h = refl
  times-eq-zero q (e ∷ c) h = ground (arith, times-eq-zero q c)

  pub find-append : (q : K) (a b : Chain K V) → times q a ≡ 0 → find q (a ++ b) ≡ find q b
  unfolding find times
  find-append q [] b h = refl
  find-append q (e ∷ a) b h = ground (arith, find-append q a b)

  pub find-append_left : (q : K) (a b : Chain K V) → times q b ≡ 0 → find q (a ++ b) ≡ find q a
  unfolding find times
  find-append_left q [] b h = find-eq-none q b h
  find-append_left q (e ∷ a) b h = ground (arith, find-append_left q a b)

  pub times-append : (q : K) (a b : Chain K V) → times q (a ++ b) ≡ times q a + times q b
  unfolding times
  times-append q [] b = omega arith
  times-append q (e ∷ a) b = omega (arith, times-append q a b)

  -- What cutting a node out does to a chain.
  pub record TakesOut (k : K) (c : Chain K V) (e : K × V) (rest : Chain K V) : Type ℓ where
    pub key_of : e.0 ≡ k
    pub found : find k c ≡ some e.1
    pub shorter : length c ≡ suc (length rest)
    pub counted : (q : K) → times q c ≡ tally (key.same q k) + times q rest
    pub others : (q : K) → key.same q k ≡ false → find q c ≡ find q rest

  abbrev pub Taken : K → Chain K V → Option ((K × V) × Chain K V) → Type ℓ
  Taken k c none = find k c ≡ none
  Taken k c (some (e, rest)) = TakesOut k c e rest

  behind-Taken :
      (k : K) (x : K × V) (c : Chain K V) (r : Option ((K × V) × Chain K V))
      → key.same k x.0 ≡ false
      → Taken k c r
      → Taken k (x ∷ c) (behind x r)
  unfolding find times
  behind-Taken k x c none h t = ground arith
  behind-Taken k x c (some (e, rest)) h t = record {
    key_of = t.key_of;
    found = ground (arith, t.found);
    shorter = omega (arith, t.shorter);
    counted = λ q. omega (arith, t.counted q);
    others = λ q d. ground (arith, t.others q d);
  }

  head-TakesOut :
      (k : K) (e : K × V) (c : Chain K V) → key.same k e.0 ≡ true → TakesOut k (e ∷ c) e c
  unfolding find times
  head-TakesOut k e c h =
      let at : k ≡ e.0 = (key.same_iff k e.0).0 h in
      record {
        key_of = sym at;
        found = ground arith;
        shorter = refl;
        counted = λ q. rw at refl;
        others = λ q d. ground (arith, ap (key.same q) at);
      }

  -- `take_out` finds what `find` finds, and cuts out that node only.
  pub take_out-Taken : (k : K) (c : Chain K V) → Taken k c (take_out k c)
  unfolding take_out find
  take_out-Taken k [] = refl
  take_out-Taken k (e ∷ c) = elim (Bool-cases (key.same k e.0)) [
    | inl h ↦ rw h (head-TakesOut k e c h)
    | inr h ↦ rw h (behind-Taken k e c (take_out k c) h (take_out-Taken k c))
  ]

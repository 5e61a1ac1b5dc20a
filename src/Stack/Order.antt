-- ===== src/Stack/Order.antt =====
-- The order in which data leaves the stack, and the count.
use hotwired.Prelude.{◌+◌, ◌^◌, ◌<◌, ◌≡◌, refl, ap, some, List, [], ◌∷◌, length, arith}
use hotwired.Stack.{Stack, push, pop, peek}

module _ {ℓ} {A : Type ℓ} where
  abbrev pub IsCounted : Stack A → Type 0
  IsCounted stack = (stack.count ≡ length stack.root) × (length stack.root < 2 ^ 32)

  -- Pushes of a whole list, and the data that so many pops return.
  unfoldable pub push_all : Stack A → List A → Stack A
  push_all stack [] = stack
  push_all stack (x ∷ xs) = push_all (push stack x) xs

  unfoldable pub reversed : List A → List A → List A
  reversed [] behind = behind
  reversed (x ∷ xs) behind = reversed xs (x ∷ behind)

  -- What is pushed lies on the stack with the last on top and the old data below; the count stays
  -- the number of nodes, the next pop returns what a peek shows, and a pop undoes a push.
  pub push_all_lem :
      (xs : List A) (stack : Stack A)
      → IsCounted stack
      → length stack.root + length xs < 2 ^ 32
      → ((push_all stack xs).root ≡ reversed xs stack.root)
        × IsCounted (push_all stack xs)
        × ((pop (push_all stack xs)).1 ≡ peek (push_all stack xs))
        × ((x : A) → pop (push stack x) ≡ (stack, some x))
  unfolding push_all reversed push pop peek
  push_all_lem [] stack w h = (
    refl,
    w,
    same_top stack.root,
    λ x. ap (λ n. (record stack { count = n }, some x)) (omega (arith, w, h)),
  )
    where
      same_top :
          (l : List A) → (pop (record stack { root = l })).1 ≡ peek (record stack { root = l })
      same_top [] = refl
      same_top (x ∷ l) = refl
  push_all_lem (x ∷ xs) stack w h =
      let (order, counted, shown, undone) =
        push_all_lem xs (push stack x) (omega (arith, w.0, w.1, h), omega (arith, h))
          (omega (arith, h)) in
      (
        order,
        counted,
        shown,
        λ y. ap (λ n. (record stack { count = n }, some y)) (omega (arith, w.0, w.1)),
      )

-- ===== src/Stack.antt =====
-- Stack.c: a linked stack with a count. The nodes that hang on `root` are the list of their data.
pub mod Order
use hotwired.Prelude.{ℕ, ◌+◌, ◌-◌, ◌%◌, ◌^◌, Option, none, some, List, [], ◌∷◌}

pub record Stack {ℓ} (A : Type ℓ) : Type ℓ where
  pub root : List A
  pub count : ℕ

module _ {ℓ} {A : Type ℓ} where
  unfoldable pub create : Stack A
  create = record { root = []; count = 0 }

  -- The count is an `unsigned int`.
  unfoldable pub push : Stack A → A → Stack A
  push stack x = record { root = x ∷ stack.root; count = (stack.count + 1) % 2 ^ 32 }

  abbrev pub popped : List A → ℕ → Stack A × Option A
  popped [] n = (record { root = []; count = n }, none)
  popped (x ∷ l) n = (record { root = l; count = (n + 2 ^ 32 - 1) % 2 ^ 32 }, some x)

  -- `none` is NULL.
  unfoldable pub pop : Stack A → Stack A × Option A
  pop stack = popped stack.root stack.count

  abbrev top : List A → Option A
  top [] = none
  top (x ∷ l) = some x

  unfoldable pub peek : Stack A → Option A
  peek stack = top stack.root

  unfoldable pub size : Stack A → ℕ
  size stack = stack.count

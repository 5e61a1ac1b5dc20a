-- ===== src/Prelude/Bytes.antt =====
-- Bytes and words in network byte order, and checks of small ranges by evaluation.
use Prim.Native.Nat.{ℕ, zero, suc, ◌+◌, ◌*◌, ◌/◌, ◌%◌, ◌^◌, ◌<◌}
use mathlib.Core.Path.{◌≡◌}
use mathlib.Core.Bool.{Bool, true, ◌&&◌}
use mathlib.Core.List.{List, [], ◌∷◌, ◌++◌}
use native.Mathlib.Omega.{arith}

-- `htons` and `htonl` as they come to lie in memory.
abbrev pub be16 : ℕ → List ℕ
be16 v = (v / 256 % 256) ∷ (v % 256) ∷ []

abbrev pub be32 : ℕ → List ℕ
be32 v = (v / 2 ^ 24 % 256) ∷ (v / 2 ^ 16 % 256) ∷ (v / 256 % 256) ∷ (v % 256) ∷ []

-- `ntohs` and `ntohl` of the first bytes.
abbrev pub get16 : List ℕ → ℕ
get16 (a ∷ b ∷ bs) = a * 256 + b
get16 (a ∷ []) = 0
get16 [] = 0

abbrev pub get32 : List ℕ → ℕ
get32 (a ∷ b ∷ c ∷ d ∷ bs) = a * 2 ^ 24 + b * 2 ^ 16 + c * 256 + d
get32 bs = 0

pub get16-be16 : (v : ℕ) (bs : List ℕ) → v < 2 ^ 16 → get16 (be16 v ++ bs) ≡ v
get16-be16 v bs h = omega arith

pub get32-be32 : (v : ℕ) (bs : List ℕ) → v < 2 ^ 32 → get32 (be32 v ++ bs) ≡ v
get32-be32 v bs h = omega arith

unfoldable pub every : ℕ → (ℕ → Bool) → Bool
every zero test = true
every (suc n) test = test n && every n test

-- A test that passes on all numbers below `n`, by evaluation, passes on each.
pub every_lem : (n : ℕ) (test : ℕ → Bool) (x : ℕ) → every n test ≡ true → x < n → test x ≡ true
unfolding every
every_lem zero test x h lt = absurd (omega arith)
every_lem (suc n) test x h lt = ground (arith, every_lem n test x)

-- ===== src/Collection/Load.antt =====
-- The load tests of Collection.c and HashTable.c, `(float)n / (float)b > 3.0f` and `> 1.0f`, in
-- IEEE single precision: a conversion keeps 24 significant bits, and ties go to an even mantissa.
use hotwired.Prelude.{ℕ, ◌+◌, ◌*◌, ◌/◌, ◌%◌, ◌^◌, ◌<◌, ◌≡◌, Bool, ltb, if◌then◌else◌, arith}

-- `n` rounded to a multiple of `u`, which is 2 ^ 1 to 2 ^ 7 here.
round_to : ℕ → ℕ → ℕ
round_to u n =
    let q = n / u in
    let r = n % u in
    if ltb (2 * r) u then q * u else if ltb u (2 * r) then (q + 1) * u else (q + q % 2) * u

-- `(float)n` of an `int` that is not negative.
unfoldable pub to_float : ℕ → ℕ
unfolding round_to
to_float n =
    if ltb n (2 ^ 24)
    then n
    else if ltb n (2 ^ 25)
    then round_to (2 ^ 1) n
    else if ltb n (2 ^ 26)
    then round_to (2 ^ 2) n
    else if ltb n (2 ^ 27)
    then round_to (2 ^ 3) n
    else if ltb n (2 ^ 28)
    then round_to (2 ^ 4) n
    else if ltb n (2 ^ 29)
    then round_to (2 ^ 5) n
    else if ltb n (2 ^ 30)
    then round_to (2 ^ 6) n
    else round_to (2 ^ 7) n

-- A quotient rounds to more than 3.0f if it is above the middle of 3.0f and its successor, which
-- is 3 + 2 ^ -23: the middle itself goes to 3.0f, whose mantissa is even. For 1.0f it is
-- 1 + 2 ^ -24.
unfoldable pub above_three : ℕ → ℕ → Bool
above_three n b = ltb ((3 * 2 ^ 23 + 1) * to_float b) (2 ^ 23 * to_float n)

unfoldable pub above_one : ℕ → ℕ → Bool
above_one n b = ltb ((2 ^ 24 + 1) * to_float b) (2 ^ 24 * to_float n)

to_float_small : (n : ℕ) → n < 2 ^ 24 → to_float n ≡ n
unfolding to_float
to_float_small n h = ground arith

ltb_congr : (a b c d : ℕ) → (a < b → c < d) → (c < d → a < b) → ltb a b ≡ ltb c d
ltb_congr a b c d f g = ground arith

-- With few nodes and buckets the tests are those on the exact quotient.
pub above_three-ltb : (n b : ℕ) → n < 2 ^ 23 → b < 2 ^ 23 → above_three n b ≡ ltb (3 * b) n
unfolding above_three
above_three-ltb n b hn hb =
    rw (to_float_small n (omega arith), to_float_small b (omega arith))
      (ltb_congr _ _ (3 * b) n (λ h. omega arith) (λ h. omega arith))

pub above_one-ltb : (n b : ℕ) → n < 2 ^ 23 → b < 2 ^ 23 → above_one n b ≡ ltb b n
unfolding above_one
above_one-ltb n b hn hb =
    rw (to_float_small n (omega arith), to_float_small b (omega arith))
      (ltb_congr _ _ b n (λ h. omega arith) (λ h. omega arith))

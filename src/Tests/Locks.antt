-- ===== src/Tests/Locks.antt =====
-- RCL.c and password.c.
use hotwired.Prelude.{
  ℕ, ◌+◌, ◌≤◌, ◌<◌, ◌≡◌, refl, sym, true, false, Option, some, List, [], ◌∷◌, ◌++◌, take, ◌⊎◌,
  arith,
}
use hotwired.Rcl.Exclusion.{Reach-alone}
use hotwired.Rcl.Progress.{Reach-progress}
use hotwired.Rcl.Wakeup.{Reach-together}
use hotwired.Rcl.{
  Rcl, create, Inner, write_take, write_free, write_reserve, inner, call, Reach, start, next,
}

-- Of two threads, one writes.
abbrev one_writes : Rcl
one_writes = record {
  entry_lock = 1;
  rc_lock = 1;
  rc = 0;
  idle = 1;
  read_entry = 0;
  read_rc = 0;
  read_counted = 0;
  reading = 0;
  unread = 0;
  reserved = 0;
  write_rc = 0;
  waiting = 0;
  signalled = 0;
  writing = 1;
  unwritten = 0;
}

one_writes-Reach : Reach false 2 one_writes
unfolding create
one_writes-Reach =
    let first : Reach false 2 (create 2) = start in
    let a = next first (call (write_reserve (omega arith) refl)) in
    let b = next a (inner (write_take (omega arith) refl)) in
    next b (inner (write_free (omega arith) refl))

Reach-alone_example : (one_writes.writing ≤ 1) × ((0 < one_writes.writing) → one_writes.reading ≡ 0)
Reach-alone_example = Reach-alone one_writes-Reach

-- One has begun to write.
abbrev one_reserves : Rcl
one_reserves = record {
  entry_lock = 1;
  rc_lock = 0;
  rc = 0;
  idle = 1;
  read_entry = 0;
  read_rc = 0;
  read_counted = 0;
  reading = 0;
  unread = 0;
  reserved = 1;
  write_rc = 0;
  waiting = 0;
  signalled = 0;
  writing = 0;
  unwritten = 0;
}

one_reserves-Reach : Reach false 2 one_reserves
unfolding create
one_reserves-Reach =
    let first : Reach false 2 (create 2) = start in
    next first (call (write_reserve (omega arith) refl))

Reach-progress_example : ((t : Rcl) × Inner one_reserves t) ⊎ (0 < 0 + 0)
Reach-progress_example = Reach-progress one_reserves-Reach (omega arith)

Reach-together_example : (s : Rcl) × Reach true 2 s × (0 < s.reading) × (0 < s.writing)
Reach-together_example = Reach-together 2 (omega arith)

-- The key behind the salt.
abbrev plain_crypt : List ℕ → List ℕ → Option (List ℕ)
plain_crypt key salt = some (take 2 salt ++ key)

abbrev secret : List ℕ
secret = b'A' ∷ b'B' ∷ b'h' ∷ b'i' ∷ []

plain_crypt-salted :
    (a b : ℕ) (key pw : List ℕ) → plain_crypt key (a ∷ b ∷ []) ≡ some pw → take 2 pw ≡ a ∷ b ∷ []
plain_crypt-salted a b key pw e = let same : a ∷ b ∷ key ≡ pw = cc in rw (sym same) refl

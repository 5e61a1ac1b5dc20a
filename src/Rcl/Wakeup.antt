-- ===== src/Rcl/Wakeup.antt =====
-- What a wait that ends with no signal does: the test of `rcl_write_complete_lock` stands under an
-- `if`, so that the count is not looked at again.
use hotwired.Rcl.{
  Rcl, create, read_take, read_count, read_open, write_take, write_wait, read_lock, write_reserve,
  wake, inner, call, chance, Reach, start, next,
}
use hotwired.Prelude.{ℕ, ◌<◌, refl, true, arith}

-- Where pthread_cond_wait may return with no signal, two or more threads reach a state with a reader
-- and a writer inside.
pub Reach-together :
    (threads : ℕ)
    → 1 < threads
    → (s : Rcl) × Reach true threads s × (0 < s.reading) × (0 < s.writing)
unfolding create
Reach-together threads h =
    let first : Reach true threads (create threads) = start in
    let a = next first (call (read_lock (omega arith) refl)) in
    let b = next a (inner (read_take (omega arith) refl)) in
    let c = next b (inner (read_count (omega arith))) in
    let d = next c (inner (read_open (omega arith))) in
    let e = next d (call (write_reserve (omega arith) refl)) in
    let f = next e (inner (write_take (omega arith) refl)) in
    let g = next f (inner (write_wait (omega arith) (omega arith))) in
    (_, next g (chance refl (wake (omega arith) refl)), omega arith, omega arith)

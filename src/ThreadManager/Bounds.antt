-- ===== src/ThreadManager/Bounds.antt =====
-- The limits of the pool.
use mathlib.Core.Path.{subst}
use hotwired.Prelude.{
  ℕ, suc, ◌+◌, ◌^◌, ◌≤◌, ◌<◌, ◌≡◌, refl, some, List, [], ◌∷◌, length, leb, arith, Bool-cases, inl,
  inr, Bool, true, false,
}
use hotwired.Stack
use hotwired.Stack.{Stack}
use hotwired.Stack.Order.{IsCounted}
use hotwired.ThreadManager.{
  HThread, ThreadManager, Request, waits, got, depleted, pop_or_spawn, get_thread, return_thread,
  handle_crash,
}

-- The pool and the number of threads that clients hold.
pub record IsBounded (s : ThreadManager) (held : ℕ) : Type 0 where
  pub counted : IsCounted s.inactive_threads
  pub small : s.max_inactive_threads < 2 ^ 31
  pub active : s.active_thread_count ≡ held
  pub few_active : s.active_thread_count ≤ s.max_active_threads
  pub few_inactive : length s.inactive_threads.root ≤ s.max_inactive_threads

-- The answer of a request: a wait where all active threads are out, and otherwise a thread.
abbrev pub Granted : ThreadManager → ℕ → Request → Type 0
Granted s held waits = s.max_active_threads ≡ held
Granted s held (got t new) = (held < s.max_active_threads) × IsBounded new (held + 1)
Granted s held depleted = ⊥

granted :
    (s later : ThreadManager) (held : ℕ) (t : HThread) (root : List HThread) (n : ℕ)
    → n ≡ length root
    → length root < 2 ^ 32
    → IsBounded s held
    → held < s.max_active_threads
    → length root ≤ s.max_inactive_threads
    → Granted s held (pop_or_spawn s (some t) later (Stack.popped root n))
granted s later held t [] n e l b h few = (
  h,
  record {
    counted = (e, l);
    small = b.small;
    active = omega (arith, b.active);
    few_active = omega (arith, b.active, h);
    few_inactive = omega arith;
  },
)
granted s later held t (x ∷ root) n e l b h few = (
  h,
  record {
    counted = (omega (arith, e, l), omega (arith, l));
    small = b.small;
    active = omega (arith, b.active);
    few_active = omega (arith, b.active, h);
    few_inactive = omega (arith, few);
  },
)

pushed :
    (s : ThreadManager) (held : ℕ) (t : HThread) (full : Bool)
    → leb s.max_inactive_threads (Stack.size s.inactive_threads) ≡ full
    → IsBounded s (suc held)
    → IsBounded (return_thread s t) held
unfolding return_thread Stack.push Stack.size
pushed s held t true e b =
    rw (e, return_thread)
      (record {
        counted = b.counted;
        small = b.small;
        active = omega (arith, b.active);
        few_active = omega (arith, b.few_active);
        few_inactive = b.few_inactive;
      })
pushed s held t false e b =
    let room : length s.inactive_threads.root < s.max_inactive_threads =
      ground (arith, b.counted.0) in
    rw (e, return_thread)
      (record {
        counted = (omega (arith, b.counted.0, room, b.small), omega (arith, room, b.small));
        small = b.small;
        active = omega (arith, b.active);
        few_active = omega (arith, b.few_active);
        few_inactive = omega (arith, room);
      })

-- The pool stays within its limits, and its count of active threads is the number of threads that
-- are held: a request where threads can be spawned waits exactly where all active threads are held
-- and hands one out otherwise, a return takes one back, and a crash gives one up.
pub get_thread-IsBounded :
    (s later : ThreadManager) (held : ℕ) (t : HThread)
    → IsBounded s held
    → Granted s held (get_thread s (some t) later)
      × ((n : ℕ) → held ≡ suc n → IsBounded (return_thread s t) n × IsBounded (handle_crash s) n)
unfolding get_thread handle_crash Stack.pop
get_thread-IsBounded s later held t b = (
  elim (Bool-cases (leb s.max_active_threads s.active_thread_count)) [
    | inl full ↦ rw (full, get_thread) (ground (arith, b.active, b.few_active))
    | inr free ↦
        rw (free, get_thread)
          (granted s later held t s.inactive_threads.root s.inactive_threads.count b.counted.0
            b.counted.1 b (ground (arith, b.active)) b.few_inactive)
  ],
  λ n e. (
    pushed s n t _ refl (subst (IsBounded s) e b),
    record {
      counted = b.counted;
      small = b.small;
      active = omega (arith, b.active, e);
      few_active = omega (arith, b.few_active);
      few_inactive = b.few_inactive;
    },
  ),
)

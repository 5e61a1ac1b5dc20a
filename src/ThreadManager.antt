-- ===== src/ThreadManager.antt =====
-- ThreadManager.c: the pool of helper threads. Each function is the work under `tm_mutex`; a wait on
-- the condition ends the step, and what other threads do meanwhile is an argument. A thread is the
-- number of its handle. `active_thread_count` is positive where a thread is returned or crashes.
pub mod Bounds
use hotwired.Prelude.{
  ℕ, zero, suc, ◌+◌, ◌-◌, Bool, Option, none, some, List, [], ◌∷◌, ltb, leb, if◌then◌else◌,
}
use hotwired.Stack
use hotwired.Stack.{Stack}

abbrev pub HThread : Type 0
HThread = ℕ

pub record ThreadManager : Type 0 where
  pub inactive_threads : Stack HThread
  pub active_thread_count : ℕ
  pub max_active_threads : ℕ
  pub max_inactive_threads : ℕ

abbrev pub default_max_active_threads : ℕ
default_max_active_threads = 128

abbrev pub default_max_inactive_threads : ℕ
default_max_inactive_threads = 8

abbrev configured : ℕ → ℕ → ℕ
configured value fallback = if ltb value 1 then fallback else value

-- The loop that fills the pool; the answers of `hthread_create`, one for each round.
unfoldable pub populate : List (Option HThread) → Stack HThread → Stack HThread
populate [] threads = threads
populate (some t ∷ spawned) threads = populate spawned (Stack.push threads t)
populate (none ∷ spawned) threads = populate spawned threads

-- The first call, from the two configured numbers.
unfoldable pub init : ℕ → ℕ → (ℕ → List (Option HThread)) → ThreadManager
init max_active max_inactive spawned =
    let bound = configured max_inactive default_max_inactive_threads in
    record {
      inactive_threads = populate (spawned bound) Stack.create;
      active_thread_count = 0;
      max_active_threads = configured max_active default_max_active_threads;
      max_inactive_threads = bound;
    }

-- What a step of `tm_get_thread` comes to: the first wait, a thread, or the fatal error.
pub data Request : Type 0 where
  waits : Request
  got : HThread → ThreadManager → Request
  depleted : Request

abbrev pub hand_out : HThread → Stack HThread → ThreadManager → Request
hand_out t rest s =
    got t (record s { inactive_threads = rest; active_thread_count = s.active_thread_count + 1 })

abbrev from_pool : ThreadManager → Stack HThread × Option HThread → Request
from_pool later (rest, none) = depleted
from_pool later (rest, some t) = hand_out t rest later

abbrev pub pop_or_spawn :
    ThreadManager → Option HThread → ThreadManager → Stack HThread × Option HThread → Request
pop_or_spawn s spawned later (rest, some t) = hand_out t rest s
pop_or_spawn s (some t) later (rest, none) = hand_out t rest s
pop_or_spawn s none later (rest, none) = from_pool later (Stack.pop later.inactive_threads)

-- `spawned` is the answer of `hthread_create`, and `later` the pool behind the second wait.
unfoldable pub get_thread : ThreadManager → Option HThread → ThreadManager → Request
get_thread s spawned later =
    if leb s.max_active_threads s.active_thread_count
    then waits
    else pop_or_spawn s spawned later (Stack.pop s.inactive_threads)

unfoldable pub return_thread : ThreadManager → HThread → ThreadManager
return_thread s t = record s {
  inactive_threads =
      if leb s.max_inactive_threads (Stack.size s.inactive_threads)
      then s.inactive_threads
      else Stack.push s.inactive_threads t;
  active_thread_count = s.active_thread_count - 1;
}

unfoldable pub handle_crash : ThreadManager → ThreadManager
handle_crash s = record s { active_thread_count = s.active_thread_count - 1 }

-- ===== src/Rcl/Exclusion.antt =====
-- Writers are alone.
use hotwired.Rcl.{
  Rcl, create, Inner, read_take, read_count, read_open, unread_count, write_take, write_wait,
  write_free, write_wake, write_open, Call, read_lock, read_unlock, write_reserve, write_unlock,
  Step, inner, call, chance, Reach, start, next,
}
use hotwired.Prelude.{ℕ, ◌+◌, ◌≤◌, ◌<◌, ◌≡◌, false, ◌⊎◌, arith}

-- Who holds the two mutexes, whom the count counts, and that it is 0 for a writer that goes on and
-- not 0 for one that waits.
pub record IsLocked (s : Rcl) : Type 0 where
  pub entry :
      s.entry_lock
      ≡ s.read_entry + s.read_rc + s.read_counted + s.reserved + s.write_rc + s.waiting
        + s.signalled + s.writing + s.unwritten
  pub one_entry : s.entry_lock ≤ 1
  pub holder : s.rc_lock ≡ s.read_rc + s.unread + s.write_rc + s.writing
  pub one_holder : s.rc_lock ≤ 1
  pub counted : s.rc ≡ s.read_counted + s.reading + s.unread
  pub alone : (s.rc ≡ 0) ⊎ (s.signalled + s.writing ≡ 0)
  pub counting : (0 < s.rc) ⊎ (s.waiting ≡ 0)

create-IsLocked : (threads : ℕ) → IsLocked (create threads)
unfolding create
create-IsLocked threads = ground arith

Inner-IsLocked : {s t : Rcl} → Inner s t → IsLocked s → IsLocked t
Inner-IsLocked (read_take h f) v = ground arith
Inner-IsLocked (read_count h) v = ground arith
Inner-IsLocked (read_open h) v = ground arith
Inner-IsLocked (unread_count h) v = ground arith
Inner-IsLocked (write_take h f) v = ground arith
Inner-IsLocked (write_wait h r) v = ground arith
Inner-IsLocked (write_free h r) v = ground arith
Inner-IsLocked (write_wake h f) v = ground arith
Inner-IsLocked (write_open h) v = ground arith

Call-IsLocked : {s t : Rcl} → Call s t → IsLocked s → IsLocked t
Call-IsLocked (read_lock h f) v = ground arith
Call-IsLocked (read_unlock h f) v = ground arith
Call-IsLocked (write_reserve h f) v = ground arith
Call-IsLocked (write_unlock h) v = ground arith

Step-IsLocked : {s t : Rcl} → Step false s t → IsLocked s → IsLocked t
Step-IsLocked (inner i) v = Inner-IsLocked i v
Step-IsLocked (call c) v = Call-IsLocked c v
Step-IsLocked (chance e w) v = cc

pub Reach-IsLocked : {threads : ℕ} {s : Rcl} → Reach false threads s → IsLocked s
Reach-IsLocked {threads} start = create-IsLocked threads
Reach-IsLocked (next r st) = Step-IsLocked st (Reach-IsLocked r)

-- Where a wait ends by a signal only, then in every reachable state, with any number of threads, at
-- most one thread is between rcl_write_lock and rcl_write_unlock, and while one is, no thread is
-- between rcl_read_lock and rcl_read_unlock.
pub Reach-alone :
    {threads : ℕ} {s : Rcl}
    → Reach false threads s
    → (s.writing ≤ 1) × ((0 < s.writing) → s.reading ≡ 0)
Reach-alone r = let v = Reach-IsLocked r in (ground arith, λ w. ground arith)

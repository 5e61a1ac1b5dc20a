-- ===== src/Rcl.antt =====
-- RCL.c: locks for readers and writers, over two mutexes, a condition and the count of readers. The
-- threads run the same code, so that a state says how many of them stand at each place of it. A step
-- is one that a thread takes alone; a mutex is the number of threads that hold it.
pub mod Exclusion
pub mod Progress
pub mod Wakeup
use hotwired.Prelude.{ℕ, zero, ◌+◌, ◌-◌, ◌<◌, ◌≡◌, Bool, true, ◌==◌, if◌then◌else◌}

pub record Rcl : Type 0 where
  pub entry_lock : ℕ
  pub rc_lock : ℕ
  pub rc : ℕ
  -- Outside, and inside `rcl_read_lock`: behind the first line, behind the second, behind
  -- `pthread_mutex_unlock(&rcl->rc_lock)`.
  pub idle : ℕ
  pub read_entry : ℕ
  pub read_rc : ℕ
  pub read_counted : ℕ
  pub reading : ℕ
  -- Inside `rcl_read_unlock`, behind its first line.
  pub unread : ℕ
  -- Inside `rcl_write_lock`: reserved, behind the first line of `rcl_write_complete_lock`, in its
  -- wait, and woken up from it by a signal.
  pub reserved : ℕ
  pub write_rc : ℕ
  pub waiting : ℕ
  pub signalled : ℕ
  pub writing : ℕ
  -- Inside `rcl_write_unlock`, behind its first line.
  pub unwritten : ℕ

-- `rcl_create`, and so many threads.
unfoldable pub create : ℕ → Rcl
create threads = record {
  entry_lock = 0;
  rc_lock = 0;
  rc = 0;
  idle = threads;
  read_entry = 0;
  read_rc = 0;
  read_counted = 0;
  reading = 0;
  unread = 0;
  reserved = 0;
  write_rc = 0;
  waiting = 0;
  signalled = 0;
  writing = 0;
  unwritten = 0;
}

-- `pthread_cond_signal` where the count has come to 0: a thread that waits, if any, is woken up.
abbrev pub signal : Rcl → Rcl
signal s = if s.rc == 0 then record s { waiting = 0; signalled = s.signalled + s.waiting } else s

-- What a thread does inside the functions of the lock.
pub data Inner (s : Rcl) : Rcl → Type 0 where
  read_take :
      0 < s.read_entry
      → s.rc_lock ≡ 0
      → Inner s (record s { read_entry = s.read_entry - 1; read_rc = s.read_rc + 1; rc_lock = 1 })
  read_count :
      0 < s.read_rc
      → Inner s (record s {
        read_rc = s.read_rc - 1;
        read_counted = s.read_counted + 1;
        rc = s.rc + 1;
        rc_lock = 0;
      })
  read_open :
      0 < s.read_counted
      → Inner s
          (record s { read_counted = s.read_counted - 1; reading = s.reading + 1; entry_lock = 0 })
  unread_count :
      0 < s.unread
      → Inner s (
          signal
            (record s { unread = s.unread - 1; idle = s.idle + 1; rc = s.rc - 1; rc_lock = 0 }))
  write_take :
      0 < s.reserved
      → s.rc_lock ≡ 0
      → Inner s (record s { reserved = s.reserved - 1; write_rc = s.write_rc + 1; rc_lock = 1 })
  write_wait :
      0 < s.write_rc
      → 0 < s.rc
      → Inner s (record s { write_rc = s.write_rc - 1; waiting = s.waiting + 1; rc_lock = 0 })
  write_free :
      0 < s.write_rc
      → s.rc ≡ 0
      → Inner s (record s { write_rc = s.write_rc - 1; writing = s.writing + 1 })
  write_wake :
      0 < s.signalled
      → s.rc_lock ≡ 0
      → Inner s (record s { signalled = s.signalled - 1; writing = s.writing + 1; rc_lock = 1 })
  write_open :
      0 < s.unwritten
      → Inner s (record s { unwritten = s.unwritten - 1; idle = s.idle + 1; entry_lock = 0 })

-- The first lines of the functions, which a thread comes to by itself.
pub data Call (s : Rcl) : Rcl → Type 0 where
  read_lock :
      0 < s.idle
      → s.entry_lock ≡ 0
      → Call s (record s { idle = s.idle - 1; read_entry = s.read_entry + 1; entry_lock = 1 })
  read_unlock :
      0 < s.reading
      → s.rc_lock ≡ 0
      → Call s (record s { reading = s.reading - 1; unread = s.unread + 1; rc_lock = 1 })
  write_reserve :
      0 < s.idle
      → s.entry_lock ≡ 0
      → Call s (record s { idle = s.idle - 1; reserved = s.reserved + 1; entry_lock = 1 })
  write_unlock :
      0 < s.writing
      → Call s (record s { writing = s.writing - 1; unwritten = s.unwritten + 1; rc_lock = 0 })

-- POSIX lets `pthread_cond_wait` return with no signal.
pub data Spurious (s : Rcl) : Rcl → Type 0 where
  wake :
      0 < s.waiting
      → s.rc_lock ≡ 0
      → Spurious s (record s { waiting = s.waiting - 1; writing = s.writing + 1; rc_lock = 1 })

-- Where `spurious` is false, a wait ends by a signal only.
pub data Step (spurious : Bool) (s t : Rcl) : Type 0 where
  inner : Inner s t → Step spurious s t
  call : Call s t → Step spurious s t
  chance : spurious ≡ true → Spurious s t → Step spurious s t

pub data Reach (spurious : Bool) (threads : ℕ) : Rcl → Type 0 where
  start : Reach spurious threads (create threads)
  next : {s t : Rcl} → Reach spurious threads s → Step spurious s t → Reach spurious threads t

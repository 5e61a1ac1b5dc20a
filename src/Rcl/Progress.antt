-- ===== src/Rcl/Progress.antt =====
-- No thread is stuck inside the lock.
use hotwired.Rcl.{
  Rcl, Inner, read_take, read_count, read_open, unread_count, write_take, write_wait, write_free,
  write_wake, write_open, Reach,
}
use hotwired.Rcl.Exclusion.{Reach-IsLocked}
use hotwired.Prelude.{ℕ, ◌+◌, ◌<◌, ◌≡◌, false, ◌⊎◌, inl, inr, arith, dec_lt}

-- The threads that stand inside the functions of the lock.
abbrev pub inside : Rcl → ℕ
inside s =
    s.read_entry + s.read_rc + s.read_counted + s.unread + s.reserved + s.write_rc + s.waiting
    + s.signalled + s.unwritten

Moves : Rcl → Type 0
Moves s = (t : Rcl) × Inner s t

-- A thread that holds `rc_lock` goes on.
holder-Moves : (s : Rcl) → 0 < s.read_rc + s.unread + s.write_rc → Moves s
unfolding Moves
holder-Moves s h = elim (dec_lt 0 s.read_rc) [
  | yes a ↦ (_, read_count a)
  | no a ↦ elim (dec_lt 0 s.unread) [
    | yes b ↦ (_, unread_count b)
    | no b ↦ elim (dec_lt 0 s.rc) [
      | yes c ↦ (_, write_wait (omega arith) c)
      | no c ↦ (_, write_free (omega arith) (omega arith))
    ]
  ]
]

-- So does one that does not need it, or finds it free.
other-Moves :
    (s : Rcl)
    → s.rc_lock ≡ 0
    → 0 < s.read_entry + s.read_counted + s.reserved + s.signalled + s.unwritten
    → Moves s
unfolding Moves
other-Moves s f h = elim (dec_lt 0 s.read_entry) [
  | yes a ↦ (_, read_take a f)
  | no a ↦ elim (dec_lt 0 s.read_counted) [
    | yes b ↦ (_, read_open b)
    | no b ↦ elim (dec_lt 0 s.reserved) [
      | yes c ↦ (_, write_take c f)
      | no c ↦ elim (dec_lt 0 s.signalled) [
        | yes d ↦ (_, write_wake d f)
        | no d ↦ (_, write_open (omega arith))
      ]
    ]
  ]
]

-- Where a wait ends by a signal only, a reachable state with a thread inside a function of the lock
-- is one in which such a thread can take a step, or a thread that has locked has still to unlock: no
-- signal is lost and there is no deadlock.
pub Reach-progress :
    {threads : ℕ} {s : Rcl}
    → Reach false threads s
    → 0 < inside s
    → ((t : Rcl) × Inner s t) ⊎ (0 < s.reading + s.writing)
unfolding Moves
Reach-progress {s} r h =
    let v = Reach-IsLocked r in
    elim (dec_lt 0 (s.reading + s.writing)) [
      | yes user ↦ inr user
      | no quiet ↦ elim (dec_lt 0 (s.read_rc + s.unread + s.write_rc)) [
        | yes a ↦ inl (holder-Moves s a)
        | no a ↦ inl (other-Moves s (ground arith) (ground arith))
      ]
    ]

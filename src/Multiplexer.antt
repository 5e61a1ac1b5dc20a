-- ===== src/Multiplexer.antt =====
-- Multiplexer.poll.c: the table of descriptors that the main thread waits for. The functions are the
-- bodies between the locks; what `poll` answers is an argument.
pub mod Entries
pub mod Rounds
pub mod Lapses
use Prim.Native.Nat.{bit_and}
use hotwired.Prelude.{
  ℕ, zero, suc, ◌+◌, ◌-◌, ◌*◌, ◌/◌, ◌%◌, ◌^◌, Bool, true, false, ◌&&◌, Option, none, some, List, [],
  ◌∷◌, ◌++◌, length, drop, ltb, ◌==◌, if◌then◌else◌,
}

-- `mevent_t`
pub data Mevent : Type 0 where
  mplx_rd : Mevent
  mplx_wr : Mevent

-- `struct pollfd`
pub record PollFd : Type 0 where
  pub fd : ℕ
  pub events : ℕ
  pub revents : ℕ

-- The static variables; `fdtbl_count` is the length of the table. `retfds` is unsigned.
pub record Multiplexer : Type 0 where
  pub fdtbl : List PollFd
  pub fdtbl_size : ℕ
  pub pcomplete : Bool
  pub retfds : ℕ
  pub curfd : ℕ

abbrev initial_table_size : ℕ
initial_table_size = 64

abbrev pollin : ℕ
pollin = 1

abbrev pollout : ℕ
pollout = 4

unfoldable pub multiplexer_create : Multiplexer
multiplexer_create = record {
  fdtbl = [];
  fdtbl_size = initial_table_size;
  pcomplete = false;
  retfds = 0;
  curfd = 0;
}

abbrev pev : Mevent → ℕ
pev mplx_rd = pollin
pev mplx_wr = pollout

unfoldable pub multiplexer_add : Multiplexer → ℕ → Mevent → Multiplexer
multiplexer_add m fd event = record m {
  fdtbl_size = if length m.fdtbl == m.fdtbl_size then m.fdtbl_size * 2 else m.fdtbl_size;
  fdtbl = m.fdtbl ++ (record { fd = fd; events = pev event; revents = 0 }) ∷ [];
}

-- `retfds--`
abbrev pub lowered : ℕ → ℕ
lowered retfds = (retfds + 2 ^ 32 - 1) % 2 ^ 32

-- The search: the index and what is found there.
abbrev one_further : Option (ℕ × PollFd) → Option (ℕ × PollFd)
one_further none = none
one_further (some (i, e)) = some (suc i, e)

unfoldable pub search : ℕ → List PollFd → Option (ℕ × PollFd)
search fd [] = none
search fd (e ∷ l) = let rest = one_further (search fd l) in if e.fd == fd then some (0, e) else rest

-- `memmove`
abbrev pub without : ℕ → List PollFd → List PollFd
without i [] = []
without zero (e ∷ l) = l
without (suc i) (e ∷ l) = e ∷ without i l

abbrev pub is_ready : PollFd → Bool
is_ready e = if e.revents == 0 then false else true

-- The size, where `count` are left.
abbrev halved : ℕ → ℕ → ℕ
halved size count = if ltb count (size / 4) && ltb initial_table_size size then size / 2 else size

abbrev pub removed_at : Multiplexer → Option (ℕ × PollFd) → Multiplexer
removed_at m none = m
removed_at m (some (i, e)) = record m {
  fdtbl = without i m.fdtbl;
  fdtbl_size = halved m.fdtbl_size (length m.fdtbl - 1);
  retfds = if m.pcomplete && is_ready e then lowered m.retfds else m.retfds;
  curfd = if m.pcomplete && ltb i m.curfd then m.curfd - 1 else m.curfd;
}

-- The event is not looked at.
unfoldable pub multiplexer_remove : Multiplexer → ℕ → Multiplexer
multiplexer_remove m fd = removed_at m (search fd m.fdtbl)

-- The `revents` that `poll` writes, in the order of the table.
abbrev pub with_revents : List PollFd → List ℕ → List PollFd
with_revents [] revents = []
with_revents (e ∷ l) [] = record e { revents = 0 } ∷ with_revents l []
with_revents (e ∷ l) (r ∷ revents) = record e { revents = r } ∷ with_revents l revents

unfoldable pub ready : List PollFd → List PollFd
ready [] = []
ready (e ∷ l) = let rest = ready l in if is_ready e then e ∷ rest else rest

-- `poll`, which answers how many entries have `revents`; where it fails, -1 becomes the largest
-- `unsigned int`, the test `< 0` does not hold, and the table is as it was.
abbrev pub polled : Multiplexer → Option (List ℕ) → Multiplexer
polled m none = record m { pcomplete = true; retfds = 2 ^ 32 - 1; curfd = 0 }
polled m (some revents) =
    let table = with_revents m.fdtbl revents in
    record m { fdtbl = table; pcomplete = true; retfds = length (ready table); curfd = 0 }

abbrev pub begun : Multiplexer → Option (List ℕ) → Multiplexer
begun m answer = if m.pcomplete then m else polled m answer

-- The `while` loop: how many entries are passed over, and the first with `revents`.
abbrev pub passed_over : Option (ℕ × PollFd) → Option (ℕ × PollFd)
passed_over none = none
passed_over (some (i, e)) = some (suc i, e)

unfoldable pub next_ready : List PollFd → Option (ℕ × PollFd)
next_ready [] = none
next_ready (e ∷ l) =
    let rest = passed_over (next_ready l) in if is_ready e then some (0, e) else rest

-- `none` is the event -1.
abbrev pub event_of : ℕ → Option Mevent
event_of revents =
    if bit_and revents pollin == 0
    then if bit_and revents pollout == 0 then none else some mplx_wr
    else some mplx_rd

abbrev pub round_over : Multiplexer → Multiplexer × Option (ℕ × Option Mevent)
round_over m = (record m { pcomplete = false }, none)

abbrev pub reported : Multiplexer → Option (ℕ × PollFd) → Multiplexer × Option (ℕ × Option Mevent)
reported m none = round_over (record m { curfd = length m.fdtbl })
reported m (some (i, e)) = (
  record m {
    curfd = m.curfd + suc i;
    retfds = lowered m.retfds;
    pcomplete = if lowered m.retfds == 0 then false else m.pcomplete;
  },
  some (e.fd, event_of e.revents),
)

abbrev pub scanned : Multiplexer → Multiplexer × Option (ℕ × Option Mevent)
scanned m =
    let found = reported m (next_ready (drop m.curfd m.fdtbl)) in
    if m.retfds == 0 then round_over m else found

-- `multiplexer_poll`: the descriptor and the event, where the answer is 0, and none where it is -1.
unfoldable pub multiplexer_poll :
    Option (List ℕ) → Multiplexer → Multiplexer × Option (ℕ × Option Mevent)
multiplexer_poll answer m = scanned (begun m answer)

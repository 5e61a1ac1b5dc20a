-- ===== src/Tests/Descriptors.antt =====
-- Multiplexer.poll.c.
use hotwired.Multiplexer.Lapses.{multiplexer_poll-remove}
use hotwired.Multiplexer.Rounds.{calls, reports, IsCounted, calls-round}
use hotwired.Multiplexer.{
  PollFd, Multiplexer, mplx_rd, mplx_wr, multiplexer_create, multiplexer_add, multiplexer_remove,
  multiplexer_poll, ready, search, with_revents, next_ready,
}
use hotwired.Prelude.{ℕ, ◌≡◌, refl, false, none, some, [], ◌∷◌, arith}

program : Unit {0}
unfolding multiplexer_create multiplexer_add multiplexer_remove multiplexer_poll ready search
    next_ready calls
program = tt

-- Two clients that are read from, and one that is written to.
abbrev clients : Multiplexer
clients =
    multiplexer_add (multiplexer_add (multiplexer_add multiplexer_create 5 mplx_rd) 6 mplx_wr) 9
      mplx_rd

-- The first and the last have something to read.
calls-round_example :
    ((calls (some (1 ∷ 0 ∷ 1 ∷ []) ∷ none ∷ []) clients).1
      ≡ reports (ready (with_revents clients.fdtbl (1 ∷ 0 ∷ 1 ∷ []))))
    × ((calls (some (1 ∷ 0 ∷ 1 ∷ []) ∷ none ∷ []) clients).0.pcomplete ≡ false)
    × ((calls (some (1 ∷ 0 ∷ 1 ∷ []) ∷ none ∷ []) clients).0.fdtbl
        ≡ with_revents clients.fdtbl (1 ∷ 0 ∷ 1 ∷ []))
unfolding program
calls-round_example = calls-round clients (1 ∷ 0 ∷ 1 ∷ []) (none ∷ []) refl (omega arith) refl

-- Both descriptors are reported, the one that is written to is not.
reported_two :
    (calls (some (1 ∷ 0 ∷ 1 ∷ []) ∷ none ∷ []) clients).1
    ≡ some (5, some mplx_rd) ∷ some (9, some mplx_rd) ∷ []
unfolding program
reported_two = refl

abbrev after_round : Multiplexer
after_round = (calls (some (1 ∷ 0 ∷ 1 ∷ []) ∷ none ∷ []) clients).0

-- The first of two was reported.
abbrev half_round : Multiplexer
half_round = (multiplexer_poll (some (1 ∷ 0 ∷ 1 ∷ [])) clients).0

half_round-IsCounted : IsCounted half_round
unfolding program
half_round-IsCounted = record {
  counted = λ e. refl;
  some_left = λ e. omega arith;
  bounded = omega arith;
}

abbrev read_from : ℕ → PollFd
read_from fd = record { fd = fd; events = 1; revents = 1 }

multiplexer_poll-remove_example : (multiplexer_poll none (multiplexer_remove half_round 5)).1 ≡ none
unfolding program
multiplexer_poll-remove_example =
    multiplexer_poll-remove none half_round 5 0 (read_from 5) (read_from 9) half_round-IsCounted
      refl refl (omega arith) refl

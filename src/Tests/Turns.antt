-- ===== src/Tests/Turns.antt =====
-- connection_handler.c.
use hotwired.Collection
use hotwired.ConnectionHandler.Sharing.{System, Reach, IsHeld, Reach-twice}
use hotwired.ConnectionHandler.{Front, send, is_socket, ch_turn, ch_accept_control_connection}
use hotwired.Multiplexer.Entries.{waiting}
use hotwired.Multiplexer.{
  mplx_rd, multiplexer_create, multiplexer_add, multiplexer_poll, next_ready, ready,
}
use hotwired.Prelude.Counts.{count, erase}
use hotwired.Prelude.{ℕ, ◌≡◌, refl, true, Option, some, List, [], ◌∷◌, arith}

program : Unit {0}
unfolding count erase multiplexer_create multiplexer_add multiplexer_poll next_ready ready is_socket
    ch_turn ch_accept_control_connection send
program = tt

-- Two sockets listen, and the client of descriptor 7 is waited for.
abbrev front : Front
front = record {
  listen_address = 0;
  listen_port = some 5500;
  control_socket = some 3;
  data_socket = some 4;
  multiplexer =
      multiplexer_add (multiplexer_add (multiplexer_add multiplexer_create 3 mplx_rd) 4 mplx_rd) 7
        mplx_rd;
  connections = Collection.create;
  messages = [];
  closed = [];
}

abbrev system : System
system = record { front = front; opened = 3 ∷ 4 ∷ 7 ∷ []; late = [] }

system-IsHeld : IsHeld system
unfolding program
system-IsHeld = record { held = λ q. ground arith; once = λ q. ground arith }

-- The first socket is ready.
abbrev answer : Option (List ℕ)
answer = some (1 ∷ 0 ∷ 0 ∷ [])

reports : (multiplexer_poll answer front.multiplexer).1 ≡ some (3, some mplx_rd)
unfolding program
reports = refl

-- A connection is accepted, and its handshake is done.
abbrev accepted : System
accepted = record {
  front = ch_turn 0 answer (some (8, 9)) 2 front;
  opened = 8 ∷ 3 ∷ 4 ∷ 7 ∷ [];
  late = [];
}

Reach-twice_example :
    (t : System) × Reach true system t × (count 7 (waiting t.front.multiplexer) ≡ 2)
unfolding program
Reach-twice_example =
    Reach-twice system 0 2 3 7 9 (some mplx_rd) answer system-IsHeld (omega arith) reports refl

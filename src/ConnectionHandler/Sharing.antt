-- ===== src/ConnectionHandler/Sharing.antt =====
-- The main thread and the helper threads take turns with the descriptors.
use hotwired.ConnectionHandler.Places.{
  descriptor_of, handed, at, handed-taken, ch_turn-at, is_listener, ch_turn-accepted-at,
}
use hotwired.ConnectionHandler.{
  Front, Message, control_connect, data_connect, transaction, send, is_socket, ch_reported, ch_turn,
  ch_accept_control_connection,
}
use hotwired.ConnectionManager
use hotwired.Multiplexer.Entries.{waiting, multiplexer_poll-waiting, multiplexer_add-count}
use hotwired.Multiplexer.{Mevent, mplx_rd, multiplexer_add, multiplexer_poll}
use hotwired.Prelude.Counts.{to_nat, count, erase, count-erase}
use hotwired.Prelude.{
  ℕ, ◌+◌, ◌<◌, ◌≤◌, ◌≡◌, refl, ap, ◌∙◌, Bool, true, false, Option, none, some, List, [], ◌∷◌, ◌++◌,
  ◌==◌, arith,
}

-- `opened` has the descriptors that are not closed, and `late` those that a thread has closed and is
-- about to close again.
pub record System : Type 0 where
  pub front : Front
  pub opened : List ℕ
  pub late : List ℕ

abbrev pub is_data : Message → Bool
is_data (control_connect fd) = false
is_data (data_connect fd ip) = true
is_data (transaction fd) = false

abbrev pub is_handshake : Message → Bool
is_handshake (control_connect fd) = true
is_handshake (data_connect fd ip) = false
is_handshake (transaction fd) = false

-- What is left when a thread is done with a message between these, and where it ends with
-- multiplexer_add.
abbrev pub without_message : Front → List (ℕ × Message) → List (ℕ × Message) → Front
without_message s before after = record s { messages = before ++ after }

abbrev pub given_back : Front → ℕ → List (ℕ × Message) → List (ℕ × Message) → Front
given_back s fd before after = record s {
  multiplexer = multiplexer_add s.multiplexer fd mplx_rd;
  messages = before ++ after;
}

-- `turn` and `accept` are turns of ch_main; a new connection has a descriptor that is not open. A
-- thread ends with a message by giving the descriptor back or closing it. Where a handshake fails,
-- cm_remove closes it (`fail`), and later the thread does so again (`close_again`), whoever has the
-- number by then. `kick` is txn_kick_user, by which a thread closes the descriptor of another
-- client. The first parameter tells whether handshakes fail and users are kicked.
pub data Step (lapses : Bool) : System → System → Type 0 where
  turn :
      (s : System) (now thread : ℕ) (answer : Option (List ℕ))
      → Step lapses s (record s { front = ch_turn now answer none thread s.front })
  accept :
      (s : System) (now thread socket fd ip : ℕ) (event : Option Mevent) (answer : Option (List ℕ))
      → (multiplexer_poll answer s.front.multiplexer).1 ≡ some (socket, event)
      → is_listener s.front socket ≡ true
      → count fd s.opened ≡ 0
      → Step lapses s (record {
        front = ch_turn now answer (some (fd, ip)) thread s.front;
        opened = fd ∷ s.opened;
        late = s.late;
      })
  keep :
      (s : System) (thread : ℕ) (m : Message) (before after : List (ℕ × Message))
      → s.front.messages ≡ before ++ (thread, m) ∷ after
      → is_data m ≡ false
      → Step lapses s (record s { front = given_back s.front (descriptor_of m) before after })
  close :
      (s : System) (thread : ℕ) (m : Message) (before after : List (ℕ × Message))
      → s.front.messages ≡ before ++ (thread, m) ∷ after
      → is_handshake m ≡ false
      → Step lapses s (record {
        front = without_message s.front before after;
        opened = erase (descriptor_of m) s.opened;
        late = s.late;
      })
  fail :
      (s : System) (thread fd : ℕ) (before after : List (ℕ × Message))
      → lapses ≡ true
      → s.front.messages ≡ before ++ (thread, control_connect fd) ∷ after
      → Step lapses s (record {
        front = without_message s.front before after;
        opened = erase fd s.opened;
        late = fd ∷ s.late;
      })
  close_again :
      (s : System) (fd : ℕ) (before after : List ℕ)
      → lapses ≡ true
      → s.late ≡ before ++ fd ∷ after
      → Step lapses s (record s { opened = erase fd s.opened; late = before ++ after })
  kick :
      (s : System) (fd : ℕ)
      → lapses ≡ true
      → 0 < count fd s.opened
      → Step lapses s (record s { opened = erase fd s.opened })

pub data Reach (lapses : Bool) (s : System) : System → Type 0 where
  here : Reach lapses s s
  next : {t u : System} → Reach lapses s t → Step lapses t u → Reach lapses s u

-- Each place of a descriptor is one of an open one, and no number is open twice.
pub record IsHeld (s : System) : Type 0 where
  pub held : (q : ℕ) → at q s.front ≤ count q s.opened
  pub once : (q : ℕ) → count q s.opened ≤ 1

taken-at :
    (q thread : ℕ) (m : Message) (s : Front) (before after : List (ℕ × Message))
    → s.messages ≡ before ++ (thread, m) ∷ after
    → at q (without_message s before after) + to_nat (q == descriptor_of m) ≡ at q s
taken-at q thread m s before after e =
    omega (arith, handed-taken q thread m before after, ap (λ l. count q (handed l)) e)

given_back-at :
    (q thread : ℕ) (m : Message) (s : Front) (before after : List (ℕ × Message))
    → s.messages ≡ before ++ (thread, m) ∷ after
    → at q (given_back s (descriptor_of m) before after) ≡ at q s
given_back-at q thread m s before after e = omega (
  arith,
  taken-at q thread m s before after e,
  multiplexer_add-count s.multiplexer (descriptor_of m) mplx_rd q,
)

Step-IsHeld : {s t : System} → Step false s t → IsHeld s → IsHeld t
unfolding count
Step-IsHeld (turn s now thread answer) v = record {
  held = λ q. omega (arith, v.held q, ch_turn-at q now thread answer s.front);
  once = v.once;
}
Step-IsHeld (accept s now thread socket fd ip event answer reports listens fresh) v = record {
  held = λ q. ground (
    arith,
    v.held q,
    ch_turn-accepted-at q now thread socket fd ip event answer s.front reports listens,
  );
  once = λ q. ground (arith, v.once q, fresh);
}
Step-IsHeld (keep s thread m before after e k) v = record {
  held = λ q. omega (arith, v.held q, given_back-at q thread m s.front before after e);
  once = v.once;
}
Step-IsHeld (close s thread m before after e k) v =
    let d = descriptor_of m in
    let one : to_nat (d == d) ≡ 1 = ground arith in
    let known : 0 < count d s.opened =
      omega (arith, v.held d, taken-at d thread m s.front before after e, one) in
    record {
      held = λ q. omega (
        arith,
        v.held q,
        taken-at q thread m s.front before after e,
        count-erase d q s.opened known,
      );
      once = λ q. omega (arith, v.once q, count-erase d q s.opened known);
    }
Step-IsHeld (fail s thread fd before after k e) v = cc
Step-IsHeld (close_again s fd before after k e) v = cc
Step-IsHeld (kick s fd k h) v = cc

pub Reach-IsHeld : {s t : System} → Reach false s t → IsHeld s → IsHeld t
Reach-IsHeld here v = v
Reach-IsHeld (next r st) v = Step-IsHeld st (Reach-IsHeld r v)

-- The turn in which a control connection is accepted.
abbrev pub accepted_at : ℕ → ℕ → ℕ → ℕ → Option (List ℕ) → Front → Front
accepted_at now thread fd ip answer s =
    send
      (record s {
        multiplexer = (multiplexer_poll answer s.multiplexer).0;
        connections = ConnectionManager.add now s.connections fd ip;
      })
      thread (control_connect fd)

ch_turn-accepted :
    (now thread socket fd ip : ℕ) (event : Option Mevent) (answer : Option (List ℕ)) (s : Front)
    → (multiplexer_poll answer s.multiplexer).1 ≡ some (socket, event)
    → is_socket s.control_socket socket ≡ true
    → ch_turn now answer (some (fd, ip)) thread s ≡ accepted_at now thread fd ip answer s
unfolding ch_turn ch_accept_control_connection
ch_turn-accepted now thread socket fd ip event answer s reports listens =
    ap
      (λ o.
        ch_reported now (some (fd, ip)) thread o
          (record s { multiplexer = (multiplexer_poll answer s.multiplexer).0 }))
      reports
    ∙ rw listens refl

given_back_again :
    (now thread socket v ip : ℕ) (event : Option Mevent) (answer : Option (List ℕ)) (s : Front)
    → (multiplexer_poll answer s.multiplexer).1 ≡ some (socket, event)
    → is_socket s.control_socket socket ≡ true
    → let f = ch_turn now answer (some (v, ip)) thread s in
      (f.messages ≡ s.messages ++ (thread, control_connect v) ∷ [])
      × (count v (waiting (given_back f v s.messages []).multiplexer)
          ≡ count v (waiting s.multiplexer) + 1)
unfolding send
given_back_again now thread socket v ip event answer s reports listens =
    let f = ch_turn now answer (some (v, ip)) thread s in
    let e = ch_turn-accepted now thread socket v ip event answer s reports listens in
    let same : waiting f.multiplexer ≡ waiting s.multiplexer =
      ap (λ g. waiting g.multiplexer) e ∙ multiplexer_poll-waiting answer s.multiplexer in
    let one : to_nat (v == v) ≡ 1 = ground arith in
    (
      ap (λ g. g.messages) e,
      omega (arith, multiplexer_add-count f.multiplexer v mplx_rd v, ap (count v) same, one),
    )

-- Where a user whose descriptor waits in the table is kicked, and a connection that is then accepted
-- gets the same number, as it is closed, then a state is reached in which the table has the descriptor
-- twice: txn_kick_user closes it and leaves it in the table.
pub Reach-twice :
    (s : System) (now thread socket v ip : ℕ) (event : Option Mevent) (answer : Option (List ℕ))
    → IsHeld s
    → 0 < count v (waiting s.front.multiplexer)
    → (multiplexer_poll answer s.front.multiplexer).1 ≡ some (socket, event)
    → is_socket s.front.control_socket socket ≡ true
    → (t : System) × Reach true s t × (count v (waiting t.front.multiplexer) ≡ 2)
Reach-twice s now thread socket v ip event answer held waits reports listens =
    let (sent, twice) =
      given_back_again now thread socket v ip event answer s.front reports listens in
    let known : 0 < count v s.opened = omega (arith, held.held v, waits) in
    let one : to_nat (v == v) ≡ 1 = ground arith in
    let free : count v (erase v s.opened) ≡ 0 =
      omega (arith, held.once v, count-erase v v s.opened known, one) in
    let listener : is_listener s.front socket ≡ true = ground arith in
    let kicked : System = record s { opened = erase v s.opened } in
    let f = ch_turn now answer (some (v, ip)) thread s.front in
    let accepted : System = record { front = f; opened = v ∷ erase v s.opened; late = s.late } in
    (
      record accepted { front = given_back f v s.front.messages [] },
      next
          (next (next here (kick s v refl known))
            (accept kicked now thread socket v ip event answer reports listener free))
          (keep accepted thread (control_connect v) s.front.messages [] sent refl),
      omega (arith, twice, waits, held.held v, held.once v),
    )

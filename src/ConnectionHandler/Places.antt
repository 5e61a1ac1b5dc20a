-- ===== src/ConnectionHandler/Places.antt =====
-- Where the descriptors are while the main thread and the helper threads work: in the table of the
-- multiplexer, or with a thread.
use hotwired.ConnectionHandler.{
  Front, Message, control_connect, data_connect, transaction, send, is_socket, ch_reported, ch_take,
  ch_handle_transaction, ch_accept_control_connection, ch_accept_data_connection, ch_turn,
}
use hotwired.Multiplexer.Entries.{
  waiting, IsKnown, multiplexer_poll-waiting, multiplexer_poll-IsKnown, multiplexer_remove-erase,
}
use hotwired.Multiplexer.{Mevent, multiplexer_remove, multiplexer_poll}
use hotwired.Prelude.Counts.{to_nat, count, count-erase}
use hotwired.Prelude.{
  ℕ, ◌+◌, ◌<◌, ◌≡◌, refl, ap, ◌∙◌, Bool, true, ◌||◌, Bool-cases, inl, inr, Option, none, some, List,
  [], ◌∷◌, ◌++◌, ◌==◌, arith,
}

abbrev pub descriptor_of : Message → ℕ
descriptor_of (control_connect fd) = fd
descriptor_of (data_connect fd ip) = fd
descriptor_of (transaction fd) = fd

abbrev pub handed : List (ℕ × Message) → List ℕ
handed [] = []
handed ((thread, m) ∷ l) = descriptor_of m ∷ handed l

-- How often a descriptor is in the table of the multiplexer or in a message that is not done.
abbrev pub at : ℕ → Front → ℕ
at q s = count q (waiting s.multiplexer) + count q (handed s.messages)

handed-append :
    (q : ℕ) (l r : List (ℕ × Message))
    → count q (handed (l ++ r)) ≡ count q (handed l) + count q (handed r)
unfolding count
handed-append q [] r = omega arith
handed-append q ((thread, m) ∷ l) r = omega (arith, handed-append q l r)

pub handed-taken :
    (q thread : ℕ) (m : Message) (l r : List (ℕ × Message))
    → count q (handed (l ++ (thread, m) ∷ r))
      ≡ count q (handed (l ++ r)) + to_nat (q == descriptor_of m)
unfolding count
handed-taken q thread m l r =
    omega (arith, handed-append q l ((thread, m) ∷ r), handed-append q l r)

pub send-at :
    (q thread : ℕ) (m : Message) (s : Front)
    → at q (send s thread m) ≡ at q s + to_nat (q == descriptor_of m)
unfolding send count
send-at q thread m s = omega (arith, handed-append q s.messages ((thread, m) ∷ []))

-- What a thread is given leaves the table.
ch_take-at :
    (q fd thread : ℕ) (s : Front)
    → 0 < count fd (waiting s.multiplexer)
    → at q (ch_take fd thread s) ≡ at q s
unfolding ch_take ch_handle_transaction
ch_take-at q fd thread s known =
    let left = record s { multiplexer = multiplexer_remove s.multiplexer fd } in
    let gone = ap (count q) (multiplexer_remove-erase s.multiplexer fd) in
    let less = count-erase fd q (waiting s.multiplexer) known in
    omega (arith, send-at q thread (transaction fd) left, gone, less)

-- Without a new connection nothing but a client's descriptor moves.
ch_reported-at :
    (q now thread : ℕ) (o : Option (ℕ × Option Mevent)) (s : Front)
    → IsKnown s.multiplexer o
    → at q (ch_reported now none thread o s) ≡ at q s
unfolding ch_accept_control_connection ch_accept_data_connection
ch_reported-at q now thread none s known = refl
ch_reported-at q now thread (some (fd, event)) s known =
    elim (Bool-cases (is_socket s.control_socket fd)) [
      | inl control ↦ rw control refl
      | inr away ↦ elim (Bool-cases (is_socket s.data_socket fd)) [
        | inl transfer ↦ rw (away, transfer) refl
        | inr client ↦ rw (away, client) (ch_take-at q fd thread s known)
      ]
    ]

abbrev polling : Option (List ℕ) → Front → Front
polling answer s = record s { multiplexer = (multiplexer_poll answer s.multiplexer).0 }

polling-at : (q : ℕ) (answer : Option (List ℕ)) (s : Front) → at q (polling answer s) ≡ at q s
polling-at q answer s =
    ap (λ l. count q l + count q (handed s.messages))
      (multiplexer_poll-waiting answer s.multiplexer)

pub ch_turn-at :
    (q now thread : ℕ) (answer : Option (List ℕ)) (s : Front)
    → at q (ch_turn now answer none thread s) ≡ at q s
unfolding ch_turn
ch_turn-at q now thread answer s =
    ch_reported-at q now thread (multiplexer_poll answer s.multiplexer).1 (polling answer s)
      (multiplexer_poll-IsKnown answer s.multiplexer)
    ∙ polling-at q answer s

-- A connection that is accepted goes to a thread.
abbrev pub is_listener : Front → ℕ → Bool
is_listener s fd = is_socket s.control_socket fd || is_socket s.data_socket fd

ch_accepted-at :
    (q now thread socket fd ip : ℕ) (event : Option Mevent) (s : Front)
    → is_listener s socket ≡ true
    → at q (ch_reported now (some (fd, ip)) thread (some (socket, event)) s)
      ≡ at q s + to_nat (q == fd)
unfolding ch_accept_control_connection ch_accept_data_connection
ch_accepted-at q now thread socket fd ip event s listens =
    elim (Bool-cases (is_socket s.control_socket socket)) [
      | inl control ↦ rw control (send-at q thread (control_connect fd) _)
      | inr away ↦
          let transfer : is_socket s.data_socket socket ≡ true = ground arith in
          rw (away, transfer) (send-at q thread (data_connect fd ip) s)
    ]

pub ch_turn-accepted-at :
    (q now thread socket fd ip : ℕ) (event : Option Mevent) (answer : Option (List ℕ)) (s : Front)
    → (multiplexer_poll answer s.multiplexer).1 ≡ some (socket, event)
    → is_listener s socket ≡ true
    → at q (ch_turn now answer (some (fd, ip)) thread s) ≡ at q s + to_nat (q == fd)
unfolding ch_turn
ch_turn-accepted-at q now thread socket fd ip event answer s reports listens =
    ap (λ o. at q (ch_reported now (some (fd, ip)) thread o (polling answer s))) reports
    ∙ ch_accepted-at q now thread socket fd ip event (polling answer s) listens
    ∙ ap (λ n. n + to_nat (q == fd)) (polling-at q answer s)

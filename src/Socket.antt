-- ===== src/Socket.antt =====
-- socketops.c: reading from a socket until all bytes have come, and writing until all are taken.
pub mod Reassembly
pub mod Delivery
use hotwired.Prelude.Bytes.{get16, get32}
use hotwired.Prelude.{
  Bool, true, false, ℕ, zero, suc, ◌-◌, Option, none, some, List, [], ◌∷◌, ◌++◌, length, take, drop,
  ltb, ◌==◌, if◌then◌else◌,
}

-- What is still to arrive, in the pieces in which `recv` hands it out. A call that asks for less
-- than a piece leaves the rest of it; an empty piece is a `recv` that returns 0. Behind the last
-- piece the wait of RESPONSE_TIMEOUT seconds ends with -1.
abbrev pub Socket : Type 0
Socket = List (List ℕ)

-- The bytes come back in front of those that a later part of the loop reads.
abbrev pub before : List ℕ → Option (List ℕ × Socket) → Option (List ℕ × Socket)
before c none = none
before c (some (bs, rest)) = some (c ++ bs, rest)

-- `read_all(fd, buf, nbytes)`, with the buffer that it fills, or `none` for -1.
unfoldable pub read_all : ℕ → Socket → Option (List ℕ × Socket)
read_all zero s = some ([], s)
read_all (suc n) [] = none
read_all (suc n) ([] ∷ s) = none
read_all (suc n) ((b ∷ bs) ∷ s) =
    if ltb (suc n) (length (b ∷ bs))
    then some (take (suc n) (b ∷ bs), drop (suc n) (b ∷ bs) ∷ s)
    else before (b ∷ bs) (read_all (suc n - length (b ∷ bs)) s)

abbrev with_number : (List ℕ → ℕ) → Option (List ℕ × Socket) → Option (ℕ × Socket)
with_number f none = none
with_number f (some (bs, rest)) = some (f bs, rest)

-- `read_int16` and `read_int32`, with the value in host order.
unfoldable pub read_int16 : Socket → Option (ℕ × Socket)
read_int16 s = with_number get16 (read_all 2 s)

unfoldable pub read_int32 : Socket → Option (ℕ × Socket)
read_int32 s = with_number get32 (read_all 4 s)

-- What was sent goes in front of what the rest of the loop sends.
abbrev pub sent_before : List ℕ → List ℕ × Bool → List ℕ × Bool
sent_before c (bs, done) = (c ++ bs, done)

-- `write_all`: the bytes that are sent, and whether the answer is 0. The second argument has the
-- answers of `send`, each at most what is left to send; 0 stands for every answer below 1, and
-- behind the last the wait ends with -1.
unfoldable pub write_all : List ℕ → List ℕ → List ℕ × Bool
write_all [] answers = ([], true)
write_all (b ∷ bs) [] = ([], false)
write_all (b ∷ bs) (zero ∷ answers) = ([], false)
write_all (b ∷ bs) (suc c ∷ answers) =
    sent_before (take (suc c) (b ∷ bs)) (write_all (drop (suc c) (b ∷ bs)) answers)

-- ===== src/TransferHandler/Receiving.antt =====
-- The loop of an upload.
use hotwired.Prelude.{
  ℕ, zero, suc, ◌-◌, ◌<◌, ◌≤◌, ◌≡◌, refl, ap, sym, ◌∙◌, true, false, Bool-cases, inl, inr, some,
  List, [], ◌∷◌, ◌++◌, length, take, drop, length-take, length-drop, take-append-drop, ltb, ◌==◌,
  arith, if◌then◌else◌,
}
use hotwired.Socket.Reassembly.{IsOpen, read_exact}
use hotwired.Socket.{Socket, read_all}
use hotwired.TransferHandler.{buffer_size, round_of, Received, continued, receive}
use mathlib.Core.List.{flatten, append_assoc}
use mathlib.Core.Path.{subst}

-- A round takes one byte or more, and no more than are left.
round_of_bounds : (len : ℕ) → 0 < len → (0 < round_of len) × (round_of len ≤ len)
round_of_bounds len h = elim (Bool-cases (ltb len buffer_size)) [
  | inl small ↦ rw small (h, omega arith)
  | inr large ↦ rw large (omega arith, not_ltb len buffer_size large)
]
  where
    not_ltb : (a b : ℕ) → ltb a b ≡ false → b ≤ a
    not_ltb a b h = ground arith

not_zero : (n : ℕ) → 0 < n → (n == 0) ≡ false
not_zero n h = ground arith

-- The whole file was received.
abbrev IsReceived : Received → List ℕ → List ℕ → Type 0
IsReceived r bytes rest = (r.written ≡ bytes) × (r.complete ≡ true) × (flatten r.rest ≡ rest)

receive-IsReceived :
    (n : ℕ) (bytes rest : List ℕ) (sock : Socket)
    → length bytes ≤ n
    → IsOpen sock
    → flatten sock ≡ bytes ++ rest
    → IsReceived (receive n (length bytes) sock) bytes rest
unfolding receive
receive-IsReceived zero [] rest sock h o e = (refl, refl, e)
receive-IsReceived zero (b ∷ bs) rest sock h o e = absurd (omega arith)
receive-IsReceived (suc n) [] rest sock h o e = (refl, refl, e)
receive-IsReceived (suc n) (b ∷ bs) rest sock h o e =
    let bytes = b ∷ bs in
    let len = length bytes in
    let (some_byte, within) = round_of_bounds len (omega arith) in
    let chunk = take (round_of len) bytes in
    let others = drop (round_of len) bytes in
    let whole : length chunk ≡ round_of len =
      omega (arith, length-take (round_of len) bytes, within) in
    let left : len - round_of len ≡ length others = sym (length-drop (round_of len) bytes) in
    let arrives : flatten sock ≡ chunk ++ (others ++ rest) =
      e
      ∙ ap (λ l. l ++ rest) (sym (take-append-drop (round_of len) bytes))
      ∙ append_assoc chunk others rest in
    let (s1, read, behind, opened) = read_exact chunk (others ++ rest) sock o arrives in
    let reads : read_all (round_of len) sock ≡ some (chunk, s1) =
      ap (λ k. read_all k sock) (sym whole) ∙ read in
    let (written, complete, last) =
      receive-IsReceived n others rest s1 (omega (arith, left, some_byte, within)) opened behind in
    let unrolled : receive (suc n) len sock
        ≡ continued (receive n (length others)) sock (some (chunk, s1)) =
      ap
        (λ b.
          if b
          then record { written = []; complete = true; rest = sock }
          else continued (receive n (len - round_of len)) sock (read_all (round_of len) sock))
        (not_zero len (omega arith))
      ∙ ap (λ k. continued (receive n k) sock (read_all (round_of len) sock)) left
      ∙ ap (continued (receive n (length others)) sock) reads in
    subst (λ r. IsReceived r bytes rest) (sym unrolled)
      (ap (λ l. chunk ++ l) written ∙ take-append-drop (round_of len) bytes, complete, last)

-- Where as many bytes arrive as the header announces, in whatever pieces, the loop of xfer_upload
-- ends, has written them all and no other, and leaves what follows on the socket: as many rounds as
-- there are bytes are enough.
pub receive_whole :
    (bytes rest : List ℕ) (sock : Socket)
    → IsOpen sock
    → flatten sock ≡ bytes ++ rest
    → let r = receive (length bytes) (length bytes) sock in
      (r.written ≡ bytes) × (r.complete ≡ true) × (flatten r.rest ≡ rest)
receive_whole bytes rest sock o e =
    receive-IsReceived (length bytes) bytes rest sock (omega arith) o e

-- ===== src/Tests/Sending.antt =====
-- transfer_handler.c.
use hotwired.Prelude.Texts.{codes}
use hotwired.HashTable
use hotwired.Prelude.Bytes.{be32}
use hotwired.TransferHandler.Resuming.{IsHeader, xfer_upload-resumed}
use hotwired.Prelude.{some, false, replicate, ℕ, ◌≡◌, refl, true, none, List, [], ◌∷◌, ◌++◌, arith}
use hotwired.Socket.{Socket}
use hotwired.TransferHandler.Headers.{upload_header-dl_header}
use hotwired.TransferHandler.Receiving.{receive_whole}
use hotwired.TransferHandler.{dl_header, upload_header, receive, TransferInfo, stored, xfer_upload}
use mathlib.Core.List.{flatten}

program : Unit {0}
unfolding dl_header flatten
program = tt

abbrev song : List ℕ
song = codes "song.mp3"

-- All in one piece.
abbrev sent : Socket
sent = dl_header song 1000 ∷ []

upload_header-dl_header_example : upload_header sent ≡ none
unfolding program
upload_header-dl_header_example =
    upload_header-dl_header song 1000 [] sent (omega arith) (omega arith) (omega arith, tt) refl

-- Five bytes in two pieces, and one byte more.
abbrev arriving : Socket
arriving = codes "hel" ∷ codes "lo!" ∷ []

receive_whole_example :
    ((receive 5 5 arriving).written ≡ codes "hello")
    × ((receive 5 5 arriving).complete ≡ true)
    × (flatten (receive 5 5 arriving).rest ≡ codes "!")
unfolding program
receive_whole_example =
    receive_whole (codes "hello") (codes "!") arriving (omega arith, (omega arith, tt)) refl

-- The client sends the end of a file of which five bytes have been sent before.
abbrev start : List ℕ
start = replicate 104 0

abbrev block : List ℕ
block = replicate 18 0

abbrev client_header : List ℕ
client_header = (codes "FILP" ++ start) ++ (be32 4 ++ (block ++ be32 3))

client_header-IsHeader : IsHeader client_header 3
client_header-IsHeader = record {
  start = start;
  block = block;
  len = 4;
  start_length = refl;
  block_length = refl;
  short = omega arith;
  bounded = omega arith;
  parts = refl;
}

abbrev resumed : Socket
resumed = (client_header ++ codes "lo!") ∷ []

abbrev resumption : TransferInfo
resumption = record { mode = 1; offset = 5 }

xfer_upload-resumed_example :
    xfer_upload HashTable.create resumption false (some (codes "hello")) resumed
    ≡ (HashTable.create, stored (codes "hello" ++ codes "lo!"))
unfolding program
xfer_upload-resumed_example =
    xfer_upload-resumed HashTable.create resumption false (codes "hello") (codes "lo!")
      client_header [] resumed refl refl client_header-IsHeader (omega arith, tt) refl

-- ===== src/TransferHandler.antt =====
-- transfer_handler.c: the header that a download sends, the header that an upload reads, and the loop
-- that receives a file. What is written to the disk is the list of its bytes; a write succeeds.
pub mod Headers
pub mod Receiving
pub mod Resuming
use hotwired.Config
use hotwired.Config.{Config}
use hotwired.Prelude.Int.{ℤ, pos, negsuc}
use hotwired.Prelude.Bytes.{be16, be32}
use hotwired.Prelude.Texts.{codes}
use hotwired.Prelude.{
  ℕ, zero, suc, ◌+◌, ◌-◌, ◌^◌, Bool, true, false, Option, none, some, List, [], ◌∷◌, ◌++◌, length,
  replicate, take, drop, ltb, leb, ◌==◌, if◌then◌else◌,
}
use hotwired.Socket.{Socket, read_all, read_int32}

abbrev pub zeros : ℕ → List ℕ
zeros n = replicate n 0

-- The buffer of `xfer_dl_header`, which `write_all` sends, for the bytes of a name and a length.
unfoldable pub dl_header : List ℕ → ℕ → List ℕ
dl_header filename len =
    let l = length filename in
    codes "FILP"
    ++ (be16 1
        ++ (zeros 16
            ++ (be16 2
                ++ (codes "INFO"
                    ++ (zeros 8
                        ++ (be32 (74 + l)
                            ++ (codes "MWIN"
                                ++ (codes "BINAdosa"
                                    ++ (zeros 54
                                        ++ (be32 l
                                            ++ (zeros 2
                                                ++ (filename
                                                    ++ (zeros 2
                                                        ++ (codes "DATA"
                                                            ++ (zeros 8 ++ be32 len)))))))))))))))

-- `strncmp(buf, "FILP", 4) < 0`, for bytes that stand for `unsigned char`.
unfoldable pub below_text : List ℕ → List ℕ → Bool
below_text [] [] = false
below_text [] (d ∷ t) = true
below_text (c ∷ s) [] = false
below_text (c ∷ s) (d ∷ t) =
    let rest = below_text s t in
    if ltb c d then true else if ltb d c then false else if c == 0 then false else rest

abbrev pub file_size : Option (List ℕ × Socket) → Option (ℕ × Socket)
file_size none = none
file_size (some (buf, sock)) = read_int32 sock

-- A block of more than 242 bytes is malformed.
abbrev pub behind_length : Option (ℕ × Socket) → Option (ℕ × Socket)
behind_length none = none
behind_length (some (len, sock)) =
    if ltb 242 len then none else file_size (read_all (len + 14) sock)

abbrev pub behind_start : Option (List ℕ × Socket) → Option (ℕ × Socket)
behind_start none = none
behind_start (some (buf, sock)) =
    if below_text (take 4 buf) (codes "FILP") then none else behind_length (read_int32 sock)

-- The start of `xfer_upload`: the size of the file, and what is left on the socket.
unfoldable pub upload_header : Socket → Option (ℕ × Socket)
upload_header sock = behind_start (read_all 108 sock)

abbrev pub buffer_size : ℕ
buffer_size = 512

-- `BUFFER_SIZE > len ? len : BUFFER_SIZE`
abbrev pub round_of : ℕ → ℕ
round_of len = if ltb len buffer_size then len else buffer_size

-- The bytes that were written to the file, whether all came, and what is left on the socket.
pub record Received : Type 0 where
  pub written : List ℕ
  pub complete : Bool
  pub rest : Socket

abbrev pub continued : (Socket → Received) → Socket → Option (List ℕ × Socket) → Received
continued more sock none = record { written = []; complete = false; rest = sock }
continued more sock (some (buf, left)) =
    let r = more left in record r { written = buf ++ r.written }

-- The loop of `xfer_upload`, with a bound on the rounds.
unfoldable pub receive : ℕ → ℕ → Socket → Received
receive zero len sock = record { written = []; complete = len == 0; rest = sock }
receive (suc n) len sock =
    let more = continued (receive n (len - round_of len)) sock (read_all (round_of len) sock) in
    if len == 0 then record { written = []; complete = true; rest = sock } else more

-- `TransferInfo`
pub record TransferInfo : Type 0 where
  pub mode : ℕ
  pub offset : ℕ

-- What becomes of the partial file: it is as it was, it is left with these bytes, it has been removed,
-- or the file itself has these bytes. `link` and `unlink` succeed.
pub data UploadEnd : Type 0 where
  untouched : UploadEnd
  partial : List ℕ → UploadEnd
  discarded : UploadEnd
  stored : List ℕ → UploadEnd

-- What `write` from a position on makes of a file; a gap is filled with zeros.
unfoldable pub overwritten : List ℕ → ℕ → List ℕ → List ℕ
overwritten old offset bytes =
    take offset old ++ (zeros (offset - length old) ++ (bytes ++ drop (offset + length bytes) old))

abbrev keeps : ℤ → Bool
keeps (pos n) = if n == 1 then false else true
keeps (negsuc n) = true

abbrev left_partial : Config → List ℕ → Config × UploadEnd
left_partial conf bytes =
    let r = Config.truth_value conf (codes "transfers") (codes "remove_partials") in
    (r.0, if keeps r.1 then partial bytes else discarded)

abbrev pub ended : Config → List ℕ → ℕ → Received → Config × UploadEnd
ended conf old offset r =
    let bytes = overwritten old offset r.written in
    let failed = left_partial conf bytes in if r.complete then (conf, stored bytes) else failed

-- The bytes that the file has when it is open, and where the writing starts; `none` is a file that
-- could not be opened.
abbrev pub opened : Config → ℕ → Socket → Option (List ℕ × ℕ) → Config × UploadEnd
opened conf len sock none = (conf, untouched)
opened conf len sock (some (old, offset)) = ended conf old offset (receive len len sock)

abbrev at_offset : ℕ → Option (List ℕ) → Option (List ℕ × ℕ)
at_offset offset none = none
at_offset offset (some old) = some (old, offset)

abbrev pub behind_header :
    Config → TransferInfo → Bool → Option (List ℕ) → Option (ℕ × Socket) → Config × UploadEnd
behind_header conf d creates old none = (conf, untouched)
behind_header conf d creates old (some (len, sock)) =
    let asked = (Config.int_value conf (codes "transfers") (codes "file_umask")).0 in
    if d.mode == 0
    then opened asked len sock (if creates then some ([], 0) else none)
    else opened conf len sock (at_offset d.offset old)

-- `xfer_upload`, in front of `tfm_remove`: whether the partial file can be created, and what it holds.
unfoldable pub xfer_upload :
    Config → TransferInfo → Bool → Option (List ℕ) → Socket → Config × UploadEnd
xfer_upload conf d creates old sock = behind_header conf d creates old (upload_header sock)

-- What `xfer_download` writes to a socket that takes it all, for the file's bytes.
unfoldable pub xfer_download : TransferInfo → List ℕ → List ℕ → List ℕ
xfer_download d filename file =
    let len = length file - d.offset in
    let start = if d.mode == 0 then dl_header filename len else [] in
    if ltb (length file) d.offset then [] else start ++ drop d.offset file

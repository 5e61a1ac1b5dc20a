-- ===== src/TransferHandler/Headers.antt =====
-- The two headers.
use hotwired.TransferHandler.{
  dl_header, below_text, file_size, behind_length, behind_start, upload_header, zeros,
}
use hotwired.Prelude.Bytes.{be16, be32, get32}
use hotwired.Prelude.Texts.{codes}
use hotwired.Prelude.{
  ℕ, ◌+◌, ◌/◌, ◌%◌, ◌^◌, ◌<◌, ◌≡◌, refl, ap, ◌∙◌, true, none, some, List, [], ◌∷◌, ◌++◌, length,
  ltb, lt→ltb, arith, if◌then◌else◌,
}
use hotwired.Socket.Reassembly.{IsOpen, Reads, read_exact}
use hotwired.Socket.{Socket, read_all, read_int32}
use mathlib.Core.List.{flatten}

-- The first 108 bytes of the header, for the length of a name.
abbrev front : ℕ → List ℕ
front l =
    codes "FILP"
    ++ (be16 1
        ++ (zeros 16
            ++ (be16 2
                ++ (codes "INFO"
                    ++ (zeros 8
                        ++ (be32 (74 + l)
                            ++ (codes "MWIN"
                                ++ (codes "BINAdosa"
                                    ++ (zeros 54
                                        ++ ((l / 2 ^ 24 % 256) ∷ (l / 2 ^ 16 % 256) ∷ []))))))))))

abbrev behind_front : List ℕ → ℕ → List ℕ
behind_front filename len =
    zeros 2 ++ (filename ++ (zeros 2 ++ (codes "DATA" ++ (zeros 8 ++ be32 len))))

-- The four bytes that an upload takes for a length.
abbrev mistaken : ℕ → List ℕ
mistaken l = (l / 256 % 256) ∷ (l % 256) ∷ 0 ∷ 0 ∷ []

abbrev remainder : List ℕ → ℕ → List ℕ
remainder filename len = filename ++ (zeros 2 ++ (codes "DATA" ++ (zeros 8 ++ be32 len)))

split_header :
    (filename : List ℕ) (len : ℕ)
    → dl_header filename len
      ≡ front (length filename) ++ (mistaken (length filename) ++ remainder filename len)
unfolding dl_header
split_header filename len = refl

too_long :
    (l : ℕ) (more : List ℕ) → 0 < l → l < 2 ^ 16 → ltb 242 (get32 (mistaken l ++ more)) ≡ true
too_long l more some_name short = lt→ltb 242 (get32 (mistaken l ++ more)) (omega arith)

read_word :
    (s : Socket) (w : List ℕ) (rest : List ℕ)
    → Reads (read_all 4 s) w rest
    → (t : Socket) × (read_int32 s ≡ some (get32 w, t))
unfolding read_int32
read_word s w rest (t, e, f, o) = (t, rw e refl)

-- An upload does not read the header that a download sends: for each name of 1 to 65535 bytes, and
-- in whatever pieces the bytes arrive, it takes the length of the name for one that is 65536 times as
-- large, and gives up. xfer_dl_header puts that length at byte 106, and xfer_upload reads it at 108.
pub upload_header-dl_header :
    (filename : List ℕ) (len : ℕ) (rest : List ℕ) (sock : Socket)
    → 0 < length filename
    → length filename < 2 ^ 16
    → IsOpen sock
    → flatten sock ≡ dl_header filename len ++ rest
    → upload_header sock ≡ none
unfolding upload_header below_text
upload_header-dl_header filename len rest sock some_name short opened arrives =
    let l = length filename in
    let whole : flatten sock ≡ front l ++ (mistaken l ++ (remainder filename len ++ rest)) =
      arrives ∙ ap (λ h. h ++ rest) (split_header filename len) in
    let (s1, read1, left1, open1) = read_exact (front l) _ sock opened whole in
    let (s2, read2) = read_word s1 (mistaken l) _ (read_exact (mistaken l) _ s1 open1 left1) in
    ap behind_start read1
    ∙ ap behind_length read2
    ∙ ap (λ b. if b then none else file_size (read_all (get32 (mistaken l) + 14) s2))
        (too_long l [] some_name short)

-- ===== src/TransferHandler/Resuming.antt =====
-- An upload of the rest of a file.
use hotwired.Config.{Config}
use hotwired.Prelude.Bytes.{be32, get32-be32}
use hotwired.Prelude.Texts.{codes}
use hotwired.Prelude.{
  ℕ, ◌+◌, ◌-◌, ◌^◌, ◌<◌, ◌≤◌, ◌≡◌, refl, ap, sym, ◌∙◌, true, false, Bool, none, some, List, [], ◌∷◌,
  ◌++◌, length, take, drop, take-all, ltb, ◌==◌, arith, if◌then◌else◌,
}
use hotwired.Socket.Reassembly.{IsOpen, Reads, read_exact}
use hotwired.Socket.{Socket, read_all, read_int32}
use hotwired.TransferHandler.Receiving.{receive_whole}
use hotwired.TransferHandler.{
  below_text, behind_length, behind_start, file_size, upload_header, Received, receive,
  TransferInfo, stored, overwritten, ended, opened, behind_header, xfer_upload, zeros,
}
use hotwired.Transaction.PathName.Offsets.{drop-nil}
use native.Mathlib.Nat.{suc-add}
use mathlib.Core.List.{flatten, append_assoc, append-nil}

-- The header that a client sends: 104 bytes behind the tag, a length, as many bytes and 14 more, and
-- the size of what follows.
pub record IsHeader (header : List ℕ) (size : ℕ) : Type 0 where
  pub start : List ℕ
  pub block : List ℕ
  pub len : ℕ
  pub start_length : length start ≡ 104
  pub block_length : length block ≡ len + 14
  pub short : len ≤ 242
  pub bounded : size < 2 ^ 32
  pub parts : header ≡ (codes "FILP" ++ start) ++ (be32 len ++ (block ++ be32 size))

not_long : (l : ℕ) → l ≤ 242 → ltb 242 l ≡ false
not_long l h = ground arith

read_number :
    (s : Socket) (v : ℕ) (rest : List ℕ)
    → v < 2 ^ 32
    → Reads (read_all 4 s) (be32 v) rest
    → (t : Socket) × (read_int32 s ≡ some (v, t)) × (flatten t ≡ rest) × IsOpen t
unfolding read_int32
read_number s v rest h (t, e, f, o) = (t, rw e (ap (λ w. some (w, t)) (get32-be32 v [] h)), f, o)

upload_header_lem :
    (header rest : List ℕ) (size : ℕ) (sock : Socket)
    → IsHeader header size
    → IsOpen sock
    → flatten sock ≡ header ++ rest
    → (t : Socket) × (upload_header sock ≡ some (size, t)) × (flatten t ≡ rest) × IsOpen t
unfolding upload_header below_text
upload_header_lem header rest size sock h o e =
    let front = codes "FILP" ++ h.start in
    let whole : flatten sock ≡ front ++ (be32 h.len ++ (h.block ++ (be32 size ++ rest))) =
      e
      ∙ ap (λ l. l ++ rest) h.parts
      ∙ append_assoc front (be32 h.len ++ (h.block ++ be32 size)) rest
      ∙ ap (λ l. front ++ (be32 h.len ++ l)) (append_assoc h.block (be32 size) rest) in
    let small : h.len < 2 ^ 32 = omega (arith, h.short) in
    let (s1, read1, left1, open1) = read_exact front _ sock o whole in
    let (s2, read2, left2, open2) =
      read_number s1 h.len _ small (read_exact (be32 h.len) _ s1 open1 left1) in
    let (s3, read3, left3, open3) = read_exact h.block _ s2 open2 left2 in
    let (s4, read4, left4, open4) =
      read_number s3 size rest h.bounded (read_exact (be32 size) rest s3 open3 left3) in
    let starts : read_all 108 sock ≡ some (front, s1) =
      ap (λ n. read_all n sock) (omega (arith, h.start_length)) ∙ read1 in
    let blocks : read_all (h.len + 14) s2 ≡ some (h.block, s3) =
      ap (λ n. read_all n s2) (sym h.block_length) ∙ read3 in
    (
      s4,
      ap behind_start starts
          ∙ ap behind_length read2
          ∙ ap (λ b. if b then none else file_size (read_all (h.len + 14) s2))
              (not_long h.len h.short)
          ∙ ap file_size blocks
          ∙ read4,
      left4,
      open4,
    )

sub_self : (n : ℕ) → n - n ≡ 0
sub_self n = omega arith

overwritten_end : (old bytes : List ℕ) → overwritten old (length old) bytes ≡ old ++ bytes
unfolding overwritten
overwritten_end old bytes =
    ap (λ n. take (length old) old ++ (zeros n ++ (bytes ++ drop (length old + length bytes) old)))
      (sub_self (length old))
    ∙ ap (λ l. l ++ (bytes ++ drop (length old + length bytes) old)) (take-all old)
    ∙ ap (λ l. old ++ (bytes ++ l)) (drop_past old (length bytes))
    ∙ ap (λ l. old ++ l) (append-nil bytes)
  where
    drop_past : (l : List ℕ) (n : ℕ) → drop (length l + n) l ≡ []
    drop_past [] n = drop-nil (0 + n)
    drop_past (x ∷ l) n = rw suc-add (drop_past l n)

ended-complete :
    (conf : Config) (old : List ℕ) (offset : ℕ) (r : Received)
    → r.complete ≡ true
    → ended conf old offset r ≡ (conf, stored (overwritten old offset r.written))
ended-complete conf old offset r h = rw h refl

behind_header-resumed :
    (conf : Config) (d : TransferInfo) (creates : Bool) (old : List ℕ) (len : ℕ) (sock : Socket)
    → (d.mode == 0) ≡ false
    → behind_header conf d creates (some old) (some (len, sock))
      ≡ ended conf old d.offset (receive len len sock)
behind_header-resumed conf d creates old len sock h = rw h refl

-- Where the partial file has the first bytes of a file, and its client goes on behind them with a
-- header and the other bytes, xfer_upload stores the whole file, in whatever pieces the bytes arrive.
pub xfer_upload-resumed :
    (conf : Config) (d : TransferInfo) (creates : Bool) (old bytes header rest : List ℕ)
    (sock : Socket)
    → (d.mode == 0) ≡ false
    → d.offset ≡ length old
    → IsHeader header (length bytes)
    → IsOpen sock
    → flatten sock ≡ header ++ (bytes ++ rest)
    → xfer_upload conf d creates (some old) sock ≡ (conf, stored (old ++ bytes))
unfolding xfer_upload
xfer_upload-resumed conf d creates old bytes header rest sock resumes at h o e =
    let (t, read, left, opened) =
      upload_header_lem header (bytes ++ rest) (length bytes) sock h o e in
    let (written, complete, behind) = receive_whole bytes rest t opened left in
    ap (behind_header conf d creates (some old)) read
    ∙ behind_header-resumed conf d creates old (length bytes) t resumes
    ∙ ended-complete conf old d.offset (receive (length bytes) (length bytes) t) complete
    ∙ ap (λ n. (conf, stored (overwritten old n (receive (length bytes) (length bytes) t).written)))
        at
    ∙ ap (λ l. (conf, stored (overwritten old (length old) l))) written
    ∙ ap (λ l. (conf, stored l)) (overwritten_end old bytes)

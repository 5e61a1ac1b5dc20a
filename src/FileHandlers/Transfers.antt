-- ===== src/FileHandlers/Transfers.antt =====
-- `txn_download`, `txn_upload` and `txn_xfer_cancel`. `now` is the
-- second of `gettimeofday`, and `garbage` the position of an upload, which is not set.
use hotwired.FileHandlers.{
  Site, Outcome, answer, error, success, privileged, Wanted, want_download, want_upload, wanted,
  location,
}
use hotwired.FileOps.{FileSystem, Stat, file_path}
use hotwired.Prelude.Bytes.{be32}
use hotwired.Prelude.Texts.{codes}
use hotwired.Prelude.{
  ℕ, ◌+◌, ◌-◌, ◌%◌, ◌^◌, Bool, false, ◌&&◌, Option, none, some, List, ◌∷◌, ◌++◌, replicate, ltb,
  ◌==◌, if◌then◌else◌,
}
use hotwired.Transaction.Objects.{object_index, object_at, object_int32}
use hotwired.Transaction.{
  TransactionIn, TransactionOut, reply_create, add_int16, add_int32, add_object,
}
use hotwired.TransferManager.Waiting.{
  UploadAnswer, upload_number, no_slot, conflict, add_upload, position, owner, remove,
}
use hotwired.TransferManager.{TransferManager, add_download}

abbrev queued : TransactionOut → Option ℕ → TransactionOut
queued reply none = reply
queued reply (some queue_position) =
    if queue_position == 0 then reply else add_int16 reply 116 queue_position

-- `offset > st.st_size`, for the `int32_t` that the word is.
abbrev pub exceeds : ℕ → ℕ → Bool
exceeds offset size = ltb offset (2 ^ 31) && ltb size offset

-- The 58 bytes of the header for a resumption.
abbrev resume_header : ℕ → List ℕ
resume_header offset =
    codes "RFLT" ++ 0 ∷ 1 ∷ replicate 35 0 ++ 2 ∷ codes "DATA" ++ be32 offset ++ replicate 8 0

abbrev resumed : TransactionOut → ℕ → ℕ → TransactionOut
resumed reply mode offset =
    if mode == 0 then reply else add_object reply 203 (resume_header offset) 58

-- An `int` as a key of the collection of transfers.
abbrev pub as_key : ℕ → ℕ
as_key tid = if ltb tid (2 ^ 31) then tid else tid + 2 ^ 64 - 2 ^ 32

abbrev pub is_user : ℕ → Option ℕ → Bool
is_user uid none = false
is_user uid (some user) = user == uid

module _ {F : FileSystem} where
  -- The size that is left, as an `int32_t`.
  abbrev pub download_answered :
      Site F → ℕ → TransactionIn → ℕ → ℕ → TransferManager × Option ℕ → Outcome F
  download_answered s uid t size offset (transfers, none) =
      error (record s { transfers = transfers }) uid t (codes "Error: No download slots available.")
  download_answered s uid t size offset (transfers, some tid) =
      let r = position transfers tid in
      let reply =
        add_int32
          (add_int32 (add_int16 (reply_create t 0 4) 207 20) 108
            ((size % 2 ^ 32 + 2 ^ 32 - offset) % 2 ^ 32))
          107 tid in
      answer (record s { transfers = r.0 }) uid (queued reply r.1)

  abbrev pub download_found :
      ℕ → Site F → ℕ → TransactionIn → Wanted → List ℕ → Option Stat → Outcome F
  download_found now s uid t w full none = error s uid t (codes "Error: File not found/no access.")
  download_found now s uid t w full (some st) =
      if exceeds w.offset st.size
      then error s uid t (codes "Error: Can't resume download due to file size mismatch.")
      else download_answered s uid t st.size w.offset
          (add_download now s.transfers uid full w.mode w.offset)

  abbrev pub download_at : ℕ → Site F → ℕ → TransactionIn → Wanted → Option (List ℕ) → Outcome F
  download_at now s uid t w none = error s uid t (codes "Error: File not found/no access.")
  download_at now s uid t w (some full) =
      download_found now s uid t w full (F.stat s.files.disk full)

  abbrev pub download_named : ℕ → Site F → ℕ → TransactionIn → Wanted → Option (List ℕ) → Outcome F
  download_named now s uid t w none = error s uid t (codes "Error: No file to download specified.")
  download_named now s uid t w (some file) =
      download_at now s uid t w (file_path F s.files w.path file)

  abbrev pub download_wanted : ℕ → Site F → ℕ → TransactionIn → Option Wanted → Outcome F
  download_wanted now s uid t none = none
  download_wanted now s uid t (some w) = download_named now s uid t w w.file

  unfoldable pub txn_download : ℕ → Site F → ℕ → TransactionIn → Outcome F
  txn_download now s uid t =
      privileged s uid t 2 (codes "Error: You are not allowed to download files.")
        (λ asked. download_wanted now asked uid t (wanted want_download t))

  abbrev pub upload_answered :
      Site F → ℕ → TransactionIn → ℕ → ℕ → TransferManager × UploadAnswer → Outcome F
  upload_answered s uid t mode offset (transfers, conflict) =
      error (record s { transfers = transfers }) uid t
        (codes "Error: Another user is currently uploading the specified file.")
  upload_answered s uid t mode offset (transfers, no_slot) =
      error (record s { transfers = transfers }) uid t (codes "Error: No upload slots available.")
  upload_answered s uid t mode offset (transfers, upload_number tid) =
      answer (record s { transfers = transfers }) uid
        (resumed (add_int32 (reply_create t 0 2) 107 tid) mode offset)

  abbrev pub upload_from : ℕ → ℕ → Site F → ℕ → TransactionIn → List ℕ → ℕ → ℕ → Outcome F
  upload_from garbage now s uid t full mode offset =
      upload_answered s uid t mode offset (add_upload garbage now s.transfers uid full mode offset)

  abbrev no_partial : Site F → ℕ → TransactionIn → Outcome F
  no_partial s uid t =
      error s uid t (
        codes "Error: The specified file cannot be resumed because it is not a valid partial file.")

  -- With a mode, the size of the partial file is the offset.
  abbrev pub upload_partial :
      ℕ → ℕ → Site F → ℕ → TransactionIn → List ℕ → ℕ → Option Stat → Outcome F
  upload_partial garbage now s uid t full mode none = no_partial s uid t
  upload_partial garbage now s uid t full mode (some st) =
      if st.is_reg
      then upload_from garbage now s uid t full mode (st.size % 2 ^ 32)
      else no_partial s uid t

  abbrev pub upload_free :
      ℕ → ℕ → Site F → ℕ → TransactionIn → List ℕ → List ℕ → ℕ → Option Stat → Outcome F
  upload_free garbage now s uid t full file mode (some st) =
      error s uid t (codes "Error: The file '" ++ file ++ codes "' already exists.")
  upload_free garbage now s uid t full file mode none =
      if mode == 0
      then upload_from garbage now s uid t full mode 0
      else upload_partial garbage now s uid t full mode (F.stat s.files.disk (full ++ codes ".hpf"))

  abbrev pub upload_at :
      ℕ → ℕ → Site F → ℕ → TransactionIn → List ℕ → ℕ → Option (List ℕ) → Outcome F
  upload_at garbage now s uid t file mode none =
      error s uid t (codes "Error: Invalid path specified.")
  upload_at garbage now s uid t file mode (some full) =
      upload_free garbage now s uid t full file mode (F.stat s.files.disk full)

  abbrev pub upload_anywhere : ℕ → ℕ → ℕ → TransactionIn → Wanted → List ℕ → Site F → Outcome F
  upload_anywhere garbage now uid t w file s =
      upload_at garbage now s uid t file w.mode (location s.files w.path file)

  abbrev pub upload_named :
      ℕ → ℕ → Site F → ℕ → TransactionIn → Wanted → Option (List ℕ) → Outcome F
  upload_named garbage now s uid t w none = error s uid t (codes "Error: No filename specified.")
  upload_named garbage now s uid t w (some file) =
      privileged s uid t 25 (codes "Error: You are not allowed to upload to that location.")
        (upload_anywhere garbage now uid t w file)

  abbrev pub upload_wanted : ℕ → ℕ → Site F → ℕ → TransactionIn → Option Wanted → Outcome F
  upload_wanted garbage now s uid t none = none
  upload_wanted garbage now s uid t (some w) = upload_named garbage now s uid t w w.file

  unfoldable pub txn_upload : ℕ → ℕ → Site F → ℕ → TransactionIn → Outcome F
  txn_upload garbage now s uid t =
      privileged s uid t 1 (codes "Error: You are not allowed to upload files.")
        (λ asked. upload_wanted garbage now asked uid t (wanted want_upload t))

  abbrev pub cancelled : Site F → ℕ → TransactionIn → Option TransferManager → Outcome F
  cancelled s uid t none = none
  cancelled s uid t (some transfers) = success (record s { transfers = transfers }) uid t

  abbrev pub cancel_owned : ℕ → ℕ → Site F → ℕ → TransactionIn → ℕ → Outcome F
  cancel_owned rounds now s uid t tid =
      let r = owner s.transfers tid in
      let asked = record s { transfers = r.0 } in
      if is_user uid r.1
      then cancelled asked uid t (remove rounds now r.0 tid)
      else error asked uid t (codes "Error: Invalid transfer ID")

  abbrev pub cancel_at : ℕ → ℕ → Site F → ℕ → TransactionIn → Option ℕ → Outcome F
  cancel_at rounds now s uid t none = error s uid t (codes "Error: No transfer ID specified")
  cancel_at rounds now s uid t (some i) =
      cancel_owned rounds now s uid t (as_key (object_int32 (object_at t i)))

  unfoldable pub txn_xfer_cancel : ℕ → ℕ → Site F → ℕ → TransactionIn → Outcome F
  txn_xfer_cancel rounds now s uid t = cancel_at rounds now s uid t (object_index t 107)

-- ===== src/FileHandlers/Reading.antt =====
-- The handlers that change nothing on the disk.
use hotwired.FileHandlers.Changes.{path_object}
use hotwired.FileHandlers.Confinement.{Leaves, error-Leaves, success-Leaves, asked-Leaves}
use hotwired.FileHandlers.Transfers.{
  download_answered, download_found, download_at, download_named, download_wanted, txn_download,
  exceeds, upload_answered, upload_partial, upload_free, upload_at, upload_named, upload_wanted,
  txn_upload, as_key, cancelled, cancel_owned, cancel_at, txn_xfer_cancel, is_user,
}
use hotwired.FileHandlers.Views.{
  listed, list_path, txn_filelist, info_file, info_found, info_at, info_path, info_named,
  txn_file_info,
}
use hotwired.FileHandlers.{Site, answer, Wanted, want_download, want_upload, wanted, location}
use hotwired.FileOps.Listing.{list_create, Listed, list_create-Listed}
use hotwired.FileOps.Types.{ExtTable, f_type}
use hotwired.FileOps.{FileSystem, Stat, Files, file_path}
use hotwired.Handlers.Login.{string_of}
use hotwired.Prelude.Texts.{codes, text_at}
use hotwired.Prelude.{ℕ, ◌%◌, ◌^◌, Bool-cases, inl, inr, Option, none, some, List, ◌++◌, ◌==◌}
use hotwired.Transaction.Objects.{object_index, object_at, object_int32, Tm}
use hotwired.Transaction.PathName.{PathResult, null, fault, path}
use hotwired.Transaction.{TransactionIn, TransactionOut}
use hotwired.TransferManager.Waiting.{
  UploadAnswer, upload_number, no_slot, conflict, add_upload, position, owner, remove,
}
use hotwired.TransferManager.{TransferManager, add_download}

module _ {F : FileSystem} (P : F.Disk → Type 0) where
  answer-Leaves :
      (s : Site F) (uid : ℕ) (reply : TransactionOut)
      → P s.files.disk
      → Leaves P (answer s uid reply)
  unfolding answer
  answer-Leaves s uid reply p = p

  listed-Leaves :
      (s : Site F) (uid : ℕ) (o : Option (Files F × TransactionOut))
      → Listed {F = F} P o
      → Leaves P (listed s uid o)
  listed-Leaves s uid none l = tt
  listed-Leaves s uid (some (files, reply)) l =
      answer-Leaves (record s { files = files }) uid reply l

  pub txn_filelist-Leaves :
      (s : Site F) (uid : ℕ) (t : TransactionIn) → P s.files.disk → Leaves P (txn_filelist s uid t)
  unfolding txn_filelist
  txn_filelist-Leaves s uid t p = by_path (path_object t (object_index t 202))
    where
      by_path : (r : PathResult) → Leaves P (list_path s uid t r)
      by_path null =
          listed-Leaves s uid (list_create F s.files t none) (list_create-Listed P s.files t none p)
      by_path fault = tt
      by_path (path q) =
          listed-Leaves s uid (list_create F s.files t (some (text_at q)))
            (list_create-Listed P s.files t (some (text_at q)) p)

  pub txn_file_info-Leaves :
      (localtime : ℕ → Tm) (s : Site F) (uid : ℕ) (t : TransactionIn)
      → P s.files.disk
      → Leaves P (txn_file_info localtime s uid t)
  unfolding txn_file_info
  txn_file_info-Leaves localtime s uid t p = by_name (string_of t (object_index t 201))
    where
      by_table :
          (file : List ℕ) (st : Stat) (table : Option ExtTable)
          → Leaves P (info_file localtime s uid t file st table)
      by_table file st none = tt
      by_table file st (some table) =
          answer-Leaves
            (record s { files = record s.files { ext_table = some (f_type table file).0 } }) uid _ p

      by_stat : (file : List ℕ) (st : Option Stat) → Leaves P (info_found localtime s uid t file st)
      by_stat file none = error-Leaves P s uid t _ p
      by_stat file (some st) = elim (Bool-cases st.is_dir) [
        | inl folder ↦ rw folder (answer-Leaves s uid _ p)
        | inr plain ↦ rw plain (by_table file st s.files.ext_table)
      ]

      found : (file : List ℕ) (o : Option (List ℕ)) → Leaves P (info_at localtime s uid t file o)
      found file none = error-Leaves P s uid t _ p
      found file (some full) = by_stat file (F.stat s.files.disk full)

      by_path : (file : List ℕ) (r : PathResult) → Leaves P (info_path localtime s uid t file r)
      by_path file null = found file (file_path F s.files none file)
      by_path file fault = tt
      by_path file (path q) = found file (file_path F s.files (some (text_at q)) file)

      by_name : (o : Option (List ℕ)) → Leaves P (info_named localtime s uid t o)
      by_name none = error-Leaves P s uid t _ p
      by_name (some file) = by_path file (path_object t (object_index t 202))

  pub txn_download-Leaves :
      (now : ℕ) (s : Site F) (uid : ℕ) (t : TransactionIn)
      → P s.files.disk
      → Leaves P (txn_download now s uid t)
  unfolding txn_download
  txn_download-Leaves now s uid t p =
      asked-Leaves P s uid t 2 _ _ p
        (λ server. by_wish (record s { server = server }) p (wanted want_download t))
    where
      added :
          (s : Site F)
          → P s.files.disk
          → (size offset : ℕ) (r : TransferManager × Option ℕ)
          → Leaves P (download_answered s uid t size offset r)
      added s p size offset (transfers, none) =
          error-Leaves P (record s { transfers = transfers }) uid t _ p
      added s p size offset (transfers, some tid) =
          answer-Leaves (record s { transfers = (position transfers tid).0 }) uid _ p

      by_stat :
          (s : Site F)
          → P s.files.disk
          → (wish : Wanted) (full : List ℕ) (st : Option Stat)
          → Leaves P (download_found now s uid t wish full st)
      by_stat s p wish full none = error-Leaves P s uid t _ p
      by_stat s p wish full (some st) = elim (Bool-cases (exceeds wish.offset st.size)) [
        | inl past ↦ rw past (error-Leaves P s uid t _ p)
        | inr inside ↦ rw inside (
            added s p st.size wish.offset
              (add_download now s.transfers uid full wish.mode wish.offset))
      ]

      found :
          (s : Site F)
          → P s.files.disk
          → (wish : Wanted) (o : Option (List ℕ)) → Leaves P (download_at now s uid t wish o)
      found s p wish none = error-Leaves P s uid t _ p
      found s p wish (some full) = by_stat s p wish full (F.stat s.files.disk full)

      by_name :
          (s : Site F)
          → P s.files.disk
          → (wish : Wanted) (o : Option (List ℕ)) → Leaves P (download_named now s uid t wish o)
      by_name s p wish none = error-Leaves P s uid t _ p
      by_name s p wish (some file) = found s p wish (file_path F s.files wish.path file)

      by_wish :
          (s : Site F)
          → P s.files.disk
          → (o : Option Wanted) → Leaves P (download_wanted now s uid t o)
      by_wish s p none = tt
      by_wish s p (some wish) = by_name s p wish wish.file

  pub txn_upload-Leaves :
      (garbage now : ℕ) (s : Site F) (uid : ℕ) (t : TransactionIn)
      → P s.files.disk
      → Leaves P (txn_upload garbage now s uid t)
  unfolding txn_upload
  txn_upload-Leaves garbage now s uid t p =
      asked-Leaves P s uid t 1 _ _ p
        (λ server. by_wish (record s { server = server }) p (wanted want_upload t))
    where
      added :
          (s : Site F)
          → P s.files.disk
          → (mode offset : ℕ) (r : TransferManager × UploadAnswer)
          → Leaves P (upload_answered s uid t mode offset r)
      added s p mode offset (transfers, conflict) =
          error-Leaves P (record s { transfers = transfers }) uid t _ p
      added s p mode offset (transfers, no_slot) =
          error-Leaves P (record s { transfers = transfers }) uid t _ p
      added s p mode offset (transfers, upload_number tid) =
          answer-Leaves (record s { transfers = transfers }) uid _ p

      by_partial :
          (s : Site F)
          → P s.files.disk
          → (full : List ℕ) (mode : ℕ) (st : Option Stat)
          → Leaves P (upload_partial garbage now s uid t full mode st)
      by_partial s p full mode none = error-Leaves P s uid t _ p
      by_partial s p full mode (some st) = elim (Bool-cases st.is_reg) [
        | inl plain ↦ rw plain (
            added s p mode (st.size % 2 ^ 32)
              (add_upload garbage now s.transfers uid full mode (st.size % 2 ^ 32)))
        | inr other ↦ rw other (error-Leaves P s uid t _ p)
      ]

      by_stat :
          (s : Site F)
          → P s.files.disk
          → (full file : List ℕ) (mode : ℕ) (st : Option Stat)
          → Leaves P (upload_free garbage now s uid t full file mode st)
      by_stat s p full file mode (some st) = error-Leaves P s uid t _ p
      by_stat s p full file mode none = elim (Bool-cases (mode == 0)) [
        | inl whole ↦
            rw whole (added s p mode 0 (add_upload garbage now s.transfers uid full mode 0))
        | inr resumed ↦
            rw resumed (by_partial s p full mode (F.stat s.files.disk (full ++ codes ".hpf")))
      ]

      found :
          (s : Site F)
          → P s.files.disk
          → (file : List ℕ) (mode : ℕ) (o : Option (List ℕ))
          → Leaves P (upload_at garbage now s uid t file mode o)
      found s p file mode none = error-Leaves P s uid t _ p
      found s p file mode (some full) = by_stat s p full file mode (F.stat s.files.disk full)

      by_name :
          (s : Site F)
          → P s.files.disk
          → (wish : Wanted) (o : Option (List ℕ))
          → Leaves P (upload_named garbage now s uid t wish o)
      by_name s p wish none = error-Leaves P s uid t _ p
      by_name s p wish (some file) = asked-Leaves P s uid t 25 _ _ p (λ server.
          found (record s { server = server }) p file wish.mode (location s.files wish.path file))

      by_wish :
          (s : Site F)
          → P s.files.disk
          → (o : Option Wanted) → Leaves P (upload_wanted garbage now s uid t o)
      by_wish s p none = tt
      by_wish s p (some wish) = by_name s p wish wish.file

  pub txn_xfer_cancel-Leaves :
      (rounds now : ℕ) (s : Site F) (uid : ℕ) (t : TransactionIn)
      → P s.files.disk
      → Leaves P (txn_xfer_cancel rounds now s uid t)
  unfolding txn_xfer_cancel
  txn_xfer_cancel-Leaves rounds now s uid t p = by_index (object_index t 107)
    where
      removed :
          (s : Site F)
          → P s.files.disk
          → (o : Option TransferManager) → Leaves P (cancelled s uid t o)
      removed s p none = tt
      removed s p (some transfers) = success-Leaves P (record s { transfers = transfers }) uid t p

      owned : (tid : ℕ) → Leaves P (cancel_owned rounds now s uid t tid)
      owned tid = elim (Bool-cases (is_user uid (owner s.transfers tid).1)) [
        | inl own ↦ rw own (
            removed (record s { transfers = (owner s.transfers tid).0 }) p
              (remove rounds now (owner s.transfers tid).0 tid))
        | inr other ↦
            rw other (error-Leaves P (record s { transfers = (owner s.transfers tid).0 }) uid t _ p)
      ]

      by_index : (o : Option ℕ) → Leaves P (cancel_at rounds now s uid t o)
      by_index none = error-Leaves P s uid t _ p
      by_index (some i) = owned (as_key (object_int32 (object_at t i)))

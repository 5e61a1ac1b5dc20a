-- ===== src/FileHandlers/Views.antt =====
-- `txn_filelist` and `txn_file_info`.
use hotwired.FileHandlers.Changes.{path_object}
use hotwired.FileHandlers.{Site, Outcome, answer, error}
use hotwired.FileOps.Listing.{list_create}
use hotwired.FileOps.Types.{ExtTable, f_type}
use hotwired.FileOps.{FileSystem, Stat, Files, file_path}
use hotwired.Handlers.Login.{string_of}
use hotwired.Prelude.Texts.{codes, text_at}
use hotwired.Prelude.{ℕ, Option, none, some, List, drop, if◌then◌else◌}
use hotwired.Transaction.Objects.{object_index, add_timestamp, Tm}
use hotwired.Transaction.PathName.{PathResult, null, fault, path}
use hotwired.Transaction.{
  TransactionIn, TransactionOut, reply_create, add_int32, add_object, add_string,
}

abbrev info_end : (ℕ → Tm) → List ℕ → Stat → TransactionOut → TransactionOut
info_end localtime file st reply =
    add_timestamp localtime (add_timestamp localtime (add_string reply 201 file) 208 st.ctime) 209
      st.mtime

abbrev typed : TransactionOut → List ℕ → ℕ → TransactionOut
typed reply type size =
    add_int32 (add_object (add_object (add_object reply 213 type 4) 205 type 4) 206 (drop 4 type) 4)
      207 size

abbrev folder_info : TransactionOut → TransactionOut
folder_info reply =
    add_string (add_string (add_string reply 213 (codes "fldr")) 205 (codes "Folder")) 206
      (codes "n/a")

module _ {F : FileSystem} where
  abbrev pub listed : Site F → ℕ → Option (Files F × TransactionOut) → Outcome F
  listed s uid none = none
  listed s uid (some (files, reply)) = answer (record s { files = files }) uid reply

  abbrev pub list_path : Site F → ℕ → TransactionIn → PathResult → Outcome F
  list_path s uid t null = listed s uid (list_create F s.files t none)
  list_path s uid t fault = none
  list_path s uid t (path p) = listed s uid (list_create F s.files t (some (text_at p)))

  unfoldable pub txn_filelist : Site F → ℕ → TransactionIn → Outcome F
  txn_filelist s uid t = list_path s uid t (path_object t (object_index t 202))

  abbrev pub info_file :
      (ℕ → Tm) → Site F → ℕ → TransactionIn → List ℕ → Stat → Option ExtTable → Outcome F
  info_file localtime s uid t file st none = none
  info_file localtime s uid t file st (some ext_table) =
      let r = f_type ext_table file in
      answer (record s { files = record s.files { ext_table = some r.0 } }) uid
        (info_end localtime file st (typed (reply_create t 0 7) r.1 st.size))

  abbrev pub info_found : (ℕ → Tm) → Site F → ℕ → TransactionIn → List ℕ → Option Stat → Outcome F
  info_found localtime s uid t file none = error s uid t (codes "Error: Invalid path specified.")
  info_found localtime s uid t file (some st) =
      let plain = info_file localtime s uid t file st s.files.ext_table in
      if st.is_dir
      then answer s uid (info_end localtime file st (folder_info (reply_create t 0 7)))
      else plain

  abbrev pub info_at : (ℕ → Tm) → Site F → ℕ → TransactionIn → List ℕ → Option (List ℕ) → Outcome F
  info_at localtime s uid t file none = error s uid t (codes "Error: Invalid path specified.")
  info_at localtime s uid t file (some pathname) =
      info_found localtime s uid t file (F.stat s.files.disk pathname)

  abbrev pub info_path : (ℕ → Tm) → Site F → ℕ → TransactionIn → List ℕ → PathResult → Outcome F
  info_path localtime s uid t file null =
      info_at localtime s uid t file (file_path F s.files none file)
  info_path localtime s uid t file fault = none
  info_path localtime s uid t file (path p) =
      info_at localtime s uid t file (file_path F s.files (some (text_at p)) file)

  abbrev pub info_named : (ℕ → Tm) → Site F → ℕ → TransactionIn → Option (List ℕ) → Outcome F
  info_named localtime s uid t none = error s uid t (codes "Error: No filename specified.")
  info_named localtime s uid t (some file) =
      info_path localtime s uid t file (path_object t (object_index t 202))

  unfoldable pub txn_file_info : (ℕ → Tm) → Site F → ℕ → TransactionIn → Outcome F
  txn_file_info localtime s uid t = info_named localtime s uid t (string_of t (object_index t 201))

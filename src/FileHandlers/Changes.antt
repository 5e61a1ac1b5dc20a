-- ===== src/FileHandlers/Changes.antt =====
-- `txn_create_folder`, `txn_delete`, `txn_move` and `txn_rename`.
use hotwired.Config
use hotwired.FileHandlers.{
  Site, Outcome, error, success, privileged, Wanted, want, want_move, wanted, location,
}
use hotwired.FileOps.Removal.{rmdir_recursive}
use hotwired.FileOps.{FileSystem, Stat, Files, file_path}
use hotwired.Handlers.Login.{string_of}
use hotwired.Prelude.Int.{ℤ, pos, negsuc}
use hotwired.Prelude.Texts.{codes, text_at}
use hotwired.Prelude.{ℕ, Bool, true, false, Option, none, some, List, if◌then◌else◌}
use hotwired.Transaction.Objects.{object_index, object_at}
use hotwired.Transaction.PathName.{PathResult, null, fault, path, object_path}
use hotwired.Transaction.{TransactionIn}

-- 0755
abbrev pub umask_of : ℤ → ℕ
umask_of (pos n) = n
umask_of (negsuc n) = 493

abbrev pub path_object : TransactionIn → Option ℕ → PathResult
path_object t none = null
path_object t (some i) = object_path (object_at t i)

module _ {F : FileSystem} where
  -- A system call has answered.
  unfoldable pub called : Site F → ℕ → TransactionIn → List ℕ → F.Disk × Bool → Outcome F
  called s uid t message (disk, true) =
      success (record s { files = record s.files { disk = disk } }) uid t
  called s uid t message (disk, false) =
      error (record s { files = record s.files { disk = disk } }) uid t message

  abbrev invalid_path : Site F → ℕ → TransactionIn → Outcome F
  invalid_path s uid t = error s uid t (codes "Error: Invalid path specified.")

  abbrev pub create_at : Site F → ℕ → TransactionIn → Option (List ℕ) → Outcome F
  create_at s uid t none = invalid_path s uid t
  create_at s uid t (some full) =
      let r = Config.int_value s.files.conf (codes "transfers") (codes "file_umask") in
      let asked = record s { files = record s.files { conf = r.0 } } in
      called asked uid t (codes "Error: Couldn't create the specified directory.")
        (F.mkdir s.files.disk full (umask_of r.1))

  abbrev pub create_named :
      Site F → ℕ → TransactionIn → Option (List ℕ) → Option (List ℕ) → Outcome F
  create_named s uid t folder none = error s uid t (codes "Error: No folder name specified.")
  create_named s uid t folder (some file) = create_at s uid t (location s.files folder file)

  abbrev pub create_wanted : Site F → ℕ → TransactionIn → Option Wanted → Outcome F
  create_wanted s uid t none = none
  create_wanted s uid t (some w) = create_named s uid t w.path w.file

  unfoldable pub txn_create_folder : Site F → ℕ → TransactionIn → Outcome F
  txn_create_folder s uid t =
      privileged s uid t 5 (codes "Error: You are not allowed to create folders.")
        (λ asked. create_wanted asked uid t (wanted want t))

  abbrev pub removed_folder : Site F → ℕ → TransactionIn → Option (Files F × Bool) → Outcome F
  removed_folder s uid t none = none
  removed_folder s uid t (some (files, true)) = success (record s { files = files }) uid t
  removed_folder s uid t (some (files, false)) =
      error (record s { files = files }) uid t
        (codes
          "Error: Couldn't completely remove the specified directory. (check permissions or global::allow_recursive_remove)")

  abbrev pub delete_folder : ℕ → TransactionIn → List ℕ → Site F → Outcome F
  delete_folder uid t full s = removed_folder s uid t (rmdir_recursive F s.files full)

  abbrev pub delete_file : ℕ → TransactionIn → List ℕ → Site F → Outcome F
  delete_file uid t full s =
      called s uid t (codes "Error: Couldn't remove the specified file.")
        (F.unlink s.files.disk full)

  abbrev pub delete_found : Site F → ℕ → TransactionIn → List ℕ → Option Stat → Outcome F
  delete_found s uid t full none = invalid_path s uid t
  delete_found s uid t full (some st) =
      if st.is_dir
      then privileged s uid t 6 (codes "Error: You are not allowed to delete folders.")
          (delete_folder uid t full)
      else privileged s uid t 0 (codes "Error: You are not allowed to delete files.")
          (delete_file uid t full)

  abbrev pub delete_at : Site F → ℕ → TransactionIn → Option (List ℕ) → Outcome F
  delete_at s uid t none = invalid_path s uid t
  delete_at s uid t (some full) = delete_found s uid t full (F.stat s.files.disk full)

  abbrev pub delete_named :
      Site F → ℕ → TransactionIn → Option (List ℕ) → Option (List ℕ) → Outcome F
  delete_named s uid t folder none = error s uid t (codes "Error: No filename specified.")
  delete_named s uid t folder (some file) = delete_at s uid t (location s.files folder file)

  abbrev pub delete_wanted : Site F → ℕ → TransactionIn → Option Wanted → Outcome F
  delete_wanted s uid t none = none
  delete_wanted s uid t (some w) = delete_named s uid t w.path w.file

  unfoldable pub txn_delete : Site F → ℕ → TransactionIn → Outcome F
  txn_delete s uid t =
      privileged s uid t 6 (codes "Error: You are not allowed to delete folders.")
        (λ asked. delete_wanted asked uid t (wanted want t))

  abbrev pub move_to : ℕ → TransactionIn → List ℕ → Site F → Option (List ℕ) → Outcome F
  move_to uid t source s none = error s uid t (codes "Error: Invalid destination path specified.")
  move_to uid t source s (some dest) =
      called s uid t (codes "Error: Couldn't move the specified file.")
        (F.rename s.files.disk source dest)

  abbrev pub move_allowed :
      ℕ → TransactionIn → List ℕ → Option (List ℕ) → List ℕ → Site F → Outcome F
  move_allowed uid t source dp file s = move_to uid t source s (location s.files dp file)

  abbrev pub move_found :
      Site F → ℕ → TransactionIn → List ℕ → Option (List ℕ) → List ℕ → Option Stat → Outcome F
  move_found s uid t source dp file none =
      error s uid t (codes "Error: Invalid source file specified.")
  move_found s uid t source dp file (some st) =
      if st.is_dir
      then privileged s uid t 8 (codes "Error: You are not allowed to move folders.")
          (move_allowed uid t source dp file)
      else privileged s uid t 4 (codes "Error: You are not allowed to move files.")
          (move_allowed uid t source dp file)

  abbrev pub move_at :
      Site F → ℕ → TransactionIn → Option (List ℕ) → List ℕ → Option (List ℕ) → Outcome F
  move_at s uid t dp file none = error s uid t (codes "Error: Invalid source path specified.")
  move_at s uid t dp file (some source) =
      move_found s uid t source dp file (F.stat s.files.disk source)

  abbrev pub move_named :
      Site F → ℕ → TransactionIn → Option (List ℕ) → Option (List ℕ) → Option (List ℕ) → Outcome F
  move_named s uid t sp dp none = error s uid t (codes "Error: No source filename specified.")
  move_named s uid t sp dp (some file) = move_at s uid t dp file (location s.files sp file)

  abbrev pub move_wanted : Site F → ℕ → TransactionIn → Option Wanted → Outcome F
  move_wanted s uid t none = none
  move_wanted s uid t (some w) = move_named s uid t w.path w.dest w.file

  unfoldable pub txn_move : Site F → ℕ → TransactionIn → Outcome F
  txn_move s uid t = move_wanted s uid t (wanted want_move t)

  abbrev pub rename_allowed : ℕ → TransactionIn → List ℕ → List ℕ → Site F → Outcome F
  rename_allowed uid t source dest s =
      called s uid t (codes "Error: Couldn't rename the specified file.")
        (F.rename s.files.disk source dest)

  abbrev pub rename_found : Site F → ℕ → TransactionIn → List ℕ → List ℕ → Option Stat → Outcome F
  rename_found s uid t source dest none = invalid_path s uid t
  rename_found s uid t source dest (some st) =
      if st.is_dir
      then privileged s uid t 7 (codes "Error: You are not allowed to rename folders.")
          (rename_allowed uid t source dest)
      else privileged s uid t 3 (codes "Error: You are not allowed to rename files.")
          (rename_allowed uid t source dest)

  abbrev pub rename_at : Site F → ℕ → TransactionIn → Option (List ℕ) → Option (List ℕ) → Outcome F
  rename_at s uid t (some source) (some dest) =
      rename_found s uid t source dest (F.stat s.files.disk source)
  rename_at s uid t none dest = invalid_path s uid t
  rename_at s uid t (some source) none = invalid_path s uid t

  -- The first path of the message; none is NULL.
  abbrev rename_in : Site F → ℕ → TransactionIn → List ℕ → List ℕ → Option (List ℕ) → Outcome F
  rename_in s uid t source dest folder =
      rename_at s uid t (file_path F s.files folder source) (file_path F s.files folder dest)

  abbrev pub rename_path : Site F → ℕ → TransactionIn → List ℕ → List ℕ → PathResult → Outcome F
  rename_path s uid t source dest null = rename_in s uid t source dest none
  rename_path s uid t source dest fault = none
  rename_path s uid t source dest (path p) = rename_in s uid t source dest (some (text_at p))

  -- With no name or no new name the handler replies that it has succeeded.
  abbrev pub rename_named :
      Site F → ℕ → TransactionIn → Option (List ℕ) → Option (List ℕ) → Outcome F
  rename_named s uid t (some source) (some dest) =
      rename_path s uid t source dest (path_object t (object_index t 202))
  rename_named s uid t none dest = success s uid t
  rename_named s uid t (some source) none = success s uid t

  unfoldable pub txn_rename : Site F → ℕ → TransactionIn → Outcome F
  txn_rename s uid t =
      rename_named s uid t (string_of t (object_index t 201)) (string_of t (object_index t 211))

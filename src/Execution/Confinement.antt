-- ===== src/Execution/Confinement.antt =====
-- What messages do to the disk.
use hotwired.Collection.Keys.{collection_key}
use hotwired.Collection.View.{IsWellFormed, view}
use hotwired.Collection.{Collection}
use hotwired.Execution.{Environment, run_handler, execute, th_exec}
use hotwired.FileHandlers.Confinement.{IsKept, Leaves, error-Leaves}
use hotwired.FileHandlers.Deletions.{txn_create_folder-Leaves, txn_delete-Leaves}
use hotwired.FileHandlers.Moves.{txn_move-Leaves, txn_rename-Leaves}
use hotwired.FileHandlers.Reading.{
  txn_filelist-Leaves, txn_file_info-Leaves, txn_download-Leaves, txn_upload-Leaves,
  txn_xfer_cancel-Leaves,
}
use hotwired.FileHandlers.{Site, lifted, on_server}
use hotwired.FileOps.{FileSystem}
use hotwired.Handlers
use hotwired.Handlers.Dispatch.{
  Handler, filelist_handler, download_handler, upload_handler, xfer_cancel_handler,
  create_folder_handler, delete_handler, move_handler, rename_handler, file_info_handler,
  find_handler,
}
use hotwired.Handlers.Privileges.{grants}
use hotwired.Handlers.{Server}
use hotwired.Prelude.{ℕ, Option, none, some}
use hotwired.Transaction.Objects.{id}
use hotwired.Transaction.{TransactionIn}

module _ {F : FileSystem} (P : F.Disk → Type 0) (s : Site F) (uid : ℕ) (t : TransactionIn)
    (p : P s.files.disk) where
  on_server-Leaves :
      (work : Server → ℕ → TransactionIn → Handlers.Outcome) → Leaves P (on_server work s uid t)
  unfolding on_server
  on_server-Leaves work = by_outcome (work s.server uid t)
    where
      by_outcome : (o : Handlers.Outcome) → Leaves P (lifted s o)
      by_outcome none = tt
      by_outcome (some r) = p

  module _ (env : Environment) (w : IsWellFormed s.server.connections)
      (kept : IsKept F P s.files.base_path (grants (view s.server.connections uid))) where
    run_handler-Leaves : (h : Handler) → Leaves P (run_handler env h s uid t)
    unfolding run_handler
    run_handler-Leaves filelist_handler = txn_filelist-Leaves P s uid t p
    run_handler-Leaves download_handler = txn_download-Leaves P env.now s uid t p
    run_handler-Leaves upload_handler = txn_upload-Leaves P env.unset_position env.now s uid t p
    run_handler-Leaves xfer_cancel_handler = txn_xfer_cancel-Leaves P env.steps env.now s uid t p
    run_handler-Leaves create_folder_handler = txn_create_folder-Leaves P s uid t w kept p
    run_handler-Leaves delete_handler = txn_delete-Leaves P s uid t w kept p
    run_handler-Leaves move_handler = txn_move-Leaves P s uid t w kept p
    run_handler-Leaves rename_handler = txn_rename-Leaves P s uid t w kept p
    run_handler-Leaves file_info_handler = txn_file_info-Leaves P env.localtime s uid t p
    run_handler-Leaves _ = on_server-Leaves _

    execute-Leaves : (o : Option Handler) → Leaves P (execute env o s uid t)
    execute-Leaves none = error-Leaves P s uid t _ p
    execute-Leaves (some h) = run_handler-Leaves h

-- Whatever a message contains, and whichever handler the table has for it, th_exec, where it ends
-- with no fault and with no walk that does not end, keeps each statement about the file system of
-- the shared directory that is kept by the system calls which the client's privileges allow, on the
-- paths that begin with the base path: mkdir with the privilege to create folders, rmdir and unlink
-- with that to delete folders, and rename with one of those to rename or to move files or folders.
-- So for a client without these no handler that ends so calls one of the four. The file of accounts, which
-- am_commit writes, and the bytes of uploads are not in that file system.
pub th_exec-Leaves :
    {F : FileSystem} (P : F.Disk → Type 0) (env : Environment)
    (transaction_table : Collection ℕ Handler) (s : Site F) (uid : ℕ) (t : TransactionIn)
    → IsWellFormed s.server.connections
    → IsKept F P s.files.base_path (grants (view s.server.connections uid))
    → P s.files.disk
    → Leaves P (th_exec env transaction_table s uid t).1
unfolding th_exec
th_exec-Leaves P env transaction_table s uid t w kept p =
    execute-Leaves P s uid t p env w kept (find_handler transaction_table (id t)).1

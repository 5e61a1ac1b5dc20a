-- ===== src/Execution.antt =====
-- `th_exec` of transaction_handler.c: a message of a client, by the handler that the table has for it.
pub mod Dispatch
pub mod Confinement
use hotwired.Collection.{Collection}
use hotwired.FileHandlers.Changes.{txn_create_folder, txn_delete, txn_move, txn_rename}
use hotwired.FileHandlers.Transfers.{txn_download, txn_upload, txn_xfer_cancel}
use hotwired.FileHandlers.Views.{txn_filelist, txn_file_info}
use hotwired.FileHandlers.{Site, Outcome, error, on_server}
use hotwired.FileOps.{FileSystem}
use hotwired.Handlers.Accounts.{
  Encrypt, txn_read_account, txn_create_account, txn_modify_account, txn_delete_account,
  txn_admin_accounts,
}
use hotwired.Handlers.Dispatch.{
  Handler, login_handler, info_handler, userlist_handler, filelist_handler, download_handler,
  upload_handler, download_folder_handler, upload_folder_handler, xfer_cancel_handler,
  create_folder_handler, delete_handler, move_handler, rename_handler, file_info_handler,
  read_account_handler, create_account_handler, modify_account_handler, delete_account_handler,
  admin_accounts_handler, admin_submit_handler, kick_user_handler, user_info_handler,
  broadcast_handler, send_chat_handler, send_privmsg_handler, request_chat_handler,
  get_news_bundle_handler, ping_handler, find_handler,
}
use hotwired.Handlers.Login.{Settings, txn_login, txn_info, txn_userlist}
use hotwired.Handlers.Messages.{
  txn_broadcast, txn_send_chat, txn_kick_user, txn_user_info, txn_send_privmsg, txn_request_chat,
  txn_get_news_bundle, txn_ping, txn_download_folder, txn_upload_folder,
}
use hotwired.Handlers.Submit.{txn_admin_submit}
use hotwired.Prelude.Texts.{codes}
use hotwired.Prelude.{
  ℕ, zero, suc, ◌+◌, ◌/◌, ◌%◌, Option, none, some, List, [], ◌∷◌, ◌++◌, ltb, if◌then◌else◌,
}
use hotwired.Transaction.Objects.{Tm, id}
use hotwired.Transaction.{TransactionIn}

-- What a handler takes from outside the modelled state: the settings and `crypt`, the bound on the
-- steps of a broadcast and of the loop of tfm_remove, the clock, and what is read where the code reads freed memory, memory that is
-- not set, or memory behind an object.
pub record Environment : Type 0 where
  pub settings : Settings
  pub encrypt : Encrypt
  pub steps : ℕ
  pub now : ℕ
  pub localtime : ℕ → Tm
  pub behind_icon : List ℕ
  pub behind_permissions : List ℕ
  pub freed_name : List ℕ
  pub unset_name : List ℕ
  pub unset_position : ℕ

module _ {F : FileSystem} (env : Environment) where
  unfoldable pub run_handler : Handler → Site F → ℕ → TransactionIn → Outcome F
  run_handler login_handler = on_server (txn_login env.settings)
  run_handler info_handler = on_server (txn_info env.steps env.behind_icon)
  run_handler userlist_handler = on_server txn_userlist
  run_handler filelist_handler = txn_filelist
  run_handler download_handler = txn_download env.now
  run_handler upload_handler = txn_upload env.unset_position env.now
  run_handler download_folder_handler = on_server txn_download_folder
  run_handler upload_folder_handler = on_server txn_upload_folder
  run_handler xfer_cancel_handler = txn_xfer_cancel env.steps env.now
  run_handler create_folder_handler = txn_create_folder
  run_handler delete_handler = txn_delete
  run_handler move_handler = txn_move
  run_handler rename_handler = txn_rename
  run_handler file_info_handler = txn_file_info env.localtime
  run_handler read_account_handler = on_server (txn_read_account env.freed_name)
  run_handler create_account_handler = on_server (txn_create_account env.encrypt)
  run_handler modify_account_handler =
      on_server (txn_modify_account env.encrypt env.behind_permissions)
  run_handler delete_account_handler = on_server (txn_delete_account env.unset_name)
  run_handler admin_accounts_handler = on_server txn_admin_accounts
  run_handler admin_submit_handler = on_server (txn_admin_submit env.encrypt)
  run_handler kick_user_handler = on_server (txn_kick_user env.steps)
  run_handler user_info_handler = on_server txn_user_info
  run_handler broadcast_handler = on_server (txn_broadcast env.steps)
  run_handler send_chat_handler = on_server (txn_send_chat env.steps)
  run_handler send_privmsg_handler = on_server txn_send_privmsg
  run_handler request_chat_handler = on_server txn_request_chat
  run_handler get_news_bundle_handler = on_server txn_get_news_bundle
  run_handler ping_handler = on_server txn_ping

-- `%d` of a number with at most `n` digits.
unfoldable pub decimal : ℕ → ℕ → List ℕ
decimal zero v = []
decimal (suc n) v =
    let front = decimal n (v / 10) in
    if ltb v 10 then (v + 48) ∷ [] else front ++ (v % 10 + 48) ∷ []

-- The text for an id, which is a `uint16_t`.
abbrev pub unsupported : TransactionIn → List ℕ
unsupported t =
    codes "Error: Unsupported/unimplemented transaction: " ++ decimal 5 (id t) ++ b'\n' ∷ []

module _ {F : FileSystem} (env : Environment) where
  abbrev pub execute : Option Handler → Site F → ℕ → TransactionIn → Outcome F
  execute none s uid t = error s uid t (unsupported t)
  execute (some handler) s uid t = run_handler env handler s uid t

  -- The table and what the handler leaves.
  unfoldable pub th_exec :
      Collection ℕ Handler → Site F → ℕ → TransactionIn → Collection ℕ Handler × Outcome F
  th_exec transaction_table s uid t =
      let r = find_handler transaction_table (id t) in (r.0, execute r.1 s uid t)

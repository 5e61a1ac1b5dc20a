-- ===== src/FileHandlers.antt =====
-- transaction_handler.c: the handlers of requests on files. They work on the connections, on the
-- shared directory and on the transfers.
pub mod Changes
pub mod Views
pub mod Transfers
pub mod Confinement
pub mod Deletions
pub mod Moves
pub mod Reading
use hotwired.ConnectionManager.{perm_check}
use hotwired.FileOps.{FileSystem, Stat, Files, addpath, is_folder}
use hotwired.Handlers
use hotwired.Handlers.{Server, reply_success, reply_error, send, refuses}
use hotwired.Prelude.Bytes.{get32}
use hotwired.Prelude.Texts.{codes, text_at}
use hotwired.Prelude.{
  ℕ, Bool, true, false, Option, none, some, List, [], ◌∷◌, ◌++◌, drop, take, ltb, ◌==◌,
  if◌then◌else◌,
}
use hotwired.Transaction.Objects.{object_int16, object_string}
use hotwired.Transaction.PathName.{PathResult, null, fault, path, object_path}
use hotwired.Transaction.{TransactionIn, TransactionOut, TransactionObject}
use hotwired.TransferManager.{TransferManager}

pub record Site (F : FileSystem) : Type 0 where
  pub server : Server
  pub files : Files F
  pub transfers : TransferManager

-- The state and the answer; `none` is a fault.
abbrev pub Outcome : FileSystem → Type 0
Outcome F = Option (Site F × Bool)

module _ {F : FileSystem} where
  unfoldable pub answer : Site F → ℕ → TransactionOut → Outcome F
  answer s uid reply = some (record s { server = send s.server uid reply }, true)

  unfoldable pub error : Site F → ℕ → TransactionIn → List ℕ → Outcome F
  error s uid t message = some (record s { server = reply_error s.server uid t message }, true)

  unfoldable pub success : Site F → ℕ → TransactionIn → Outcome F
  success s uid t = some (record s { server = reply_success s.server uid t }, true)

  -- `cm_perm_check(uid, field) < 1` with its error reply, and what follows it.
  unfoldable pub privileged :
      Site F → ℕ → TransactionIn → ℕ → List ℕ → (Site F → Outcome F) → Outcome F
  privileged s uid t field message work =
      let r = perm_check s.server.connections uid field in
      let asked = record s { server = record s.server { connections = r.0 } } in
      if refuses r.1 then error asked uid t message else work asked

-- A handler that works on the connections and the accounts only. The file of accounts, which am_commit
-- writes, is not part of the file system `F`; the write is an event of the server.
abbrev pub lifted : {F : FileSystem} → Site F → Handlers.Outcome → Outcome F
lifted s none = none
lifted s (some (server, done)) = some (record s { server = server }, done)

unfoldable pub on_server :
    {F : FileSystem}
    → (Server → ℕ → TransactionIn → Handlers.Outcome)
    → Site F
    → ℕ
    → TransactionIn
    → Outcome F
on_server work s uid t = lifted s (work s.server uid t)

-- The locals that the loops over the objects set. `offset` is an `int32_t` as a word.
pub record Wanted : Type 0 where
  pub file : Option (List ℕ)
  pub path : Option (List ℕ)
  pub dest : Option (List ℕ)
  pub mode : ℕ
  pub offset : ℕ

abbrev nothing : Wanted
nothing = record { file = none; path = none; dest = none; mode = 0; offset = 0 }

abbrev pub with_file : Wanted → TransactionObject → Wanted
with_file w o = record w { file = some (text_at (object_string o)) }

-- The result of `transaction_object_path`; a path that is refused is NULL, as none at all is.
abbrev with_path : Wanted → PathResult → Option Wanted
with_path w null = some (record w { path = none })
with_path w fault = none
with_path w (path p) = some (record w { path = some (text_at p) })

abbrev with_dest : Wanted → PathResult → Option Wanted
with_dest w null = some (record w { dest = none })
with_dest w fault = none
with_dest w (path p) = some (record w { dest = some (text_at p) })

-- The cases of all the loops.
abbrev pub want_name :
    (Wanted → TransactionObject → Option Wanted) → Wanted → TransactionObject → Option Wanted
want_name other w o =
    if o.obj_id == 201
    then some (with_file w o)
    else if o.obj_id == 202
    then with_path w (object_path o)
    else other w o

abbrev no_other : Wanted → TransactionObject → Option Wanted
no_other w o = some w

-- `txn_create_folder` and `txn_delete`
unfoldable pub want : Wanted → TransactionObject → Option Wanted
want w o = want_name no_other w o

abbrev other_dest : Wanted → TransactionObject → Option Wanted
other_dest w o = if o.obj_id == 212 then with_dest w (object_path o) else some w

-- `txn_move`
unfoldable pub want_move : Wanted → TransactionObject → Option Wanted
want_move w o = want_name other_dest w o

abbrev resume_at : Wanted → TransactionObject → Wanted
resume_at w o =
    if ltb o.obj_len 50 then w else record w { offset = get32 (take 4 (drop 46 o.obj_data)) }

abbrev preview : Wanted → ℕ → Wanted
preview w mode = if mode == 2 then record w { mode = 1 } else w

abbrev other_download : Wanted → TransactionObject → Option Wanted
other_download w o =
    if o.obj_id == 203
    then some (resume_at w o)
    else if o.obj_id == 204
    then some (preview w (object_int16 o))
    else some w

-- `txn_download`
unfoldable pub want_download : Wanted → TransactionObject → Option Wanted
want_download w o = want_name other_download w o

abbrev other_upload : Wanted → TransactionObject → Option Wanted
other_upload w o = if o.obj_id == 204 then some (record w { mode = object_int16 o }) else some w

-- `txn_upload`
unfoldable pub want_upload : Wanted → TransactionObject → Option Wanted
want_upload w o = want_name other_upload w o

abbrev then_want : (Wanted → Option Wanted) → Option Wanted → Option Wanted
then_want rest none = none
then_want rest (some w) = rest w

-- A loop over the objects.
unfoldable pub wanted_from :
    (Wanted → TransactionObject → Option Wanted) → List TransactionObject → Wanted → Option Wanted
wanted_from step [] w = some w
wanted_from step (o ∷ os) w = then_want (wanted_from step os) (step w o)

abbrev pub wanted : (Wanted → TransactionObject → Option Wanted) → TransactionIn → Option Wanted
wanted step t = wanted_from step t.object nothing

-- Where the file is, for all but `file_path`; `none` is a path that is no folder.
unfoldable pub location : {F : FileSystem} → Files F → Option (List ℕ) → List ℕ → Option (List ℕ)
location {F} s none file = some (addpath F s (some file))
location {F} s (some folder) file =
    let fp = addpath F s (some folder) in
    if is_folder F s.disk fp then some (fp ++ b'/' ∷ file) else none

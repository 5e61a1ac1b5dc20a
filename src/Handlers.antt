-- ===== src/Handlers.antt =====
-- transaction_handler.c, transaction_replies.c and transaction_factories.c: what the server does
-- with a message of a client. The state is that of the connections and of the accounts, and the
-- list of what has left them.
pub mod Login
pub mod Accounts
pub mod Submit
pub mod Messages
pub mod Privileges
pub mod Replies
pub mod Rosters
pub mod Edits
pub mod Sessions
pub mod Logins
pub mod Dispatch
use hotwired.AccountManager
use hotwired.AccountManager.{AccountManager}
use hotwired.ConnectionManager
use hotwired.ConnectionManager.{
  Connections, Value, memory, text, conn_icon, conn_status, conn_nickname, number, getval,
  get_taskno, perm_check,
}
use hotwired.ConnectionManager.Broadcast.{transaction_broadcast}
use hotwired.Prelude.{
  ℕ, zero, suc, ◌+◌, ◌-◌, ◌*◌, ◌/◌, ◌%◌, ◌^◌, Bool, true, false, Option, none, some, List, [], ◌∷◌,
  ◌++◌, ◌==◌, if◌then◌else◌,
}
use hotwired.Transaction.{
  TransactionIn, TransactionOut, create, reply_create, add_int16, add_string, write,
}

-- `wrote`: bytes on a socket. `relayed`: a message on the sockets of these connections, the last one
-- first, in each with the task number that the connection had. `purged`: `tfm_purge_uid`.
-- `saved`: `am_commit`, with the text of the file. `left_locked`: the handler returns while it holds
-- the lock of the accounts for writing.
pub data Event : Type 0 where
  wrote : ℕ → List ℕ → Event
  relayed : List ℕ → TransactionOut → Event
  purged : ℕ → Event
  saved : Option (List ℕ) → Event
  left_locked : Event

pub record Server : Type 0 where
  pub connections : Connections
  pub accounts : AccountManager
  pub events : List Event

-- The state and the answer, where `true` is 0 and `false` is -1. `none` is a fault, or a walk that
-- does not end.
abbrev pub Outcome : Type 0
Outcome = Option (Server × Bool)

unfoldable pub emit : Server → Event → Server
emit s e = record s { events = s.events ++ e ∷ [] }

-- `transaction_write`. A message that is no reply takes a task number of the connection.
unfoldable pub send : Server → ℕ → TransactionOut → Server
send s uid t =
    let r = get_taskno s.connections uid in
    if t.t_class == 0
    then emit (record s { connections = r.0 }) (wrote uid (write r.1 t))
    else emit s (wrote uid (write t.t_taskno t))

unfoldable pub reply_success : Server → ℕ → TransactionIn → Server
reply_success s uid t = send s uid (reply_create t 0 0)

-- The text is the one that the format makes.
unfoldable pub reply_error : Server → ℕ → TransactionIn → List ℕ → Server
reply_error s uid t reply_buffer = send s uid (add_string (reply_create t 1 1) 100 reply_buffer)

-- The task number of a new message, which is not set, is 0 here and below; the write replaces it.
unfoldable pub message_error : Server → ℕ → List ℕ → Server
message_error s uid reply_buffer = send s uid (add_string (create 0 111 1) 101 reply_buffer)

-- A number that `cm_getval` leaves in a variable that is 0 otherwise.
abbrev pub number_or_zero : Option Value → ℕ
number_or_zero (some (memory bytes)) = number bytes
number_or_zero (some (text t)) = 0
number_or_zero none = 0

abbrev pub text_of : Option Value → Option (List ℕ)
text_of (some (text t)) = t
text_of (some (memory bytes)) = none
text_of none = none

abbrev pub joined : ℕ → ℕ → ℕ → Option (List ℕ) → Option TransactionOut
joined uid icon status none = none
joined uid icon status (some nickname) = some (
    add_string (add_int16 (add_int16 (add_int16 (create 0 301 4) 103 uid) 104 icon) 112 status) 102
      nickname)

-- `none`: the nickname is a pointer that is not set.
unfoldable pub txn_join_create : Connections → ℕ → Connections × Option TransactionOut
txn_join_create ctbl uid =
    let icon = getval ctbl uid conn_icon in
    let status = getval icon.0 uid conn_status in
    let nickname = getval status.0 uid conn_nickname in
    (nickname.0, joined uid (number_or_zero icon.1) (number_or_zero status.1) (text_of nickname.1))

unfoldable pub txn_part_create : ℕ → TransactionOut
txn_part_create uid = add_int16 (create 0 302 1) 103 uid

-- The uid -1 as a `CollectionKey`, which no connection has.
abbrev pub nobody : ℕ
nobody = 2 ^ 64 - 1

abbrev pub relay : Server → TransactionOut → Option (Connections × List ℕ) → Option Server
relay s t none = none
relay s t (some (ctbl, written)) = some (emit (record s { connections = ctbl }) (relayed written t))

-- `cm_transaction_broadcast`, with a bound on the steps in a bucket.
unfoldable pub broadcast : ℕ → Server → ℕ → TransactionOut → Option Server
broadcast n s uid t = relay s t (transaction_broadcast n s.connections uid)

-- `cm_perm_check(uid, field) < 1`
abbrev pub refuses : Option ℕ → Bool
refuses none = true
refuses (some n) = n == 0

-- The start of most handlers: without the privilege the reply is an error and nothing else is done.
unfoldable pub guarded : Server → ℕ → TransactionIn → ℕ → List ℕ → (Server → Outcome) → Outcome
guarded s uid t field message work =
    let r = perm_check s.connections uid field in
    let asked = record s { connections = r.0 } in
    if refuses r.1 then some (reply_error asked uid t message, true) else work asked

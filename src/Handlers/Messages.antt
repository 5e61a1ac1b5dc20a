-- ===== src/Handlers/Messages.antt =====
-- The handlers of messages between users, `txn_kick_user`, and those of requests that the server
-- only refuses.
use hotwired.ConnectionManager.{Value, conn_nickname, getval, perm_check, perm_getall, remove}
use hotwired.Handlers.{
  Server, purged, Outcome, emit, reply_success, reply_error, message_error, text_of,
  txn_part_create, broadcast, nobody, guarded, refuses,
}
use hotwired.Handlers.Login.{string_of}
use hotwired.Permissions.{Permissions, is_superuser}
use hotwired.Prelude.{
  ℕ, Bool, true, false, Option, none, some, List, ◌++◌, ltb, ◌==◌, if◌then◌else◌,
}
use hotwired.Prelude.Texts.{codes, text_at}
use hotwired.Transaction.{TransactionIn, create, add_int16, add_string}
use hotwired.Transaction.Objects.{object_index, object_at, object_len, object_int16, object_string}

-- What `cm_getval(uid, CONN_NICKNAME, &nickname)` answers: none is -1.
abbrev pub nickname_of : Option Value → Option (List ℕ)
nickname_of v = text_of v

abbrev answered : Server → ℕ → TransactionIn → Option Server → Outcome
answered s uid t none = none
answered s uid t (some r) = some (reply_success r uid t, true)

abbrev broadcast_message : ℕ → Server → ℕ → TransactionIn → List ℕ → Option (List ℕ) → Outcome
broadcast_message n s uid t nickname none = some (s, true)
broadcast_message n s uid t nickname (some message) =
    let mtxn =
      add_string (add_string (add_int16 (create 0 355 3) 103 uid) 102 nickname) 101 message in
    answered s uid t (broadcast n s uid mtxn)

abbrev broadcast_from : ℕ → Server → ℕ → TransactionIn → Option (List ℕ) → Outcome
broadcast_from n s uid t none = some (s, false)
broadcast_from n s uid t (some nickname) =
    broadcast_message n s uid t nickname (string_of t (object_index t 101))

abbrev broadcast_nickname : ℕ → ℕ → TransactionIn → Server → Outcome
broadcast_nickname n uid t s =
    let r = getval s.connections uid conn_nickname in
    broadcast_from n (record s { connections = r.0 }) uid t (nickname_of r.1)

unfoldable pub txn_broadcast : ℕ → Server → ℕ → TransactionIn → Outcome
txn_broadcast n s uid t =
    guarded s uid t 32 (codes "Error: You are not allowed to send broadcast messages.")
      (broadcast_nickname n uid t)

-- The text of a chat line.
abbrev emotes : TransactionIn → Option ℕ → Bool
emotes t none = false
emotes t (some i) = if object_int16 (object_at t i) == 0 then false else true

unfoldable pub chat_line : Bool → List ℕ → List ℕ → List ℕ
chat_line emote nickname message =
    if emote
    then codes "\r* " ++ nickname ++ codes " " ++ message
    else codes "\r<" ++ nickname ++ codes "> " ++ message

abbrev without_answer : Option Server → Outcome
without_answer none = none
without_answer (some s) = some (s, true)

-- Behind the second `cm_getval`.
abbrev relay_chat : ℕ → Server → TransactionIn → ℕ → Option (List ℕ) → Outcome
relay_chat n s t i none = some (s, false)
relay_chat n s t i (some nickname) =
    let message = text_at (object_string (object_at t i)) in
    let outbuf = chat_line (emotes t (object_index t 109)) nickname message in
    without_answer (broadcast n s nobody (add_string (create 0 106 1) 101 outbuf))

abbrev chat_message : ℕ → Server → ℕ → TransactionIn → Option ℕ → Outcome
chat_message n s uid t none = some (s, true)
chat_message n s uid t (some i) =
    let r = getval s.connections uid conn_nickname in
    if ltb 512 (object_len t i)
    then some (s, true)
    else relay_chat n (record s { connections = r.0 }) t i (nickname_of r.1)

abbrev chat_from : ℕ → Server → ℕ → TransactionIn → Option (List ℕ) → Outcome
chat_from n s uid t none = some (s, false)
chat_from n s uid t (some nickname) = chat_message n s uid t (object_index t 101)

-- The nickname is fetched twice, and the first copy is not freed.
unfoldable pub txn_send_chat : ℕ → Server → ℕ → TransactionIn → Outcome
txn_send_chat n s uid t =
    let r = perm_check s.connections uid 10 in
    let v = getval r.0 uid conn_nickname in
    if refuses r.1
    then some (record s { connections = r.0 }, true)
    else chat_from n (record s { connections = v.0 }) uid t (nickname_of v.1)

abbrev kicked_by : Server → ℕ → Option (List ℕ) → Server
kicked_by s uuid none = s
kicked_by s uuid (some nickname) = message_error s uuid (codes "Kicked by " ++ nickname)

abbrev parted : Server → ℕ → TransactionIn → ℕ → Option Server → Outcome
parted s uid t uuid none = none
parted s uid t uuid (some r) =
    some (reply_success (record r { connections = (remove r.connections uuid).0 }) uid t, true)

-- From `cm_getval(uid, CONN_NICKNAME, &s)` on.
unfoldable pub kick : ℕ → Server → ℕ → TransactionIn → ℕ → Outcome
kick n s uid t uuid =
    let v = getval s.connections uid conn_nickname in
    let told = kicked_by (record s { connections = v.0 }) uuid (nickname_of v.1) in
    let cleared = emit told (purged uuid) in
    parted cleared uid t uuid (broadcast n cleared uuid (txn_part_create uuid))

-- Where the check answered 0. `none` is NULL, of which the code asks whether it is a superuser's.
abbrev kick_as : ℕ → Server → ℕ → TransactionIn → ℕ → Option Permissions → Outcome
kick_as n s uid t uuid none = none
kick_as n s uid t uuid (some p) =
    if is_superuser p
    then kick n s uid t uuid
    else some (
      reply_error s uid t (codes "Error: You are not allowed to disconnect the specified user"),
      true,
    )

abbrev kick_checked : ℕ → Server → ℕ → TransactionIn → ℕ → Option ℕ → Outcome
kick_checked n s uid t uuid none =
    some (reply_error s uid t (codes "Error: Invalid user specified."), true)
kick_checked n s uid t uuid (some r) =
    let p = perm_getall s.connections uid in
    if uid == uuid
    then some (reply_error s uid t (codes "Error: Invalid user specified."), true)
    else if r == 0
    then kick_as n (record s { connections = p.0 }) uid t uuid p.1
    else kick n s uid t uuid

abbrev kick_object : ℕ → ℕ → TransactionIn → Server → Option ℕ → Outcome
kick_object n uid t s none = some (reply_error s uid t (codes "Error: No UID specified."), true)
kick_object n uid t s (some i) =
    let uuid = object_int16 (object_at t i) in
    let r = perm_check s.connections uuid 23 in
    kick_checked n (record s { connections = r.0 }) uid t uuid r.1

unfoldable pub txn_kick_user : ℕ → Server → ℕ → TransactionIn → Outcome
txn_kick_user n s uid t =
    guarded s uid t 22 (codes "Error: You are not allowed to disconnect users.")
      (λ asked. kick_object n uid t asked (object_index t 103))

-- The handlers that answer with an error in both cases.
abbrev refused_with : List ℕ → ℕ → TransactionIn → Server → Outcome
refused_with message uid t s = some (reply_error s uid t message, true)

unfoldable pub txn_user_info : Server → ℕ → TransactionIn → Outcome
txn_user_info s uid t =
    guarded s uid t 24 (codes "Error: You are not allowed to view user information.")
      (refused_with (codes "Error: This server doesn't support viewing user information.") uid t)

unfoldable pub txn_send_privmsg : Server → ℕ → TransactionIn → Outcome
txn_send_privmsg s uid t =
    guarded s uid t 40 (codes "Error: You are not allowed to send private messages.")
      (refused_with (codes "Error: This server doesn't support private messages.") uid t)

unfoldable pub txn_request_chat : Server → ℕ → TransactionIn → Outcome
txn_request_chat s uid t =
    guarded s uid t 11 (codes "Error: You are not allowed to initiate private chat.")
      (refused_with (codes "Error: This server doesn't support private chat.") uid t)

unfoldable pub txn_get_news_bundle : Server → ℕ → TransactionIn → Outcome
txn_get_news_bundle s uid t =
    guarded s uid t 20 (codes "Error: You are not allowed to read news articles.")
      (refused_with (codes "Error: This server doesn't support news.") uid t)

unfoldable pub txn_ping : Server → ℕ → TransactionIn → Outcome
txn_ping s uid t = some (reply_success s uid t, true)

unfoldable pub txn_download_folder : Server → ℕ → TransactionIn → Outcome
txn_download_folder s uid t =
    some (reply_error s uid t (codes "Error: This server does not support folder downloads."), true)

unfoldable pub txn_upload_folder : Server → ℕ → TransactionIn → Outcome
txn_upload_folder s uid t =
    some (reply_error s uid t (codes "Error: This server does not support folder uploads."), true)

-- ===== src/Handlers/Login.antt =====
-- `txn_login`, `txn_info` and `txn_userlist`.
use Prim.Native.Nat.{bit_and, bit_or}
use hotwired.AccountManager.{Account, lookup_account}
use hotwired.ConnectionManager.{
  Connections, cstate_nl, cstate_nr, cstate_li, conn_login, conn_nickname, conn_icon, conn_status,
  bytes_of, get_cstate, set_cstate, setval, perm_setall, perm_getall,
}
use hotwired.ConnectionManager.Userlist.{build_userlist}
use hotwired.Handlers.{
  Server, Outcome, send, reply_success, reply_error, txn_join_create, broadcast, nobody,
}
use hotwired.Password.{password_check}
use hotwired.Permissions.{Permissions, is_superuser, is_operator, is_visitor}
use hotwired.Prelude.{
  ℕ, Bool, true, false, Option, none, some, List, [], ◌∷◌, ◌++◌, ◌==◌, if◌then◌else◌,
}
use hotwired.Prelude.Texts.{codes, text_at}
use hotwired.Transaction.{
  TransactionIn, TransactionOut, create, reply_create, add_int32, add_object, add_string,
}
use hotwired.Transaction.Objects.{
  object_index, object_at, object_int16, object_string, object_masked_string,
}

-- What the library and the configuration file answer: `crypt` of the C library, and the values of
-- `users/guest_account` and `global/server_name`.
pub record Settings : Type 0 where
  pub crypt : List ℕ → List ℕ → Option (List ℕ)
  pub guest_account : Option (List ℕ)
  pub server_name : Option (List ℕ)

-- The text of the first object of a type, and unmasked.
abbrev pub string_of : TransactionIn → Option ℕ → Option (List ℕ)
string_of t none = none
string_of t (some i) = some (text_at (object_string (object_at t i)))

abbrev pub masked_string_of : TransactionIn → Option ℕ → Option (List ℕ)
masked_string_of t none = none
masked_string_of t (some i) = some (text_at (object_masked_string (object_at t i)))

abbrev or_else : Option (List ℕ) → List ℕ → List ℕ
or_else none other = other
or_else (some s) other = s

abbrev pub login_name : Settings → TransactionIn → List ℕ
login_name settings t =
    or_else (masked_string_of t (object_index t 105))
      (or_else settings.guest_account (codes "guest"))

-- Whether the password is wrong; `none` is a fault of `password_check`.
abbrev pub negated : Option Bool → Option Bool
negated none = none
negated (some b) = some (if b then false else true)

unfoldable pub wrong_password :
    (List ℕ → List ℕ → Option (List ℕ)) → Option (List ℕ) → Option (List ℕ) → Option Bool
wrong_password crypt none password = some false
wrong_password crypt (some []) password = some false
wrong_password crypt (some (c ∷ s)) none = some true
wrong_password crypt (some (c ∷ s)) (some password) =
    negated (password_check crypt (c ∷ s) password)

abbrev pub invalid_login : Server → ℕ → TransactionIn → Outcome
invalid_login s uid t = some (reply_error s uid t (codes "Error: Invalid login."), true)

abbrev pub named : TransactionOut → Option (List ℕ) → TransactionOut
named reply none = reply
named reply (some s) = add_string reply 162 s

-- From `cm_setval(uid, CONN_LOGIN, …)` on.
unfoldable pub log_in : Settings → Server → ℕ → TransactionIn → Account → Server
log_in settings s uid t a =
    let s1 = (setval s.connections uid conn_login (a.username ++ 0 ∷ [])).0 in
    let s2 = (perm_setall s1 uid a.perms).0 in
    let s3 = (set_cstate s2 uid cstate_nr).0 in
    let reply = add_int32 (named (reply_create t 0 3) settings.server_name) 160 185 in
    let r1 = send (record s { connections = s3 }) uid reply in
    let r2 = send r1 uid (create 0 109 0) in send r2 uid (add_object (create 0 354 1) 110 a.perms 8)

abbrev pub login_with : Settings → Server → ℕ → TransactionIn → Account → Option Bool → Outcome
login_with settings s uid t a none = none
login_with settings s uid t a (some true) = invalid_login s uid t
login_with settings s uid t a (some false) = some (log_in settings s uid t a, true)

abbrev pub login_account : Settings → Server → ℕ → TransactionIn → Option ℕ → Outcome
login_account settings s uid t none = invalid_login s uid t
login_account settings s uid t (some p) =
    let a = s.accounts.heap p in
    login_with settings s uid t a
      (wrong_password settings.crypt a.password (masked_string_of t (object_index t 106)))

unfoldable pub txn_login : Settings → Server → ℕ → TransactionIn → Outcome
txn_login settings s uid t =
    let state = get_cstate s.connections uid in
    let s1 = record s { connections = state.0 } in
    let found = lookup_account s1.accounts (login_name settings t) in
    if state.1 == cstate_nl
    then login_account settings (record s1 { accounts = found.0 }) uid t found.1
    else some (reply_error s1 uid t (codes "Error: Already logged in."), true)

abbrev with_nickname : Connections → ℕ → TransactionIn → Option ℕ → Connections
with_nickname ctbl uid t none = ctbl
with_nickname ctbl uid t (some i) =
    (setval ctbl uid conn_nickname (object_string (object_at t i))).0

-- `behind` is the memory behind the variable `icon`.
abbrev with_icon : List ℕ → Connections → ℕ → TransactionIn → Option ℕ → Connections
with_icon behind ctbl uid t none = ctbl
with_icon behind ctbl uid t (some i) =
    (setval ctbl uid conn_icon (bytes_of 2 (object_int16 (object_at t i)) ++ behind)).0

abbrev pub option_bits : ℕ → ℕ
option_bits status_bits =
    bit_or (if bit_and status_bits 1 == 0 then 0 else 4)
      (if bit_and status_bits 2 == 0 then 0 else 8)

abbrev pub status_of : TransactionIn → Option ℕ → ℕ
status_of t none = 0
status_of t (some i) = option_bits (object_int16 (object_at t i))

abbrev pub permission_bits : Permissions → ℕ
permission_bits p =
    bit_or (bit_or (if is_superuser p then 16 else 0) (if is_operator p == 0 then 0 else 2))
      (if is_visitor p then 32 else 0)

abbrev announce : ℕ → Server → ℕ → Option TransactionOut → Outcome
announce n s uid none = none
announce n s uid (some t) = elim (broadcast n s nobody t) [ none ↦ none | some r ↦ some (r, true) ]

-- From `cm_setval(uid, CONN_STATUS, …)` on.
abbrev pub info_status : ℕ → Server → ℕ → TransactionIn → ℕ → Outcome
info_status n s uid t status =
    let ctbl = (setval s.connections uid conn_status (bytes_of 2 status)).0 in
    let replied = reply_success (record s { connections = ctbl }) uid t in
    let join = txn_join_create replied.connections uid in
    announce n (record replied { connections = join.0 }) uid join.1

abbrev pub info_permissions : ℕ → Server → ℕ → TransactionIn → ℕ → Option Permissions → Outcome
info_permissions n s uid t status none = some (s, false)
info_permissions n s uid t status (some p) =
    info_status n s uid t (bit_or status (permission_bits p))

unfoldable pub txn_info : ℕ → List ℕ → Server → ℕ → TransactionIn → Outcome
txn_info n behind s uid t =
    let state = get_cstate s.connections uid in
    let c1 = with_nickname state.0 uid t (object_index t 102) in
    let c2 = with_icon behind c1 uid t (object_index t 104) in
    let c3 = if state.1 == cstate_nr then (set_cstate c2 uid cstate_li).0 else c2 in
    let perms = perm_getall c3 uid in
    if state.1 == cstate_nl
    then some
        (reply_error (record s { connections = state.0 }) uid t (codes "Not logged in."), true)
    else info_permissions n (record s { connections = perms.0 }) uid t
        (status_of t (object_index t 113)) perms.1

unfoldable pub txn_userlist : Server → ℕ → TransactionIn → Outcome
txn_userlist s uid t = elim (build_userlist t s.connections) [
  | none ↦ none
  | some reply ↦ some (send s uid reply, true)
]

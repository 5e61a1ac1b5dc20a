-- ===== src/Handlers/Submit.antt =====
-- `process_user_entry` and `txn_admin_submit`: the accounts that an administrator has edited.
use hotwired.AccountManager.{
  Account, AccountManager, lookup_account, add_account_with_permissions, del_account,
}
use hotwired.Handlers.{Server, left_locked, Outcome, emit, reply_error, guarded}
use hotwired.Handlers.Accounts.{Encrypt, default_permissions, commit_reply, or_empty_text}
use hotwired.Permissions.{Permissions}
use hotwired.Prelude.{
  ℕ, zero, suc, ◌+◌, ◌-◌, ◌^◌, Bool, true, false, ◌&&◌, Option, none, some, List, [], ◌∷◌, length,
  take, drop, ltb, ◌==◌, if◌then◌else◌,
}
use hotwired.Prelude.Bytes.{get16}
use hotwired.Prelude.Texts.{codes, text_at}
use hotwired.Transaction.{TransactionIn, TransactionObject}
use hotwired.Transaction.Objects.{mask}

pub record Fields : Type 0 where
  pub source_username : Option (List ℕ)
  pub username : Option (List ℕ)
  pub realname : Option (List ℕ)
  pub password : Option (List ℕ)
  pub permissions : Option Permissions
  pub null_password : Bool

abbrev pub no_fields : Fields
no_fields = record {
  source_username = none;
  username = none;
  realname = none;
  password = none;
  permissions = none;
  null_password = true;
}

-- `malformed` is the answer -1. `fault`: a size that is negative as an `int16_t` is one of a buffer,
-- or a field is read in front of the object, or the object has no count.
pub data Parsed : Type 0 where
  fault : Parsed
  malformed : Parsed
  fields : Fields → Parsed

-- A field that may come once, with its text.
abbrev once : Option (List ℕ) → ℕ → Fields → Parsed
once (some old) size new = malformed
once none size new = if ltb size (2 ^ 15) then fields new else fault

abbrev is_zero_byte : List ℕ → Bool
is_zero_byte [] = false
is_zero_byte (b ∷ bs) = b == 0

abbrev password_field : Encrypt → ℕ → List ℕ → Fields → Option (List ℕ) → Parsed
password_field encrypt size buf f (some old) = malformed
password_field encrypt size buf f none =
    if size == 1 && is_zero_byte buf
    then fields (record f { null_password = false })
    else if ltb size (2 ^ 15)
    then fields
        (record f { null_password = false; password = encrypt (text_at (mask (take size buf))) })
    else fault

abbrev permissions_field : ℕ → List ℕ → Fields → Option Permissions → Parsed
permissions_field size buf f (some old) = malformed
permissions_field size buf f none =
    if size == 8 then fields (record f { permissions = some (take 8 buf) }) else malformed

-- The `switch`.
unfoldable pub take_field : Encrypt → ℕ → ℕ → List ℕ → Fields → Parsed
take_field encrypt id size buf f =
    let unmasked = text_at (mask (take size buf)) in
    if id == 101
    then once f.source_username size (record f { source_username = some unmasked })
    else if id == 105
    then once f.username size (record f { username = some unmasked })
    else if id == 102
    then once f.realname size (record f { realname = some (text_at (take size buf)) })
    else if id == 106
    then password_field encrypt size buf f f.password
    else if id == 110
    then permissions_field size buf f f.permissions
    else fields f

-- `buf += size`, for a size that is an `int16_t`; `none` is in front of the object.
abbrev pub moved_cursor : ℕ → ℕ → Option ℕ
moved_cursor at size =
    if ltb size (2 ^ 15)
    then some (at + size)
    else if ltb (at + size) (2 ^ 16)
    then none
    else some (at + size - 2 ^ 16)

-- The loop over the fields of an object, with the place of the cursor.
unfoldable pub parse_fields : Encrypt → ℕ → List ℕ → Option ℕ → Fields → Parsed
parse_fields encrypt zero bytes at f = fields f
parse_fields encrypt (suc n) bytes none f = fault
parse_fields encrypt (suc n) bytes (some at) f =
    let buf = drop at bytes in
    let id = get16 buf in
    let size = get16 (drop 2 buf) in
    let body = drop 4 buf in
    let rest : Parsed = elim (take_field encrypt id size body f) [
      | fault ↦ fault
      | malformed ↦ malformed
      | fields g ↦ parse_fields encrypt n bytes (moved_cursor (at + 4) size) g
    ] in
    if ltb (length buf) 4
    then malformed
    else if ltb size (2 ^ 15) && ltb (length body) size
    then malformed
    else rest

-- The count is an `int16_t`.
abbrev count_of : List ℕ → ℕ
count_of buf = let n = get16 buf in if ltb n (2 ^ 15) then n else 0

unfoldable pub parse_entry : Encrypt → List ℕ → Parsed
parse_entry encrypt buf =
    if ltb (length buf) 2 then fault else parse_fields encrypt (count_of buf) buf (some 2) no_fields

-- What becomes of the accounts. `stuck`: a fault, or the handler waits for a lock that it holds.
pub data Entered : Type 0 where
  stuck : Entered
  failed : AccountManager → Entered
  failed_locked : AccountManager → Entered
  entered : AccountManager → Entered

abbrev pub or_text : Option (List ℕ) → Option (List ℕ) → Option (List ℕ)
or_text none old = old
or_text (some s) old = some s

abbrev pub or_permissions : Option Permissions → Permissions → Permissions
or_permissions none old = old
or_permissions (some p) old = p

-- The new account takes from the old one the real name and the privileges that were not sent. It takes
-- the old password where one zero byte was sent for it, and has none where nothing was sent.
unfoldable pub replaced : AccountManager → List ℕ → List ℕ → Account → Fields → AccountManager
replaced s source username a f =
    (add_account_with_permissions (del_account s source).0 (some username)
      (or_text f.realname a.realname)
      (if f.null_password then f.password else or_text f.password a.password)
      (or_permissions f.permissions a.perms)).0

abbrev pub replace_found : AccountManager → List ℕ → List ℕ → Fields → Option ℕ → Entered
replace_found s source username f none = failed_locked s
replace_found s source username f (some p) = entered (replaced s source username (s.heap p) f)

abbrev pub replace_named : AccountManager → List ℕ → Fields → Option (List ℕ) → Entered
replace_named s source f none = stuck
replace_named s source f (some username) =
    let found = lookup_account s source in replace_found found.0 source username f found.1

abbrev pub is_null {ℓ} : {A : Type ℓ} → Option A → Bool
is_null none = true
is_null (some a) = false

abbrev pub enter_new : AccountManager → Fields → Option (List ℕ) → Entered
enter_new s f none = failed s
enter_new s f (some username) =
    entered
      (add_account_with_permissions s (some username) (some (or_empty_text f.realname)) f.password
        (or_permissions f.permissions default_permissions)).0

abbrev pub enter_source : AccountManager → Fields → Option (List ℕ) → Entered
enter_source s f none = enter_new s f f.username
enter_source s f (some source) =
    if is_null f.realname && is_null f.password && is_null f.permissions && is_null f.username
    then entered (del_account s source).0
    else replace_named s source f f.username

abbrev pub enter_parsed : AccountManager → Parsed → Entered
enter_parsed s fault = stuck
enter_parsed s malformed = failed s
enter_parsed s (fields f) = enter_source s f f.source_username

unfoldable pub process_user_entry : Encrypt → AccountManager → List ℕ → Entered
process_user_entry encrypt s buf = enter_parsed s (parse_entry encrypt buf)

-- The loop of `txn_admin_submit`.
unfoldable pub process_entries : Encrypt → AccountManager → List TransactionObject → Entered
process_entries encrypt s [] = entered s
process_entries encrypt s (o ∷ os) =
    let skipped = process_entries encrypt s os in
    let done : Entered = elim (process_user_entry encrypt s o.obj_data) [
      | stuck ↦ stuck
      | failed r ↦ failed r
      | failed_locked r ↦ failed_locked r
      | entered r ↦ process_entries encrypt r os
    ] in
    if o.obj_id == 101 then done else skipped

abbrev malformed_data : Server → ℕ → TransactionIn → Outcome
malformed_data s uid t = some (reply_error s uid t (codes "Error: Malformed data."), true)

abbrev submitted : ℕ → TransactionIn → Server → Entered → Outcome
submitted uid t s stuck = none
submitted uid t s (failed r) = malformed_data (record s { accounts = r }) uid t
submitted uid t s (failed_locked r) =
    malformed_data (emit (record s { accounts = r }) left_locked) uid t
submitted uid t s (entered r) = commit_reply (record s { accounts = r }) uid t

unfoldable pub txn_admin_submit : Encrypt → Server → ℕ → TransactionIn → Outcome
txn_admin_submit encrypt s uid t =
    guarded s uid t 17 (codes "Error: You are not allowed to modify accounts.")
      (λ asked. submitted uid t asked (process_entries encrypt asked.accounts t.object))

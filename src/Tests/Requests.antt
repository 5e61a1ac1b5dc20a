-- ===== src/Tests/Requests.antt =====
-- The handlers of transaction_handler.c.
use hotwired.AccountManager.Roster.{roster}
use hotwired.Collection.Bucket.{find, times}
use hotwired.Collection.Keys.{collection_key}
use hotwired.Collection.Load.{to_float, above_three, above_one}
use hotwired.Collection.Operations.{create-IsWellFormed, insert-IsWellFormed}
use hotwired.Collection.View.{IsWellFormed, view}
use hotwired.Collection.{
  slot, next_prime, create, size, relink, drain, drain_all, rebuild, grow, insert_at, insert,
}
use hotwired.ConnectionManager.{Connection, Connections, fresh}
use hotwired.Handlers.Accounts.{Encrypt}
use hotwired.Handlers.Edits.{Edits}
use hotwired.Handlers.Login.{Settings, txn_login}
use hotwired.Handlers.Logins.{txn_login-session}
use hotwired.Handlers.Privileges.{grants, IsRefused, kick_user, handle, refusal, handle-IsRefused}
use hotwired.Handlers.Sessions.{session, Ends}
use hotwired.Handlers.{Server}
use hotwired.Permissions.{superuser, check_field}
use hotwired.Prelude.{
  ℕ, ◌≡◌, refl, true, false, none, some, List, [], ◌∷◌, ◌++◌, length, take, arith,
}
use hotwired.Prelude.Bytes.{be16}
use hotwired.Prelude.Texts.{codes}
use hotwired.Tests.Accounts.{one_account, one_account-IsConsistent, admin_name}
use hotwired.Transaction.Objects.{mask}
use hotwired.Transaction.{TransactionIn, TransactionObject}

program : Unit {0}
unfolding find to_float above_three above_one slot next_prime create size relink drain drain_all
    rebuild grow insert_at insert view fresh times check_field
program = tt

abbrev newcomer : Connection
newcomer = fresh 100 2130706433

abbrev pub admin : Connection
admin = record newcomer { perms = some superuser; cstate = 2 }

abbrev pub connected : Connection → Connections
connected c = (insert (create {K = ℕ} {V = Connection}) 7 c).0

pub connected-IsWellFormed : (c : Connection) → IsWellFormed (connected c)
connected-IsWellFormed c = insert-IsWellFormed create 7 c create-IsWellFormed.0

pub connected-view : (c : Connection) → view (connected c) 7 ≡ some c
unfolding program
connected-view c = refl

abbrev pub server : Connection → Server
server c = record { connections = connected c; accounts = one_account; events = [] }

-- A message with a masked user name and a masked password.
abbrev masked_object : ℕ → List ℕ → TransactionObject
masked_object id s = record { obj_id = id; obj_len = length s; obj_data = mask s }

abbrev credentials : TransactionIn
credentials = record {
  t_class = 0;
  t_id = 107;
  t_taskno = 1;
  t_error = 0;
  object = masked_object 105 admin_name ∷ masked_object 106 (codes "hi") ∷ [];
}

abbrev pub settings : Settings
settings = record {
  crypt = λ key salt. some (take 2 salt ++ key);
  guest_account = none;
  server_name = some (codes "hotwired");
}

abbrev pub encrypt : Encrypt
encrypt key = some (codes "AB" ++ key)

txn_login-session_example :
    Ends
      (server newcomer)
      7
      (session settings credentials (roster one_account) newcomer)
      (txn_login settings (server newcomer) 7 credentials)
txn_login-session_example =
    txn_login-session settings (server newcomer) 7 credentials newcomer
      (connected-IsWellFormed newcomer) (connected-view newcomer) (unfold fresh in omega arith)
      one_account-IsConsistent

newcomer-grants : (field : ℕ) → grants (view (connected newcomer) 7) field ≡ false
unfolding program
newcomer-grants field = refl

handle-IsRefused_example :
    IsRefused
      (server newcomer)
      7
      credentials
      (refusal (kick_user 100))
      (handle (kick_user 100) (server newcomer) 7 credentials)
handle-IsRefused_example =
    handle-IsRefused (kick_user 100) (server newcomer) 7 credentials
      (connected-IsWellFormed newcomer) (newcomer-grants 22)

admin-creates : grants (view (connected admin) 7) 14 ≡ true
unfolding program
admin-creates = refl

admin-modifies : grants (view (connected admin) 7) 17 ≡ true
unfolding program
admin-modifies = refl

-- The account "admin" becomes "root".
abbrev renaming : List ℕ
renaming =
    be16 2 ++ be16 101 ++ be16 5 ++ mask admin_name ++ be16 105 ++ be16 4 ++ mask (codes "root")

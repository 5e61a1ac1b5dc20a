-- ===== src/Handlers/Logins.antt =====
-- `txn_login` by the account and the password.
use hotwired.AccountManager.Changes.{lookup_account-pointer_of}
use hotwired.AccountManager.Roster.{roster, IsConsistent, fetched, fetched-pointer_of}
use hotwired.AccountManager.{Account, lookup_account}
use hotwired.Collection.Keys.{collection_key}
use hotwired.Collection.View.{IsWellFormed, view}
use hotwired.ConnectionManager.{
  Connection, Connections, cstate_nl, conn_cstate, bytes_of, number, getval, read_member,
  get_cstate, cstate_of,
}
use hotwired.Handlers.Login.{
  Settings, login_name, masked_string_of, negated, log_in, login_with, login_account, txn_login,
}
use hotwired.Handlers.Replies.{send-accounts}
use hotwired.Handlers.{Server, reply_error}
use hotwired.Prelude.{
  ℕ, ◌^◌, ◌<◌, ◌≡◌, refl, ap, ◌∙◌, Bool, true, false, Bool-cases, inl, inr, Option, none, some,
  List, ◌==◌, arith,
}
use hotwired.Transaction.Objects.{object_index}
use hotwired.Transaction.{TransactionIn, reply_create, add_string}
use mathlib.Core.Path.{subst}
use hotwired.Handlers.Sessions.{
  wrong_password-is_password, Becomes, on_connection-Becomes, send_reply-Becomes, add_object-class,
  log_in-Becomes, session_with, session_account, session, Ended, Ends,
}

-- A lookup of the connection in whose state nothing is changed.
self-Becomes :
    (ctbl : Connections) (uid : ℕ) (c : Connection)
    → IsWellFormed ctbl
    → view ctbl uid ≡ some c
    → Becomes ctbl uid c ctbl
self-Becomes ctbl uid c w e = record { valid = w; self = e; others = λ q h. refl }

get_cstate-Becomes :
    (ctbl : Connections) (uid : ℕ) (c : Connection)
    → IsWellFormed ctbl
    → view ctbl uid ≡ some c
    → c.cstate < 2 ^ 32
    → ((get_cstate ctbl uid).1 ≡ c.cstate) × Becomes ctbl uid c (get_cstate ctbl uid).0
unfolding get_cstate getval read_member number bytes_of
get_cstate-Becomes ctbl uid c w e h =
    let (answer, b) =
      on_connection-Becomes ctbl ctbl uid none (λ o. (o, some (read_member o conn_cstate))) c
        (self-Becomes ctbl uid c w e) in
    (ap cstate_of answer ∙ omega (arith, h), b)

reply_error-Ended :
    (old s : Server) (uid : ℕ) (t : TransactionIn) (message : List ℕ) (c : Connection)
    → Becomes old.connections uid c s.connections
    → IsConsistent s.accounts
    → roster s.accounts ≡ roster old.accounts
    → Ended old uid c (some (reply_error s uid t message, true))
unfolding reply_error add_string reply_create
reply_error-Ended old s uid t message c b k e = record {
  left = reply_error s uid t message;
  answer = refl;
  connection =
      send_reply-Becomes s old.connections uid _ c
        (ap (λ n. n == 0) (add_object-class (reply_create t 1 1) 100 message _)) b;
  consistent = rw (send-accounts s uid (add_string (reply_create t 1 1) 100 message)) k;
  same_roster = ap roster (send-accounts s uid (add_string (reply_create t 1 1) 100 message)) ∙ e;
}

module _ (settings : Settings) (old : Server) (uid : ℕ) (t : TransactionIn) (c : Connection) where
  login_with-Ends :
      (s : Server) (a : Account) (ok : Option Bool)
      → Becomes old.connections uid c s.connections
      → IsConsistent s.accounts
      → roster s.accounts ≡ roster old.accounts
      → Ends old uid (session_with c a ok) (login_with settings s uid t a (negated ok))
  login_with-Ends s a none b k e = refl
  login_with-Ends s a (some false) b k e = reply_error-Ended old s uid t _ c b k e
  login_with-Ends s a (some true) b k e =
      let (done, kept) = log_in-Becomes settings s uid t a old.connections c b in
      record {
        left = log_in settings s uid t a;
        answer = refl;
        connection = done;
        consistent = rw kept k;
        same_roster = ap roster kept ∙ e;
      }

  login_account-Ends :
      (s : Server) (p : Option ℕ)
      → Becomes old.connections uid c s.connections
      → IsConsistent s.accounts
      → roster s.accounts ≡ roster old.accounts
      → Ends old uid
          (session_account settings t c (fetched s.accounts.heap p))
          (login_account settings s uid t p)
  login_account-Ends s none b k e = reply_error-Ended old s uid t _ c b k e
  login_account-Ends s (some p) b k e =
      rw
        (wrong_password-is_password settings.crypt (s.accounts.heap p).password
          (masked_string_of t (object_index t 106)))
        (login_with-Ends s (s.accounts.heap p) _ b k e)

  login_account-found :
      (s : Server) (p : Option ℕ) (a : Option Account)
      → fetched s.accounts.heap p ≡ a
      → Becomes old.connections uid c s.connections
      → IsConsistent s.accounts
      → roster s.accounts ≡ roster old.accounts
      → Ends old uid (session_account settings t c a) (login_account settings s uid t p)
  login_account-found s p a f b k e =
      subst (λ o. Ends old uid (session_account settings t c o) (login_account settings s uid t p))
        f (login_account-Ends s p b k e)

  -- txn_login for a connection that is there, in a state in which the table and the list of accounts
  -- hold the same, changes no other connection and no account, and answers 0 unless crypt fails: the
  -- connection gets the account's name and privileges and the state behind a login exactly where it
  -- was not logged in, the message (or the guest account) names an account, and that has no password
  -- or one that crypt makes of the message's password, with its first two characters as the salt; else
  -- the connection is as it was.
  pub txn_login-session :
      IsWellFormed old.connections
      → view old.connections uid ≡ some c
      → c.cstate < 2 ^ 32
      → IsConsistent old.accounts
      → Ends old uid (session settings t (roster old.accounts) c) (txn_login settings old uid t)
  unfolding txn_login lookup_account roster
  txn_login-session w e h k =
      let (state, b) = get_cstate-Becomes old.connections uid c w e h in
      let (ok, found) = lookup_account-pointer_of old.accounts (login_name settings t) k in
      elim (Bool-cases (c.cstate == cstate_nl)) [
        | inl hit ↦
            rw (hit, state, hit, txn_login)
              (login_account-found _ _ _
                (ap (fetched old.accounts.heap) found
                  ∙ fetched-pointer_of old.accounts.heap (login_name settings t)
                      old.accounts.accounts)
                b ok refl)
        | inr miss ↦ rw (miss, state, miss, txn_login) (reply_error-Ended old _ uid t _ c b k refl)
      ]

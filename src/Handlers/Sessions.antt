-- ===== src/Handlers/Sessions.antt =====
-- What `txn_login` makes of the connection.
use hotwired.AccountManager.Roster.{roster, find_account, IsConsistent}
use hotwired.AccountManager.{Account}
use hotwired.Collection.Keys.{collection_key}
use hotwired.Collection.View.{IsWellFormed, view}
use hotwired.ConnectionManager.Work.{on_present, Changed-self}
use hotwired.ConnectionManager.{
  Connection, Connections, cstate_nl, cstate_nr, conn_cstate, conn_login, bytes_of, number,
  on_connection, setval, write_member, set_cstate, get_taskno, perm_setall,
}
use hotwired.HashTable.{same_text}
use hotwired.Password.{password_check}
use hotwired.Handlers.Login.{
  negated, Settings, login_name, masked_string_of, wrong_password, named, log_in,
}
use hotwired.Handlers.Replies.{send-accounts}
use hotwired.Handlers.{Server, Outcome, emit, send}
use hotwired.Permissions
use hotwired.Permissions.{Permissions}
use hotwired.Prelude.{
  take, ℕ, ◌+◌, ◌-◌, ◌%◌, ◌^◌, ◌≡◌, refl, ap, ◌∙◌, Bool, true, false, Option, none, some, List, [],
  ◌∷◌, ◌++◌, ◌==◌, if◌then◌else◌, arith,
}
use hotwired.Prelude.Texts.{text_at}
use hotwired.Transaction.{
  TransactionIn, TransactionOut, create, reply_create, add_int32, add_object, add_string,
}
use hotwired.Transaction.Objects.{object_index}

-- The descriptor's connection is this one, and every other descriptor has the one that it had.
pub record Becomes (old : Connections) (uid : ℕ) (c : Connection) (new : Connections) : Type 0 where
  pub valid : IsWellFormed new
  pub self : view new uid ≡ some c
  pub others : (q : ℕ) → collection_key.same q uid ≡ false → view new q ≡ view old q

pub on_connection-Becomes {ℓ} :
    {A : Type ℓ} (old ctbl : Connections) (uid : ℕ) (missing : A)
    (work : Connection → Connection × A) (c : Connection)
    → Becomes old uid c ctbl
    → ((on_connection ctbl uid missing work).1 ≡ (work c).1)
      × Becomes old uid (work c).0 (on_connection ctbl uid missing work).0
on_connection-Becomes old ctbl uid missing work c b =
    let (answer, ch) = on_present ctbl uid missing work c b.valid b.self in
    (
      answer,
      record {
        valid = ch.valid;
        self = Changed-self ctbl uid (work c).0 _ ch;
        others = λ q miss. ch.views q ∙ rw miss (b.others q miss);
      },
    )

abbrev pub ticked : Connection → Connection
ticked c = record c { taskno = (c.taskno + 1) % 2 ^ 32 }

get_taskno-Becomes :
    (old ctbl : Connections) (uid : ℕ) (c : Connection)
    → Becomes old uid c ctbl
    → Becomes old uid (ticked c) (get_taskno ctbl uid).0
unfolding get_taskno
get_taskno-Becomes old ctbl uid c b =
    (on_connection-Becomes old ctbl uid (2 ^ 32 - 1) (λ o. (ticked o, o.taskno)) c b).1

-- A reply takes no task number, another message takes one.
pub send_reply-Becomes :
    (s : Server) (old : Connections) (uid : ℕ) (t : TransactionOut) (c : Connection)
    → (t.t_class == 0) ≡ false
    → Becomes old uid c s.connections
    → Becomes old uid c (send s uid t).connections
unfolding send emit
send_reply-Becomes s old uid t c e b = rw e b

send_message-Becomes :
    (s : Server) (old : Connections) (uid : ℕ) (t : TransactionOut) (c : Connection)
    → (t.t_class == 0) ≡ true
    → Becomes old uid c s.connections
    → Becomes old uid (ticked c) (send s uid t).connections
unfolding send emit
send_message-Becomes s old uid t c e b = rw e (get_taskno-Becomes old s.connections uid c b)

pub add_object-class :
    (t : TransactionOut) (type : ℕ) (buf : List ℕ) (len : ℕ)
    → (add_object t type buf len).t_class ≡ t.t_class
unfolding add_object
add_object-class t type buf len = ground arith

login_reply-class :
    (server_name : Option (List ℕ)) (t : TransactionIn)
    → ((add_int32 (named (reply_create t 0 3) server_name) 160 185).t_class == 0) ≡ false
unfolding add_int32 add_string reply_create
login_reply-class none t = ap (λ n. n == 0) (add_object-class _ 160 _ 4)
login_reply-class (some name) t =
    ap (λ n. n == 0) (add_object-class _ 160 _ 4 ∙ add_object-class _ 162 name _)

-- The connection of a client who has logged in to an account, behind the two messages that take
-- task numbers.
abbrev pub logged_in : Connection → Account → Connection
logged_in c a = ticked (
    ticked (record c {
      login = some (text_at (a.username ++ 0 ∷ []));
      perms = some (Permissions.copy a.perms);
      cstate = cstate_nr;
    }))

pub log_in-Becomes :
    (settings : Settings) (s : Server) (uid : ℕ) (t : TransactionIn) (a : Account)
    (old : Connections) (c : Connection)
    → Becomes old uid c s.connections
    → Becomes old uid (logged_in c a) (log_in settings s uid t a).connections
      × ((log_in settings s uid t a).accounts ≡ s.accounts)
unfolding log_in setval set_cstate perm_setall write_member number bytes_of create
log_in-Becomes settings s uid t a old c b =
    let c1 = record c { login = some (text_at (a.username ++ 0 ∷ [])) } in
    let c2 = record c1 { perms = some (Permissions.copy a.perms) } in
    let b1 =
      (on_connection-Becomes old s.connections uid false
        (λ o. (write_member o conn_login (a.username ++ 0 ∷ []), true)) c b).1 in
    let b2 =
      (on_connection-Becomes old _ uid false
        (λ o. (record o { perms = some (Permissions.copy a.perms) }, true)) c1 b1).1 in
    let b3 =
      (on_connection-Becomes old _ uid false
        (λ o. (write_member o conn_cstate (bytes_of 4 cstate_nr), true)) c2 b2).1 in
    let reply = add_int32 (named (reply_create t 0 3) settings.server_name) 160 185 in
    let r1 = send_reply-Becomes _ old uid reply _ (login_reply-class settings.server_name t) b3 in
    let r2 = send_message-Becomes _ old uid (create 0 109 0) _ refl r1 in
    (
      send_message-Becomes _ old uid _ _
          (ap (λ n. n == 0) (add_object-class (create 0 354 1) 110 a.perms 8)) r2,
      send-accounts _ uid _ ∙ send-accounts _ uid _ ∙ send-accounts _ uid reply,
    )

-- Whether a password is the one of an account: any is where none is stored, and else one of which
-- crypt makes, with the first two characters of what is stored as the salt, what is stored; none where
-- crypt fails.
abbrev pub is_encrypted : List ℕ → Option (List ℕ) → Option Bool
is_encrypted stored none = none
is_encrypted stored (some made) = some (same_text made stored)

abbrev pub is_password :
    (List ℕ → List ℕ → Option (List ℕ)) → Option (List ℕ) → Option (List ℕ) → Option Bool
is_password crypt none password = some true
is_password crypt (some []) password = some true
is_password crypt (some (c ∷ s)) none = some false
is_password crypt (some (c ∷ s)) (some password) =
    is_encrypted (c ∷ s) (crypt password (take 2 (c ∷ s)))

pub wrong_password-is_password :
    (crypt : List ℕ → List ℕ → Option (List ℕ)) (stored password : Option (List ℕ))
    → wrong_password crypt stored password ≡ negated (is_password crypt stored password)
unfolding wrong_password password_check
wrong_password-is_password crypt none password = refl
wrong_password-is_password crypt (some []) password = refl
wrong_password-is_password crypt (some (c ∷ s)) none = refl
wrong_password-is_password crypt (some (c ∷ s)) (some password) =
    checked (crypt password (take 2 (c ∷ s)))
  where
    checked :
        (made : Option (List ℕ))
        → negated (elim made [ none ↦ none | some pw ↦ some (same_text pw (c ∷ s)) ])
          ≡ negated (is_encrypted (c ∷ s) made)
    checked none = refl
    checked (some pw) = refl

-- What becomes of the connection of a message to log in, none where the handler fails.
abbrev pub session_with : Connection → Account → Option Bool → Option Connection
session_with c a none = none
session_with c a (some true) = some (logged_in c a)
session_with c a (some false) = some c

abbrev pub session_account :
    Settings → TransactionIn → Connection → Option Account → Option Connection
session_account settings t c none = some c
session_account settings t c (some a) =
    session_with c a
      (is_password settings.crypt a.password (masked_string_of t (object_index t 106)))

abbrev pub session : Settings → TransactionIn → List Account → Connection → Option Connection
session settings t l c =
    if c.cstate == cstate_nl
    then session_account settings t c (find_account (login_name settings t) l)
    else some c

pub record Ended (s : Server) (uid : ℕ) (c : Connection) (o : Outcome) : Type 0 where
  pub left : Server
  pub answer : o ≡ some (left, true)
  pub connection : Becomes s.connections uid c left.connections
  pub consistent : IsConsistent left.accounts
  pub same_roster : roster left.accounts ≡ roster s.accounts

abbrev pub Ends : Server → ℕ → Option Connection → Outcome → Type 0
Ends s uid none o = o ≡ none
Ends s uid (some c) o = Ended s uid c o

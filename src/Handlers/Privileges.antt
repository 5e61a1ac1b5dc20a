-- ===== src/Handlers/Privileges.antt =====
-- What a client without a privilege gets.
use hotwired.Collection.Keys.{collection_key}
use hotwired.Collection.View.{IsWellFormed, view}
use hotwired.ConnectionManager.Work.{Worked, on_connection_lem}
use hotwired.ConnectionManager.{Connection, Connections, perm_check, checked}
use hotwired.Handlers.Accounts.{Encrypt, txn_create_account, txn_modify_account, txn_delete_account}
use hotwired.Handlers.Messages.{
  txn_broadcast, txn_kick_user, txn_user_info, txn_send_privmsg, txn_request_chat,
  txn_get_news_bundle,
}
use hotwired.Handlers.Submit.{txn_admin_submit}
use hotwired.Handlers.{Server, wrote, Outcome, emit, send, reply_error, refuses, guarded}
use hotwired.Permissions.{Permissions, check_field}
use hotwired.Prelude.{
  ℕ, ◌≡◌, refl, sym, ap, ◌∙◌, Bool, true, false, Bool-cases, Option-cases, inl, inr, Option, none,
  some, List, [], ◌∷◌, ◌++◌, ◌==◌, if◌then◌else◌,
}
use hotwired.Prelude.Texts.{codes}
use hotwired.Transaction.{TransactionIn, reply_create, add_object, add_string, write}
use mathlib.Core.Path.{subst}

-- Whether a connection has a privilege; one that is not there, or has not logged in, has none.
abbrev pub granted : Option Permissions → ℕ → Bool
granted none field = false
granted (some p) field = if check_field p field == 0 then false else true

abbrev pub grants : Option Connection → ℕ → Bool
grants none field = false
grants (some c) field = granted c.perms field

refuses-checked :
    (p : Option Permissions) (field : ℕ)
    → refuses (checked p field) ≡ (if granted p field then false else true)
refuses-checked none field = refl
refuses-checked (some p) field = elim (Bool-cases (check_field p field == 0)) [
  | inl e ↦ rw e refl
  | inr e ↦ rw e refl
]

-- cm_perm_check answers by the privileges of the connection, and changes no connection.
pub perm_check-grants :
    (ctbl : Connections) (uid field : ℕ)
    → IsWellFormed ctbl
    → let r = perm_check ctbl uid field in
      IsWellFormed r.0
      × (refuses r.1 ≡ (if grants (view ctbl uid) field then false else true))
      × ((q : ℕ) → view r.0 q ≡ view ctbl q)
unfolding perm_check
perm_check-grants ctbl uid field w =
    let done = on_connection_lem ctbl uid none (λ c. (c, checked c.perms field)) w in
    elim (Option-cases (view ctbl uid)) [
      | inl e ↦
          let r =
            subst
              (λ o.
                Worked ctbl uid none (λ c. (c, checked c.perms field)) o
                  (perm_check ctbl uid field))
              e done in
          (r.1.valid, ap refuses r.0 ∙ rw e refl, r.1.same_view)
      | inr (c, e) ↦
          let r =
            subst
              (λ o.
                Worked ctbl uid none (λ c. (c, checked c.perms field)) o
                  (perm_check ctbl uid field))
              e done in
          (
            r.1.valid,
            ap refuses r.0 ∙ rw e (refuses-checked c.perms field),
            λ q. r.1.views q ∙ elim (Bool-cases (collection_key.same q uid)) [
              | inl hit ↦ rw hit (sym (ap (view ctbl) ((collection_key.same_iff q uid).0 hit) ∙ e))
              | inr miss ↦ rw miss refl
            ],
          )
    ]

-- The error reply and nothing else.
pub record IsRefused (s : Server) (uid : ℕ) (t : TransactionIn) (message : List ℕ) (o : Outcome)
    : Type 0 where
  pub left : Server
  pub answer : o ≡ some (left, true)
  pub same_accounts : left.accounts ≡ s.accounts
  pub same_connections : (q : ℕ) → view left.connections q ≡ view s.connections q
  pub one_reply :
      left.events
      ≡ s.events ++ wrote uid (write t.t_taskno (add_string (reply_create t 1 1) 100 message)) ∷ []

reply_error-IsRefused :
    (s : Server) (ctbl : Connections) (uid : ℕ) (t : TransactionIn) (message : List ℕ)
    → ((q : ℕ) → view ctbl q ≡ view s.connections q)
    → IsRefused s uid t message
        (some (reply_error (record s { connections = ctbl }) uid t message, true))
unfolding reply_error send emit add_string reply_create add_object
reply_error-IsRefused s ctbl uid t message h = record {
  left = reply_error (record s { connections = ctbl }) uid t message;
  answer = refl;
  same_accounts = refl;
  same_connections = h;
  one_reply = refl;
}

guarded-IsRefused :
    (s : Server) (uid : ℕ) (t : TransactionIn) (field : ℕ) (message : List ℕ)
    (work : Server → Outcome)
    → IsWellFormed s.connections
    → grants (view s.connections uid) field ≡ false
    → IsRefused s uid t message (guarded s uid t field message work)
unfolding guarded
guarded-IsRefused s uid t field message work w h =
    let (valid, answer, same) = perm_check-grants s.connections uid field w in
    let no : refuses (perm_check s.connections uid field).1 ≡ true =
      answer ∙ ap (λ b. if b then false else true) h in
    rw no (reply_error-IsRefused s (perm_check s.connections uid field).0 uid t message same)

-- The handlers that ask for a privilege.
pub data Request : Type 0 where
  broadcast_request : ℕ → Request
  kick_user : ℕ → Request
  user_info : Request
  send_privmsg : Request
  request_chat : Request
  get_news_bundle : Request
  create_account : Encrypt → Request
  modify_account : Encrypt → List ℕ → Request
  delete_account : List ℕ → Request
  admin_submit : Encrypt → Request

unfoldable pub handle : Request → Server → ℕ → TransactionIn → Outcome
handle (broadcast_request n) = txn_broadcast n
handle (kick_user n) = txn_kick_user n
handle user_info = txn_user_info
handle send_privmsg = txn_send_privmsg
handle request_chat = txn_request_chat
handle get_news_bundle = txn_get_news_bundle
handle (create_account encrypt) = txn_create_account encrypt
handle (modify_account encrypt behind) = txn_modify_account encrypt behind
handle (delete_account unset) = txn_delete_account unset
handle (admin_submit encrypt) = txn_admin_submit encrypt

-- The privilege, by its number in hlid.h.
abbrev pub privilege : Request → ℕ
privilege (broadcast_request n) = 32
privilege (kick_user n) = 22
privilege user_info = 24
privilege send_privmsg = 40
privilege request_chat = 11
privilege get_news_bundle = 20
privilege (create_account encrypt) = 14
privilege (modify_account encrypt behind) = 17
privilege (delete_account unset) = 15
privilege (admin_submit encrypt) = 17

abbrev pub refusal : Request → List ℕ
refusal (broadcast_request n) = codes "Error: You are not allowed to send broadcast messages."
refusal (kick_user n) = codes "Error: You are not allowed to disconnect users."
refusal user_info = codes "Error: You are not allowed to view user information."
refusal send_privmsg = codes "Error: You are not allowed to send private messages."
refusal request_chat = codes "Error: You are not allowed to initiate private chat."
refusal get_news_bundle = codes "Error: You are not allowed to read news articles."
refusal (create_account encrypt) = codes "Error: You are not allowed to create accounts."
refusal (modify_account encrypt behind) = codes "Error: You are not allowed to modify accounts."
refusal (delete_account unset) = codes "Error: You are not allowed to delete accounts."
refusal (admin_submit encrypt) = codes "Error: You are not allowed to modify accounts."

-- A client whose connection is not there or lacks the privilege that a request needs gets one error
-- reply, whatever the message contains; no account and no connection changes and nothing else is
-- sent or saved. The requests are the broadcast, the kick, the user's information, the private
-- message and chat, the news, and creating, modifying, deleting and submitting accounts.
pub handle-IsRefused :
    (r : Request) (s : Server) (uid : ℕ) (t : TransactionIn)
    → IsWellFormed s.connections
    → grants (view s.connections uid) (privilege r) ≡ false
    → IsRefused s uid t (refusal r) (handle r s uid t)
unfolding handle txn_broadcast txn_kick_user txn_user_info txn_send_privmsg txn_request_chat
    txn_get_news_bundle txn_create_account txn_modify_account txn_delete_account txn_admin_submit
handle-IsRefused (broadcast_request n) s uid t w h = guarded-IsRefused s uid t _ _ _ w h
handle-IsRefused (kick_user n) s uid t w h = guarded-IsRefused s uid t _ _ _ w h
handle-IsRefused user_info s uid t w h = guarded-IsRefused s uid t _ _ _ w h
handle-IsRefused send_privmsg s uid t w h = guarded-IsRefused s uid t _ _ _ w h
handle-IsRefused request_chat s uid t w h = guarded-IsRefused s uid t _ _ _ w h
handle-IsRefused get_news_bundle s uid t w h = guarded-IsRefused s uid t _ _ _ w h
handle-IsRefused (create_account encrypt) s uid t w h = guarded-IsRefused s uid t _ _ _ w h
handle-IsRefused (modify_account encrypt behind) s uid t w h = guarded-IsRefused s uid t _ _ _ w h
handle-IsRefused (delete_account unset) s uid t w h = guarded-IsRefused s uid t _ _ _ w h
handle-IsRefused (admin_submit encrypt) s uid t w h = guarded-IsRefused s uid t _ _ _ w h

-- ===== src/Handlers/Replies.antt =====
-- What a handler leaves when it replies.
use hotwired.AccountManager.Roster.{roster, IsConsistent}
use hotwired.AccountManager.{Account}
use hotwired.Collection.Keys.{collection_key}
use hotwired.Collection.View.{IsWellFormed, view}
use hotwired.Handlers.Accounts.{commit_reply}
use hotwired.Handlers.Privileges.{grants, perm_check-grants}
use hotwired.Handlers.{Server, Outcome, emit, send, reply_success, reply_error, guarded}
use hotwired.ConnectionManager.{perm_check}
use hotwired.Prelude.{
  ℕ, ◌≡◌, refl, ap, ◌∙◌, true, false, Bool-cases, inl, inr, some, List, ◌==◌, if◌then◌else◌,
}
use hotwired.Transaction.{TransactionIn, TransactionOut}

-- The handler answers 0, and the accounts are these, in the table and in the list.
pub record Leaves (o : Outcome) (l : List Account) : Type 0 where
  pub left : Server
  pub answer : o ≡ some (left, true)
  pub consistent : IsConsistent left.accounts
  pub rosters : roster left.accounts ≡ l

pub send-accounts :
    (s : Server) (uid : ℕ) (t : TransactionOut) → (send s uid t).accounts ≡ s.accounts
unfolding send emit
send-accounts s uid t = elim (Bool-cases (t.t_class == 0)) [ inl e ↦ rw e refl | inr e ↦ rw e refl ]

-- A reply behind the change.
pub sent-Leaves :
    (s : Server) (uid : ℕ) (t : TransactionOut) (l : List Account)
    → IsConsistent s.accounts
    → roster s.accounts ≡ l
    → Leaves (some (send s uid t, true)) l
sent-Leaves s uid t l c e = record {
  left = send s uid t;
  answer = refl;
  consistent = rw (send-accounts s uid t) c;
  rosters = ap roster (send-accounts s uid t) ∙ e;
}

pub reply_error-Leaves :
    (s : Server) (uid : ℕ) (t : TransactionIn) (message : List ℕ) (l : List Account)
    → IsConsistent s.accounts
    → roster s.accounts ≡ l
    → Leaves (some (reply_error s uid t message, true)) l
unfolding reply_error
reply_error-Leaves s uid t message l c e = sent-Leaves s uid _ l c e

pub commit_reply-Leaves :
    (s : Server) (uid : ℕ) (t : TransactionIn) (l : List Account)
    → IsConsistent s.accounts
    → roster s.accounts ≡ l
    → Leaves (commit_reply s uid t) l
unfolding commit_reply reply_success emit
commit_reply-Leaves s uid t l c e = sent-Leaves _ uid _ l c e

-- Behind the test of the privilege, which passes.
pub guarded-granted :
    (s : Server) (uid : ℕ) (t : TransactionIn) (field : ℕ) (message : List ℕ)
    (work : Server → Outcome)
    → IsWellFormed s.connections
    → grants (view s.connections uid) field ≡ true
    → guarded s uid t field message work
      ≡ work (record s { connections = (perm_check s.connections uid field).0 })
unfolding guarded
guarded-granted s uid t field message work w h =
    let no =
      (perm_check-grants s.connections uid field w).1 ∙ ap (λ b. if b then false else true) h in
    rw no refl

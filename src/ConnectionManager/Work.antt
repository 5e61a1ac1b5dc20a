-- ===== src/ConnectionManager/Work.antt =====
-- The frame that the accessors of ConnectionManager.c share.
use hotwired.Collection.Keys.{collection_key}
use hotwired.Collection.Operations.{Writes, held, after_Keeps}
use hotwired.Collection.Rebuild.{Keeps}
use hotwired.Collection.Removal.{lookup_lem}
use hotwired.Collection.Through.{write_through-Writes}
use hotwired.Collection.View.{IsWellFormed, view, update}
use hotwired.Collection.{lookup, size}
use hotwired.ConnectionManager.{Connection, Connections, on_connection}
use mathlib.Core.Path.{subst}
use hotwired.Prelude.{ℕ, ◌≡◌, refl, ◌∙◌, ap, Option, none, some, Option-cases, inl, inr, arith}

-- What an accessor answers and leaves, by the connection that the table held.
abbrev pub Worked {ℓ} :
    {A : Type ℓ}
    → Connections
    → ℕ
    → A
    → (Connection → Connection × A)
    → Option Connection
    → Connections × A
    → Type ℓ
Worked ctbl uid missing work none r = (r.1 ≡ missing) × Keeps ctbl r.0
Worked ctbl uid missing work (some c) r = (r.1 ≡ (work c).1) × Writes ctbl uid (some (work c).0) r.0

pub on_connection_lem {ℓ} :
    {A : Type ℓ} (ctbl : Connections) (uid : ℕ) (missing : A) (work : Connection → Connection × A)
    → IsWellFormed ctbl
    → Worked ctbl uid missing work (view ctbl uid) (on_connection ctbl uid missing work)
unfolding on_connection
on_connection_lem ctbl uid missing work w =
    let (answer, kept) = lookup_lem ctbl uid w in
    elim (Option-cases (view ctbl uid)) [
      | inl e ↦ rw (e, answer ∙ e, on_connection) (refl, kept)
      | inr (c, e) ↦
          rw (e, answer ∙ e, on_connection)
            (
              refl,
              after_Keeps ctbl (lookup ctbl uid).0 uid (some (work c).0) _ kept (
                  write_through-Writes (lookup ctbl uid).0 uid (λ o. (work o).0) c kept.valid
                    (kept.same_view uid ∙ e)),
            )
    ]

-- The connection that the table holds is replaced, nothing else: neither another one nor the count.
pub record Changed (old : Connections) (uid : ℕ) (c : Connection) (new : Connections) : Type 0 where
  pub valid : IsWellFormed new
  pub views : (q : ℕ) → view new q ≡ update (view old) uid (some c) q
  pub same_count : size new ≡ size old

pub on_present {ℓ} :
    {A : Type ℓ} (ctbl : Connections) (uid : ℕ) (missing : A) (work : Connection → Connection × A)
    (c : Connection)
    → IsWellFormed ctbl
    → view ctbl uid ≡ some c
    → ((on_connection ctbl uid missing work).1 ≡ (work c).1)
      × Changed ctbl uid (work c).0 (on_connection ctbl uid missing work).0
on_present ctbl uid missing work c w e =
    let (answer, writes) =
      subst (λ o. Worked ctbl uid missing work o (on_connection ctbl uid missing work)) e
        (on_connection_lem ctbl uid missing work w) in
    (
      answer,
      record {
        valid = writes.valid;
        views = writes.views;
        same_count = omega (arith, writes.sized, ap held e);
      },
    )

pub on_missing {ℓ} :
    {A : Type ℓ} (ctbl : Connections) (uid : ℕ) (missing : A) (work : Connection → Connection × A)
    → IsWellFormed ctbl
    → view ctbl uid ≡ none
    → ((on_connection ctbl uid missing work).1 ≡ missing)
      × Keeps ctbl (on_connection ctbl uid missing work).0
on_missing ctbl uid missing work w e =
    subst (λ o. Worked ctbl uid missing work o (on_connection ctbl uid missing work)) e
      (on_connection_lem ctbl uid missing work w)

-- The connection that was replaced reads as the new one.
pub Changed-self :
    (old : Connections) (uid : ℕ) (c : Connection) (new : Connections)
    → Changed old uid c new
    → view new uid ≡ some c
Changed-self old uid c new h = h.views uid ∙ rw ((collection_key.same_iff uid uid).1 refl) refl

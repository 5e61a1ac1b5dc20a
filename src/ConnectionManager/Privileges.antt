-- ===== src/ConnectionManager/Privileges.antt =====
-- The privileges of a connection.
use mathlib.Core.Path.{subst}
use hotwired.Collection.Keys.{collection_key}
use hotwired.Collection.View.{IsWellFormed, view}
use hotwired.ConnectionManager.Work.{on_present, Changed-self}
use hotwired.ConnectionManager.{
  Connection, Connections, perm_check, perm_set, perm_setall, perm_getall, checked, changed, copied,
}
use hotwired.Permissions
use hotwired.Permissions.{Permissions, IsPermissions, check_field}
use hotwired.Permissions.Classes.{flag}
use hotwired.Permissions.Fields.{check_field-set_field}
use hotwired.Prelude.{
  ℕ, ◌<◌, ◌≡◌, refl, ◌∙◌, ap, Bool, true, false, none, some, ◌==◌, if◌then◌else◌, take, take-all,
}

-- The answer of `perm_check` for a connection that is there.
perm_check-present :
    (ctbl : Connections) (uid field : ℕ) (c : Connection)
    → IsWellFormed ctbl
    → view ctbl uid ≡ some c
    → (perm_check ctbl uid field).1 ≡ checked c.perms field
unfolding perm_check
perm_check-present ctbl uid field c w e =
    (on_present ctbl uid none (λ o. (o, checked o.perms field)) c w e).0

checked-changed :
    (p : Permissions) (field other : ℕ) (value : Bool)
    → IsPermissions p
    → field < 64
    → ((changed (some p) field value).1 ≡ true)
      × (checked (changed (some p) field value).0 other
          ≡ some (if field == other then flag value else check_field p other))
checked-changed p field other true v h = (refl, ap some (check_field-set_field p field other v h).0)
checked-changed p field other false v h =
    (refl, ap some (check_field-set_field p field other v h).1)

-- For a connection with permissions, cm_perm_set answers 0, and cm_perm_check then answers the value
-- that was set for that field and what it answered before for another one.
pub perm_check-perm_set :
    (ctbl : Connections) (uid field other : ℕ) (value : Bool) (c : Connection) (p : Permissions)
    → IsWellFormed ctbl
    → view ctbl uid ≡ some c
    → c.perms ≡ some p
    → IsPermissions p
    → field < 64
    → ((perm_set ctbl uid field value).1 ≡ true)
      × ((perm_check (perm_set ctbl uid field value).0 uid other).1
          ≡ (if field == other then some (flag value) else (perm_check ctbl uid other).1))
unfolding perm_set
perm_check-perm_set ctbl uid field other value c p w e held v h =
    let work : Connection → Connection × Bool = λ o.
      (record o { perms = (changed o.perms field value).0 }, (changed o.perms field value).1) in
    let (answer, ch) = on_present ctbl uid false work c w e in
    let now =
      perm_check-present (perm_set ctbl uid field value).0 uid other (work c).0 ch.valid
        (Changed-self ctbl uid (work c).0 _ ch) in
    let before = perm_check-present ctbl uid other c w e ∙ ap (λ q. checked q other) held in
    let (done, reads) = checked-changed p field other value v h in
    (
      answer ∙ ap (λ q. (changed q field value).1) held ∙ done,
      now
          ∙ ap (λ q. checked (changed q field value).0 other) held
          ∙ reads
          ∙ rw before (either (field == other)),
    )
  where
    either :
        (b : Bool)
        → some (if b then flag value else check_field p other)
          ≡ (if b then some (flag value) else some (check_field p other))
    either true = refl
    either false = refl

-- After cm_perm_setall, which answers 0 for a connection that is there, cm_perm_getall answers the
-- same permissions, and cm_perm_check their fields.
pub perm_getall-perm_setall :
    (ctbl : Connections) (uid : ℕ) (p : Permissions) (c : Connection)
    → IsWellFormed ctbl
    → view ctbl uid ≡ some c
    → IsPermissions p
    → let new = (perm_setall ctbl uid p).0 in
      ((perm_setall ctbl uid p).1 ≡ true)
      × ((perm_getall new uid).1 ≡ some p)
      × ((field : ℕ) → (perm_check new uid field).1 ≡ some (check_field p field))
unfolding perm_setall perm_getall Permissions.copy
perm_getall-perm_setall ctbl uid p c w e v =
    let whole : take 8 p ≡ p = subst (λ n. take n p ≡ p) v.size (take-all p) in
    let work : Connection → Connection × Bool =
      λ o. (record o { perms = some (Permissions.copy p) }, true) in
    let (answer, ch) = on_present ctbl uid false work c w e in
    let at = Changed-self ctbl uid (work c).0 _ ch in
    let got = (on_present _ uid none (λ o. (o, copied o.perms)) (work c).0 ch.valid at).0 in
    (
      answer,
      got ∙ ap some (ap (take 8) whole ∙ whole),
      λ field.
          perm_check-present _ uid field (work c).0 ch.valid at
          ∙ ap (λ q. some (check_field q field)) whole,
    )

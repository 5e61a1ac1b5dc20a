-- ===== src/FileHandlers/Confinement.antt =====
-- What requests on files do to the disk: only what the client's privileges allow, and only to paths
-- that begin with the path of the shared directory.
use hotwired.Collection.Keys.{collection_key}
use hotwired.Collection.View.{IsWellFormed, view}
use hotwired.ConnectionManager.{perm_check}
use hotwired.FileHandlers.Changes.{called}
use hotwired.FileHandlers.{Site, Outcome, error, success, privileged, location}
use hotwired.FileOps.{FileSystem, Files, addpath, is_folder, file_path, with_slash, ends_in}
use hotwired.Handlers.Privileges.{grants, perm_check-grants}
use hotwired.Handlers.{Server, refuses}
use hotwired.Prelude.{
  ℕ, ◌≡◌, refl, ap, ◌∙◌, Bool, true, false, ◌||◌, Bool-cases, inl, inr, Option, none, some, List,
  [], ◌∷◌, ◌++◌,
}
use hotwired.Transaction.{TransactionIn}
use mathlib.Core.List.{append_assoc}

-- A statement about the disk that every system call keeps which the client may cause: with the
-- privilege it needs, on paths that begin with `base`.
pub record IsKept (F : FileSystem) (P : F.Disk → Type 0) (base : List ℕ) (allows : ℕ → Bool)
    : Type 0 where
  pub mkdir_kept :
      allows 5 ≡ true
      → (disk : F.Disk) (q : List ℕ) (mode : ℕ) → P disk
      → P (F.mkdir disk (base ++ q) mode).0
  pub rmdir_kept :
      allows 6 ≡ true → (disk : F.Disk) (q : List ℕ) → P disk → P (F.rmdir disk (base ++ q)).0
  pub unlink_kept :
      allows 6 ≡ true → (disk : F.Disk) (q : List ℕ) → P disk → P (F.unlink disk (base ++ q)).0
  pub rename_kept :
      (allows 3 || (allows 4 || (allows 7 || allows 8))) ≡ true
      → (disk : F.Disk) (q r : List ℕ) → P disk
      → P (F.rename disk (base ++ q) (base ++ r)).0

-- A path that is none, or begins so.
abbrev pub IsBelow : List ℕ → Option (List ℕ) → Type 0
IsBelow base none = Unit
IsBelow base (some full) = (q : List ℕ) × (full ≡ base ++ q)

with_slash-append : (a q : List ℕ) → (r : List ℕ) × (with_slash (a ++ q) ≡ a ++ r)
with_slash-append a q = elim (Bool-cases (ends_in b'/' (a ++ q))) [
  | inl ended ↦ (q, rw ended refl)
  | inr other ↦ (q ++ b'/' ∷ [], rw other (append_assoc a q (b'/' ∷ [])))
]

module _ {F : FileSystem} where
  pub location-IsBelow :
      (s : Files F) (folder : Option (List ℕ)) (file : List ℕ)
      → IsBelow s.base_path (location s folder file)
  unfolding location addpath
  location-IsBelow s none file = (file, refl)
  location-IsBelow s (some folder) file =
      elim (Bool-cases (is_folder F s.disk (s.base_path ++ folder))) [
        | inl there ↦
            rw there (folder ++ b'/' ∷ file, append_assoc s.base_path folder (b'/' ∷ file))
        | inr missing ↦ rw missing tt
      ]

  pub file_path-IsBelow :
      (s : Files F) (folder : Option (List ℕ)) (file : List ℕ)
      → IsBelow s.base_path (file_path F s folder file)
  unfolding file_path addpath
  file_path-IsBelow s none file = (file, refl)
  file_path-IsBelow s (some folder) file =
      let (r, e) = with_slash-append s.base_path folder in
      elim (Bool-cases (is_folder F s.disk (s.base_path ++ folder))) [
        | inl there ↦ rw there (r ++ file, ap (λ p. p ++ file) e ∙ append_assoc s.base_path r file)
        | inr missing ↦ rw missing tt
      ]

  -- What is left of a request, where it does not fail.
  abbrev pub Leaves : (F.Disk → Type 0) → Outcome F → Type 0
  Leaves P none = Unit
  Leaves P (some (s, b)) = P s.files.disk

  module _ (P : F.Disk → Type 0) where
    pub error-Leaves :
        (s : Site F) (uid : ℕ) (t : TransactionIn) (message : List ℕ)
        → P s.files.disk
        → Leaves P (error s uid t message)
    unfolding error
    error-Leaves s uid t message p = p

    pub success-Leaves :
        (s : Site F) (uid : ℕ) (t : TransactionIn) → P s.files.disk → Leaves P (success s uid t)
    unfolding success
    success-Leaves s uid t p = p

    pub called-Leaves :
        (s : Site F) (uid : ℕ) (t : TransactionIn) (message : List ℕ) (r : F.Disk × Bool)
        → P r.0
        → Leaves P (called s uid t message r)
    unfolding called success error
    called-Leaves s uid t message (disk, true) p = p
    called-Leaves s uid t message (disk, false) p = p

    -- The work goes on with the same files, and only where the privilege is granted.
    pub privileged-Leaves :
        (s : Site F) (uid : ℕ) (t : TransactionIn) (field : ℕ) (message : List ℕ)
        (work : Site F → Outcome F)
        → IsWellFormed s.server.connections
        → P s.files.disk
        → (grants (view s.server.connections uid) field ≡ true
            → (server : Server) → Leaves P (work (record s { server = server })))
        → Leaves P (privileged s uid t field message work)
    unfolding privileged error
    privileged-Leaves s uid t field message work w p go =
        let (valid, answer, same) = perm_check-grants s.server.connections uid field w in
        elim (Bool-cases (grants (view s.server.connections uid) field)) [
          | inl granted ↦
              let passes : refuses (perm_check s.server.connections uid field).1 ≡ false =
                answer ∙ rw granted refl in
              rw passes (go granted _)
          | inr denied ↦
              let stops : refuses (perm_check s.server.connections uid field).1 ≡ true =
                answer ∙ rw denied refl in
              rw stops p
        ]

    -- The second check of `txn_delete`.
    pub asked-Leaves :
        (s : Site F) (uid : ℕ) (t : TransactionIn) (field : ℕ) (message : List ℕ)
        (work : Site F → Outcome F)
        → P s.files.disk
        → ((server : Server) → Leaves P (work (record s { server = server })))
        → Leaves P (privileged s uid t field message work)
    unfolding privileged error
    asked-Leaves s uid t field message work p go =
        elim (Bool-cases (refuses (perm_check s.server.connections uid field).1)) [
          | inl stops ↦ rw stops p
          | inr passes ↦ rw passes (go _)
        ]

-- ===== src/FileHandlers/Deletions.antt =====
-- What `txn_create_folder` and `txn_delete` leave of the disk.
use hotwired.Collection.Keys.{collection_key}
use hotwired.Collection.View.{IsWellFormed, view}
use hotwired.Config
use hotwired.FileHandlers.Changes.{
  umask_of, create_at, create_named, create_wanted, txn_create_folder, removed_folder, delete_found,
  delete_at, delete_named, delete_wanted, txn_delete,
}
use hotwired.FileHandlers.Confinement.{
  IsKept, IsBelow, location-IsBelow, Leaves, error-Leaves, success-Leaves, called-Leaves,
  privileged-Leaves, asked-Leaves,
}
use hotwired.FileHandlers.{Site, Wanted, want, wanted, location}
use hotwired.FileOps.Removal.Below.{KeptBelow, Kept, rmdir_recursive-Kept, opened-append}
use hotwired.FileOps.Removal.{opened, rmdir_recursive}
use hotwired.FileOps.{FileSystem, Stat, Files}
use hotwired.Handlers.Privileges.{grants}
use hotwired.Handlers.{Server}
use hotwired.Prelude.Texts.{codes}
use hotwired.Prelude.{
  ℕ, ◌≡◌, sym, ap, ◌∙◌, Bool, true, false, Bool-cases, inl, inr, Option, none, some, List, ◌++◌,
}
use hotwired.Transaction.{TransactionIn}
use mathlib.Core.List.{append_assoc}
use mathlib.Core.Path.{subst}

module _ {F : FileSystem} (P : F.Disk → Type 0) (s : Site F) (uid : ℕ) (t : TransactionIn)
    (w : IsWellFormed s.server.connections)
    (kept : IsKept F P s.files.base_path (grants (view s.server.connections uid)))
    (p : P s.files.disk) where
  create_at-Leaves :
      (server : Server) (o : Option (List ℕ))
      → grants (view s.server.connections uid) 5 ≡ true
      → IsBelow s.files.base_path o
      → Leaves P (create_at (record s { server = server }) uid t o)
  create_at-Leaves server none g below = error-Leaves P (record s { server = server }) uid t _ p
  create_at-Leaves server (some full) g (q, e) =
      let r = Config.int_value s.files.conf (codes "transfers") (codes "file_umask") in
      called-Leaves P (record s { server = server; files = record s.files { conf = r.0 } }) uid t _
        (F.mkdir s.files.disk full (umask_of r.1))
        (subst (λ f. P (F.mkdir s.files.disk f (umask_of r.1)).0) (sym e)
          (kept.mkdir_kept g s.files.disk q (umask_of r.1) p))

  create_wanted-Leaves :
      (server : Server) (o : Option Wanted)
      → grants (view s.server.connections uid) 5 ≡ true
      → Leaves P (create_wanted (record s { server = server }) uid t o)
  create_wanted-Leaves server none g = tt
  create_wanted-Leaves server (some wish) g = by_name wish.file
    where
      by_name :
          (file : Option (List ℕ))
          → Leaves P (create_named (record s { server = server }) uid t wish.path file)
      by_name none = error-Leaves P (record s { server = server }) uid t _ p
      by_name (some file) =
          create_at-Leaves server (location s.files wish.path file) g
            (location-IsBelow s.files wish.path file)

  pub txn_create_folder-Leaves : Leaves P (txn_create_folder s uid t)
  unfolding txn_create_folder
  txn_create_folder-Leaves =
      privileged-Leaves P s uid t 5 _ _ w p
        (λ g server. create_wanted-Leaves server (wanted want t) g)

  delete_folder-Leaves :
      (server : Server) (full : List ℕ)
      → grants (view s.server.connections uid) 6 ≡ true
      → ((q : List ℕ) × (full ≡ s.files.base_path ++ q))
      → Leaves P
          (removed_folder (record s { server = server }) uid t (rmdir_recursive F s.files full))
  delete_folder-Leaves server full g (q, e) =
      let (r, at) = opened-append s.files.base_path q in
      let start : opened full ≡ s.files.base_path ++ r = ap opened e ∙ at in
      let below : KeptBelow F P full = λ disk x l.
        let whole : s.files.base_path ++ (r ++ x) ≡ opened full ++ x =
          sym (ap (λ a. a ++ x) start ∙ append_assoc s.files.base_path r x) in
        (
          subst (λ f. P (F.unlink disk f).0) whole (kept.unlink_kept g disk (r ++ x) l),
          subst (λ f. P (F.rmdir disk f).0) whole (kept.rmdir_kept g disk (r ++ x) l),
        ) in
      let own = λ (disk : F.Disk) (l : P disk).
        subst (λ f. P (F.rmdir disk f).0) (sym e) (kept.rmdir_kept g disk q l) in
      by_answer (rmdir_recursive F s.files full) (rmdir_recursive-Kept F P full below own s.files p)
    where
      by_answer :
          (o : Option (Files F × Bool))
          → Kept {F = F} P o
          → Leaves P (removed_folder (record s { server = server }) uid t o)
      by_answer none l = tt
      by_answer (some (files, true)) l =
          success-Leaves P (record s { server = server; files = files }) uid t l
      by_answer (some (files, false)) l =
          error-Leaves P (record s { server = server; files = files }) uid t _ l

  delete_at-Leaves :
      (server : Server) (o : Option (List ℕ))
      → grants (view s.server.connections uid) 6 ≡ true
      → IsBelow s.files.base_path o
      → Leaves P (delete_at (record s { server = server }) uid t o)
  delete_at-Leaves server none g below = error-Leaves P (record s { server = server }) uid t _ p
  delete_at-Leaves server (some full) g (q, e) = by_stat (F.stat s.files.disk full)
    where
      by_stat :
          (st : Option Stat) → Leaves P (delete_found (record s { server = server }) uid t full st)
      by_stat none = error-Leaves P (record s { server = server }) uid t _ p
      by_stat (some st) = elim (Bool-cases st.is_dir) [
        | inl folder ↦ rw folder (
            asked-Leaves P (record s { server = server }) uid t 6 _ _ p
              (λ asked. delete_folder-Leaves asked full g (q, e)))
        | inr file ↦ rw file (
            asked-Leaves P (record s { server = server }) uid t 0 _ _ p
              (λ asked.
                called-Leaves P (record s { server = asked }) uid t _ (F.unlink s.files.disk full)
                  (subst (λ f. P (F.unlink s.files.disk f).0) (sym e)
                    (kept.unlink_kept g s.files.disk q p))))
      ]

  delete_wanted-Leaves :
      (server : Server) (o : Option Wanted)
      → grants (view s.server.connections uid) 6 ≡ true
      → Leaves P (delete_wanted (record s { server = server }) uid t o)
  delete_wanted-Leaves server none g = tt
  delete_wanted-Leaves server (some wish) g = by_name wish.file
    where
      by_name :
          (file : Option (List ℕ))
          → Leaves P (delete_named (record s { server = server }) uid t wish.path file)
      by_name none = error-Leaves P (record s { server = server }) uid t _ p
      by_name (some file) =
          delete_at-Leaves server (location s.files wish.path file) g
            (location-IsBelow s.files wish.path file)

  pub txn_delete-Leaves : Leaves P (txn_delete s uid t)
  unfolding txn_delete
  txn_delete-Leaves =
      privileged-Leaves P s uid t 6 _ _ w p
        (λ g server. delete_wanted-Leaves server (wanted want t) g)

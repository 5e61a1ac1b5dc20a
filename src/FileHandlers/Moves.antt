-- ===== src/FileHandlers/Moves.antt =====
-- What `txn_move` and `txn_rename` leave of the disk.
use hotwired.Collection.Keys.{collection_key}
use hotwired.Collection.View.{IsWellFormed, view}
use hotwired.FileHandlers.Changes.{
  called, move_to, move_found, move_at, move_named, move_wanted, txn_move, rename_found, rename_at,
  rename_path, rename_named, txn_rename, path_object,
}
use hotwired.FileHandlers.Confinement.{
  IsKept, IsBelow, location-IsBelow, file_path-IsBelow, Leaves, error-Leaves, success-Leaves,
  called-Leaves, privileged-Leaves,
}
use hotwired.FileHandlers.{Site, Wanted, want_move, wanted, location}
use hotwired.FileOps.{FileSystem, Stat, file_path}
use hotwired.Handlers.Login.{string_of}
use hotwired.Handlers.Privileges.{grants}
use hotwired.Handlers.{Server}
use hotwired.Prelude.Texts.{text_at}
use hotwired.Prelude.{
  ℕ, ◌≡◌, sym, true, ◌||◌, Bool-cases, inl, inr, Option, none, some, List, ◌++◌, arith,
}
use hotwired.Transaction.Objects.{object_index}
use hotwired.Transaction.PathName.{PathResult, null, fault, path}
use hotwired.Transaction.{TransactionIn}
use mathlib.Core.Path.{subst}

module _ {F : FileSystem} (P : F.Disk → Type 0) (s : Site F) (uid : ℕ) (t : TransactionIn)
    (w : IsWellFormed s.server.connections)
    (kept : IsKept F P s.files.base_path (grants (view s.server.connections uid)))
    (p : P s.files.disk) where
  -- A privilege to move or to rename lets `rename` be called.
  renamed-Leaves :
      (server : Server) (message source dest : List ℕ)
      → (let allows = grants (view s.server.connections uid) in
          (allows 3 || (allows 4 || (allows 7 || allows 8))) ≡ true)
      → IsBelow s.files.base_path (some source)
      → IsBelow s.files.base_path (some dest)
      → Leaves P
          (called (record s { server = server }) uid t message (F.rename s.files.disk source dest))
  renamed-Leaves server message source dest g (q, e) (r, d) =
      called-Leaves P (record s { server = server }) uid t message
        (F.rename s.files.disk source dest)
        (subst (λ x. P (F.rename s.files.disk x dest).0) (sym e)
          (subst (λ x. P (F.rename s.files.disk (s.files.base_path ++ q) x).0) (sym d)
            (kept.rename_kept g s.files.disk q r p)))

  move_to-Leaves :
      (server : Server) (source : List ℕ) (o : Option (List ℕ))
      → (let allows = grants (view s.server.connections uid) in
          (allows 3 || (allows 4 || (allows 7 || allows 8))) ≡ true)
      → IsBelow s.files.base_path (some source)
      → IsBelow s.files.base_path o
      → Leaves P (move_to uid t source (record s { server = server }) o)
  move_to-Leaves server source none g from to =
      error-Leaves P (record s { server = server }) uid t _ p
  move_to-Leaves server source (some dest) g from to = renamed-Leaves server _ source dest g from to

  move_at-Leaves :
      (o dp : Option (List ℕ)) (file : List ℕ)
      → IsBelow s.files.base_path o
      → Leaves P (move_at s uid t dp file o)
  move_at-Leaves none dp file below = error-Leaves P s uid t _ p
  move_at-Leaves (some source) dp file below = by_stat (F.stat s.files.disk source)
    where
      by_stat : (st : Option Stat) → Leaves P (move_found s uid t source dp file st)
      by_stat none = error-Leaves P s uid t _ p
      by_stat (some st) = elim (Bool-cases st.is_dir) [
        | inl folder ↦ rw folder (
            privileged-Leaves P s uid t 8 _ _ w p (λ g server.
              move_to-Leaves server source (location s.files dp file) (ground (arith, g)) below
                (location-IsBelow s.files dp file)))
        | inr plain ↦ rw plain (
            privileged-Leaves P s uid t 4 _ _ w p (λ g server.
              move_to-Leaves server source (location s.files dp file) (ground (arith, g)) below
                (location-IsBelow s.files dp file)))
      ]

  pub txn_move-Leaves : Leaves P (txn_move s uid t)
  unfolding txn_move
  txn_move-Leaves = by_wish (wanted want_move t)
    where
      by_name :
          (wish : Wanted) (file : Option (List ℕ))
          → Leaves P (move_named s uid t wish.path wish.dest file)
      by_name wish none = error-Leaves P s uid t _ p
      by_name wish (some file) =
          move_at-Leaves (location s.files wish.path file) wish.dest file
            (location-IsBelow s.files wish.path file)

      by_wish : (o : Option Wanted) → Leaves P (move_wanted s uid t o)
      by_wish none = tt
      by_wish (some wish) = by_name wish wish.file

  rename_at-Leaves :
      (o d : Option (List ℕ))
      → IsBelow s.files.base_path o
      → IsBelow s.files.base_path d
      → Leaves P (rename_at s uid t o d)
  rename_at-Leaves none d from to = error-Leaves P s uid t _ p
  rename_at-Leaves (some source) none from to = error-Leaves P s uid t _ p
  rename_at-Leaves (some source) (some dest) from to = by_stat (F.stat s.files.disk source)
    where
      by_stat : (st : Option Stat) → Leaves P (rename_found s uid t source dest st)
      by_stat none = error-Leaves P s uid t _ p
      by_stat (some st) = elim (Bool-cases st.is_dir) [
        | inl folder ↦ rw folder (
            privileged-Leaves P s uid t 7 _ _ w p
              (λ g server. renamed-Leaves server _ source dest (ground (arith, g)) from to))
        | inr plain ↦ rw plain (
            privileged-Leaves P s uid t 3 _ _ w p
              (λ g server. renamed-Leaves server _ source dest (ground (arith, g)) from to))
      ]

  pub txn_rename-Leaves : Leaves P (txn_rename s uid t)
  unfolding txn_rename
  txn_rename-Leaves = by_names (string_of t (object_index t 201)) (string_of t (object_index t 211))
    where
      found :
          (source dest : List ℕ) (folder : Option (List ℕ))
          → Leaves P (
              rename_at s uid t
                (file_path F s.files folder source)
                (file_path F s.files folder dest))
      found source dest folder =
          rename_at-Leaves (file_path F s.files folder source) (file_path F s.files folder dest)
            (file_path-IsBelow s.files folder source) (file_path-IsBelow s.files folder dest)

      by_path :
          (source dest : List ℕ) (r : PathResult) → Leaves P (rename_path s uid t source dest r)
      by_path source dest null = found source dest none
      by_path source dest fault = tt
      by_path source dest (path q) = found source dest (some (text_at q))

      by_names : (source dest : Option (List ℕ)) → Leaves P (rename_named s uid t source dest)
      by_names none dest = success-Leaves P s uid t p
      by_names (some source) none = success-Leaves P s uid t p
      by_names (some source) (some dest) = by_path source dest (path_object t (object_index t 202))

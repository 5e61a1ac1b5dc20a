-- ===== src/FileOps/Removal/Depth.antt =====
-- rmdir_recursive comes to an end.
use hotwired.FileOps.Removal.{
  Removal, removed, overrun, out_of_fuel, is_own, opened, go_on, entry_removed, clear, emptied,
  remove_directory, IsNamed, depth,
}
use hotwired.FileOps.{FileSystem, Stat, maxpathlen, ends_in}
use hotwired.Prelude.{
  ℕ, zero, suc, ◌+◌, ◌-◌, ◌≤◌, ◌<◌, ◌≡◌, ◌≢◌, refl, true, false, Option, none, some, List, [], ◌∷◌,
  ◌++◌, length, length-append, All, leb, Bool-cases, inl, inr, arith,
}

not_leb : (a b : ℕ) → leb a b ≡ false → b < a
not_leb a b h = ground arith

module _ (F : FileSystem) where
  abbrev Ends : Removal F.Disk → Type 0
  Ends r = r ≢ out_of_fuel

  go_on-Ends :
      (rest : F.Disk → Removal F.Disk) (r : Removal F.Disk)
      → ((disk : F.Disk) → Ends (rest disk))
      → Ends r
      → Ends (go_on rest r)
  go_on-Ends rest (removed disk true) h e = h disk
  go_on-Ends rest (removed disk false) h e = λ q. cc
  go_on-Ends rest overrun h e = λ q. cc
  go_on-Ends rest out_of_fuel h e = e

  clear-Ends :
      (walk : List ℕ → F.Disk → Removal F.Disk) (prefix : List ℕ) (rl : ℕ)
      → ((name : List ℕ) (disk : F.Disk)
          → 0 < length name
          → length name < rl
          → Ends (walk (prefix ++ name) disk))
      → (names : List (List ℕ)) (disk : F.Disk) → All (λ name. 0 < length name) names
      → Ends (clear F walk prefix rl names disk)
  unfolding clear
  clear-Ends walk prefix rl h [] disk named = λ q. cc
  clear-Ends walk prefix rl h (name ∷ names) disk (some_name, named) =
      let rest = λ (left : F.Disk). clear-Ends walk prefix rl h names left named in
      elim (Bool-cases (is_own name)) [
        | inl own ↦ rw own (rest disk)
        | inr other ↦ elim (Bool-cases (leb rl (length name))) [
          | inl long ↦ rw (other, long) (λ q. cc)
          | inr fits ↦
              rw (other, fits)
                (go_on-Ends (clear F walk prefix rl names) _ rest
                  (entry (F.stat disk (prefix ++ name)) (h name disk some_name (ground arith))))
        ]
      ]
    where
      entry :
          (st : Option Stat)
          → Ends (walk (prefix ++ name) disk)
          → Ends (entry_removed F walk (prefix ++ name) disk st)
      entry none e = λ q. cc
      entry (some st) e = elim (Bool-cases st.is_dir) [
        | inl folder ↦ rw folder e
        | inr file ↦ rw file (λ q. cc)
      ]

  opened_grows : (path : List ℕ) → length path ≤ length (opened path)
  unfolding ends_in
  opened_grows [] = omega arith
  opened_grows (c ∷ s) = elim (Bool-cases (ends_in b'/' (c ∷ s))) [
    | inl ended ↦ rw ended (omega arith)
    | inr other ↦ rw other (omega (arith, length-append (c ∷ s) (b'/' ∷ [])))
  ]

  module _ (named : IsNamed F) where
    emptied-Ends :
        (walk : List ℕ → F.Disk → Removal F.Disk) (path : List ℕ) (disk : F.Disk)
        → ((name : List ℕ) (left : F.Disk)
            → 0 < length name
            → length name < maxpathlen - length (opened path)
            → Ends (walk (opened path ++ name) left))
        → (names : Option (List (List ℕ))) → F.readdir disk path ≡ names
        → Ends (emptied F walk path disk names)
    emptied-Ends walk path disk h none e = λ q. cc
    emptied-Ends walk path disk h (some names) e =
        go_on-Ends _ _ (λ left q. cc) (clear-Ends walk _ _ h names disk (named disk path names e))

    level :
        (n : ℕ) (path : List ℕ) (disk : F.Disk)
        → (length (opened path) < maxpathlen
            → (name : List ℕ) (left : F.Disk) → 0 < length name
            → Ends (remove_directory F n (opened path ++ name) left))
        → Ends (remove_directory F (suc n) path disk)
    unfolding remove_directory
    level n path disk deeper = elim (Bool-cases (leb maxpathlen (length (opened path)))) [
      | inl full ↦ rw full (λ q. cc)
      | inr room ↦
          let short = not_leb maxpathlen (length (opened path)) room in
          rw room (
            emptied-Ends (remove_directory F n) path disk
              (λ name left some_name fits. deeper short name left some_name) (F.readdir disk path)
              refl)
    ]

    -- Where each byte of the buffer that is left behind the path is worth one level, and there is one
    -- more.
    levels :
        (n : ℕ) (path : List ℕ) (disk : F.Disk)
        → maxpathlen < suc n + length path
        → Ends (remove_directory F (suc n) path disk)
    levels zero path disk h =
        level 0 path disk (λ short name left some_name. absurd (omega (arith, opened_grows path)))
    levels (suc n) path disk h = level (suc n) path disk (λ short name left some_name.
        levels n (opened path ++ name) left
          (omega (arith, opened_grows path, length-append (opened path) name)))

    -- Where no directory has an entry with no name, rmdir_recursive comes to an end, whatever the
    -- file system holds, also where a link leads back to a directory above: no recursion is deeper
    -- than the buffer for the path is long.
    pub remove_directory_ends :
        (path : List ℕ) (disk : F.Disk) → remove_directory F depth path disk ≢ out_of_fuel
    remove_directory_ends path disk = levels maxpathlen path disk (omega arith)

-- ===== src/FileOps/Removal.antt =====
-- fileops.c: the removal of a directory and all in it.
pub mod Depth
pub mod Below
use hotwired.Config
use hotwired.FileOps.{FileSystem, Stat, Files, maxpathlen, with_slash}
use hotwired.Prelude.Int.{ℤ, pos, negsuc}
use hotwired.Prelude.Texts.{codes}
use hotwired.Prelude.{
  ℕ, zero, suc, ◌+◌, ◌-◌, ◌<◌, ◌≡◌, Bool, true, false, ◌&&◌, Option, none, some, List, [], ◌∷◌,
  ◌++◌, length, All, leb, ◌==◌, if◌then◌else◌,
}

-- `overrun`: a name fills the buffer for the path, so that no terminator follows. The other end
-- without an answer is that of the model's fuel.
pub data Removal {ℓ} (D : Type ℓ) : Type ℓ where
  removed : D → Bool → Removal D
  overrun : Removal D
  out_of_fuel : Removal D

-- `.` and `..`
unfoldable pub is_own : List ℕ → Bool
is_own [] = false
is_own (a ∷ []) = a == b'.'
is_own (a ∷ b ∷ []) = a == b'.' && b == b'.'
is_own (a ∷ b ∷ c ∷ s) = false

-- The path with the slash that is put behind it where it has none.
abbrev pub opened : List ℕ → List ℕ
opened [] = []
opened (c ∷ s) = with_slash (c ∷ s)

module _ {ℓ} {D : Type ℓ} where
  abbrev pub go_on : (D → Removal D) → Removal D → Removal D
  go_on rest (removed disk true) = rest disk
  go_on rest (removed disk false) = removed disk false
  go_on rest overrun = overrun
  go_on rest out_of_fuel = out_of_fuel

abbrev pub answered {ℓ} : {D : Type ℓ} → D × Bool → Removal D
answered (disk, done) = removed disk done

-- A level makes the path longer, so that the length of the buffer bounds the depth.
abbrev pub depth : ℕ
depth = maxpathlen + 1

module _ (F : FileSystem) where
  -- One entry of the directory, which `walk` removes where it is one itself.
  abbrev pub entry_removed :
      (List ℕ → F.Disk → Removal F.Disk) → List ℕ → F.Disk → Option Stat → Removal F.Disk
  entry_removed walk fpath disk none = removed disk false
  entry_removed walk fpath disk (some st) =
      if st.is_dir then walk fpath disk else answered (F.unlink disk fpath)

  -- The loop over the entries; `prefix` is the start of `fpath`, with room for `rl` bytes behind it.
  unfoldable pub clear :
      (List ℕ → F.Disk → Removal F.Disk) → List ℕ → ℕ → List (List ℕ) → F.Disk → Removal F.Disk
  clear walk prefix rl [] disk = removed disk true
  clear walk prefix rl (name ∷ names) disk =
      let rest = clear walk prefix rl names in
      let fpath = prefix ++ name in
      if is_own name
      then rest disk
      else if leb rl (length name)
      then overrun
      else go_on rest (entry_removed walk fpath disk (F.stat disk fpath))

  abbrev pub emptied :
      (List ℕ → F.Disk → Removal F.Disk) → List ℕ → F.Disk → Option (List (List ℕ)) → Removal F.Disk
  emptied walk path disk none = removed disk false
  emptied walk path disk (some names) =
      go_on (λ left. answered (F.rmdir left path))
        (clear walk (opened path) (maxpathlen - length (opened path)) names disk)

  -- The static `rmdir_recursive`, with a bound on the depth.
  unfoldable pub remove_directory : ℕ → List ℕ → F.Disk → Removal F.Disk
  remove_directory zero path disk = out_of_fuel
  remove_directory (suc n) path disk =
      let inner = emptied (remove_directory n) path disk (F.readdir disk path) in
      if leb maxpathlen (length (opened path)) then removed disk false else inner

  abbrev pub allowed : ℤ → Bool
  allowed (pos n) = n == 1
  allowed (negsuc n) = false

  abbrev pub moved : Files F → Removal F.Disk → Option (Files F × Bool)
  moved s (removed disk done) = some (record s { disk = disk }, done)
  moved s overrun = none
  moved s out_of_fuel = none

  abbrev pub rmdir_failed : Files F → List ℕ → Option (Files F × Bool)
  rmdir_failed s path =
      let r = Config.truth_value s.conf (codes "global") (codes "allow_recursive_remove") in
      let asked = record s { conf = r.0 } in
      if allowed r.1 then moved asked (remove_directory depth path s.disk) else some (asked, false)

  abbrev pub rmdir_tried : Files F → List ℕ → F.Disk × Bool → Option (Files F × Bool)
  rmdir_tried s path (disk, true) = some (record s { disk = disk }, true)
  rmdir_tried s path (disk, false) = rmdir_failed (record s { disk = disk }) path

  -- `f_rmdir_recursive`; `true` is 0 and `false` is -1, and none is a read behind the buffer.
  unfoldable pub rmdir_recursive : Files F → List ℕ → Option (Files F × Bool)
  rmdir_recursive s path = rmdir_tried s path (F.rmdir s.disk path)

  -- No directory has an entry with no name.
  abbrev pub IsNamed : Type 0
  IsNamed =
      (disk : F.Disk) (path : List ℕ) (names : List (List ℕ))
      → F.readdir disk path ≡ some names
      → All (λ name. 0 < length name) names

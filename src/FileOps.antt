-- ===== src/FileOps.antt =====
-- fileops.c, and `file_path` of transaction_handler.c: the directory that is shared, and what is
-- listed and removed in it. The file system is a parameter. A directory's names are those that
-- `readdir` gives from `opendir` on, with `.` and `..`; nobody else changes it during a call.
pub mod Types
pub mod Listing
pub mod BasePath
pub mod Removal
use hotwired.Config
use hotwired.Config.{Config}
use hotwired.Prelude.Bytes.{be32}
use hotwired.Prelude.Int.{ℤ, pos, negsuc, sub_ℕ}
use hotwired.Prelude.Texts.{codes, contains}
use hotwired.Prelude.{
  ℕ, zero, suc, ◌+◌, ◌-◌, ◌^◌, Bool, true, false, ◌&&◌, ◌||◌, Option, none, some, List, [], ◌∷◌,
  ◌++◌, length, take, map, leb, ltb, ◌==◌, if◌then◌else◌,
}
use Types.{ExtTable, types_made}
use hotwired.Transaction.{TransactionIn, TransactionOut, reply_create, add_string, add_object}

-- `struct stat`: `S_ISDIR`, `S_ISREG` and what else is read.
pub record Stat : Type 0 where
  pub is_dir : Bool
  pub is_reg : Bool
  pub size : ℕ
  pub ctime : ℕ
  pub mtime : ℕ

-- The system calls, over an unknown state. `none` and `false` are failures.
pub record FileSystem : Type 1 where
  pub Disk : Type 0
  pub stat : Disk → List ℕ → Option Stat
  pub readdir : Disk → List ℕ → Option (List (List ℕ))
  pub getcwd : Disk → List ℕ
  pub mkdir : Disk → List ℕ → ℕ → Disk × Bool
  pub rmdir : Disk → List ℕ → Disk × Bool
  pub unlink : Disk → List ℕ → Disk × Bool
  pub rename : Disk → List ℕ → List ℕ → Disk × Bool

-- As on Linux.
abbrev pub maxpathlen : ℕ
maxpathlen = 4096

-- The static variables, the disk, and the settings; `none` is a pointer that is NULL.
pub record Files (F : FileSystem) : Type 0 where
  pub disk : F.Disk
  pub base_path : List ℕ
  pub ext_table : Option ExtTable
  pub conf : Config

unfoldable pub ends_in : ℕ → List ℕ → Bool
ends_in c [] = false
ends_in c (d ∷ []) = d == c
ends_in c (d ∷ e ∷ s) = ends_in c (e ∷ s)

abbrev pub without_last : List ℕ → List ℕ
without_last s = take (length s - 1) s

abbrev pub starts_in : ℕ → List ℕ → Bool
starts_in c [] = false
starts_in c (d ∷ s) = d == c

-- Where the end is `//`, one of them goes.
abbrev pub single_slash : List ℕ → List ℕ
single_slash p = if ends_in b'/' (without_last p) then without_last p else p

abbrev pub with_slash : List ℕ → List ℕ
with_slash s = if ends_in b'/' s then s else s ++ b'/' ∷ []

abbrev pub file_path_only : List ℕ → List ℕ
file_path_only [] = []
file_path_only (c ∷ s) = with_slash (c ∷ s)

-- The path that `paths::file_path` and `paths::base_path` make.
unfoldable pub configured_path : Option (List ℕ) → Option (List ℕ) → Option (List ℕ)
configured_path none server_bp = none
configured_path (some server_fp) none = some (file_path_only server_fp)
configured_path (some server_fp) (some []) = some (file_path_only server_fp)
configured_path (some server_fp) (some (c ∷ s)) = some (
    single_slash (
      if ends_in b'/' (c ∷ s) || starts_in b'/' server_fp
      then (c ∷ s) ++ server_fp ++ b'/' ∷ []
      else (c ∷ s) ++ b'/' ∷ (server_fp ++ b'/' ∷ [])))

-- The current working directory, with a slash where there is room for it.
unfoldable pub working_path : List ℕ → List ℕ
working_path [] = []
working_path (c ∷ s) =
    let path = c ∷ s in
    if ends_in b'/' path
    then path
    else if ltb (length path + 1) maxpathlen
    then path ++ b'/' ∷ []
    else path

-- `paths::base_path` is asked for where there is a `paths::file_path`.
abbrev base_setting : Config → Option (List ℕ) → Config × Option (List ℕ)
base_setting conf none = (conf, none)
base_setting conf (some server_fp) = Config.value conf (codes "paths") (codes "base_path")

module _ (F : FileSystem) where
  abbrev pub or_working : F.Disk → Option (List ℕ) → List ℕ
  or_working disk none = working_path (F.getcwd disk)
  or_working disk (some path) = elim (F.stat disk path) [
    | none ↦ working_path (F.getcwd disk)
    | some st ↦ path
  ]

  -- `f_init`, without what it logs.
  unfoldable pub init : Files F → Files F
  init s =
      let file = Config.value s.conf (codes "paths") (codes "file_path") in
      let base = base_setting file.0 file.1 in
      record s {
        conf = base.0;
        base_path = or_working s.disk (configured_path file.1 base.1);
        ext_table = types_made s.ext_table;
      }

  -- `f_addpath`
  unfoldable pub addpath : Files F → Option (List ℕ) → List ℕ
  addpath s none = s.base_path
  addpath s (some str) = s.base_path ++ str

  -- `stat(path, &st) < 0 || !S_ISDIR(st.st_mode)`, negated.
  unfoldable pub is_folder : F.Disk → List ℕ → Bool
  is_folder disk path = elim (F.stat disk path) [ none ↦ false | some st ↦ st.is_dir ]

  -- `file_path`; `none` is NULL. The byte in front of an empty path, which is no path of a folder,
  -- is not read here.
  unfoldable pub file_path : Files F → Option (List ℕ) → List ℕ → Option (List ℕ)
  file_path s none file = some (addpath s (some file))
  file_path s (some path) file =
      let t = addpath s (some path) in
      if is_folder s.disk t then some (with_slash t ++ file) else none

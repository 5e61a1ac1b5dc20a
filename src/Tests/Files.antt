-- ===== src/Tests/Files.antt =====
-- Config.c, fileops.c and the handlers of requests on files.
use hotwired.Collection.Keys.{collection_key}
use hotwired.Collection.View.{view}
use hotwired.Config.File.{file_of, first_values, init-file_of}
use hotwired.Config.Lines.{Line, header, setting, printed, others, is_special, is_separator}
use hotwired.Config.{Config, init, vlist_value, value_of}
use hotwired.FileHandlers.Confinement.{IsKept, Leaves}
use hotwired.Execution.Confinement.{th_exec-Leaves}
use hotwired.Execution.Dispatch.{th_exec-th_init}
use hotwired.Execution.{Environment, execute, th_exec}
use hotwired.Handlers.Dispatch.{th_init, listed, transaction_list}
use hotwired.Transaction.Objects.{id}
use hotwired.FileHandlers.{Site}
use hotwired.FileOps.Removal.Depth.{remove_directory_ends}
use hotwired.FileOps.Removal.{remove_directory, depth, out_of_fuel, IsNamed}
use hotwired.FileOps
use hotwired.FileOps.BasePath.{ends_in-init}
use hotwired.FileOps.{FileSystem, Stat, Files, ends_in}
use hotwired.HashTable
use hotwired.Handlers.Privileges.{grants}
use hotwired.Prelude.Texts.{codes}
use hotwired.Prelude.{
  Bool, ◌&&◌, if◌then◌else◌, ℕ, ◌<◌, ◌≡◌, ◌≢◌, refl, true, false, Option, none, some, List, [], ◌∷◌,
  ◌++◌, length, All, arith,
}
use hotwired.Tests.Requests.{encrypt, settings, admin, connected, connected-IsWellFormed, server}
use hotwired.Tests.Transfers.{idle}
use hotwired.Transaction.{TransactionIn}
use mathlib.Core.Path.{subst}

program : Unit {0}
unfolding is_special is_separator printed others
program = tt

abbrev none_is : (ℕ → Bool) → List ℕ → Bool
none_is p [] = true
none_is p (c ∷ s) = (if p c then false else true) && none_is p s

-- Whether no character passes a test, by evaluation.
lacking : (p : ℕ → Bool) (s : List ℕ) → none_is p s ≡ true → All (λ c. p c ≡ false) s
lacking p [] h = tt
lacking p (c ∷ s) h = (ground (arith, h), lacking p s (ground (arith, h)))

-- The guest's account, in the section of users.
abbrev users : List ℕ
users = codes "users"

abbrev guest_line : Line
guest_line = setting (codes "guest_account") (codes "guest") []

init-file_of_example :
    (t : Config) × (init none (some (file_of (header users ∷ guest_line ∷ [])))
      ≡ some (some t, true))
    × ((s v : List ℕ) (i : ℕ)
        → (vlist_value t s v i).1 ≡ value_of (first_values users (guest_line ∷ []) s v) i)
unfolding program
init-file_of_example =
    init-file_of none users (guest_line ∷ []) (lacking is_separator users refl, omega arith)
      (
        (
          (
            lacking is_separator (codes "guest_account") refl,
            lacking is_special (codes "guest") refl,
            tt,
          ),
          omega arith,
        ),
        tt,
      )

abbrev folder : Stat
folder = record { is_dir = true; is_reg = false; size = 0; ctime = 0; mtime = 0 }

-- Every path is a directory that cannot be removed and has a link to itself in it.
abbrev endless : FileSystem
endless = record {
  Disk = ℕ;
  stat = λ disk path. some folder;
  readdir = λ disk path. some (codes "." ∷ codes ".." ∷ codes "self" ∷ []);
  getcwd = λ disk. codes "/";
  mkdir = λ disk path mode. (disk, false);
  rmdir = λ disk path. (disk, false);
  unlink = λ disk path. (disk, false);
  rename = λ disk source dest. (disk, false);
}

endless-IsNamed : IsNamed endless
endless-IsNamed disk path names e =
    subst (λ o. named o) e (omega arith, (omega arith, (omega arith, tt)))
  where
    named : Option (List (List ℕ)) → Type 0
    named none = Unit
    named (some l) = All (λ name. 0 < length name) l

remove_directory_ends_example : remove_directory endless depth (codes "/d") 0 ≢ out_of_fuel
remove_directory_ends_example = remove_directory_ends endless endless-IsNamed (codes "/d") 0

-- The disk is the list of the paths that were changed, the last one first.
abbrev pub logged : FileSystem
logged = record {
  Disk = List (List ℕ);
  stat = λ disk path. none;
  readdir = λ disk path. none;
  getcwd = λ disk. codes "/";
  mkdir = λ disk path mode. (path ∷ disk, true);
  rmdir = λ disk path. (path ∷ disk, true);
  unlink = λ disk path. (path ∷ disk, true);
  rename = λ disk source dest. (source ∷ dest ∷ disk, true);
}

abbrev shared : List ℕ
shared = codes "/srv/"

abbrev IsShared : List ℕ → Type 0
IsShared path = (q : List ℕ) × (path ≡ shared ++ q)

logged-IsKept : IsKept logged (All IsShared) shared (grants (view (connected admin) 7))
logged-IsKept = record {
  mkdir_kept = λ g disk q mode p. ((q, refl), p);
  rmdir_kept = λ g disk q p. ((q, refl), p);
  unlink_kept = λ g disk q p. ((q, refl), p);
  rename_kept = λ g disk q r p. ((q, refl), ((r, refl), p));
}

abbrev pub site : Site logged
site = record {
  server = server admin;
  files = record { disk = []; base_path = shared; ext_table = none; conf = HashTable.create };
  transfers = idle;
}

-- A folder is asked for.
abbrev wish : TransactionIn
wish = record {
  t_class = 0;
  t_id = 205;
  t_taskno = 1;
  t_error = 0;
  object = (record { obj_id = 201; obj_len = 3; obj_data = codes "new" }) ∷ [];
}

abbrev pub environment : Environment
environment = record {
  settings = settings;
  encrypt = encrypt;
  steps = 100;
  now = 0;
  localtime = λ seconds. record { tm_sec = 0; tm_min = 0; tm_hour = 0; tm_yday = 0; tm_year = 70 };
  behind_icon = [];
  behind_permissions = [];
  freed_name = [];
  unset_name = [];
  unset_position = 0;
}

th_exec-Leaves_example :
    Leaves {F = logged} (All IsShared) (th_exec environment th_init site 7 wish).1
th_exec-Leaves_example =
    th_exec-Leaves (All IsShared) environment th_init site 7 wish (connected-IsWellFormed admin)
      logged-IsKept tt

th_exec-th_init_example :
    (th_exec environment th_init site 7 wish).1
    ≡ execute environment (listed (id wish) transaction_list) site 7 wish
th_exec-th_init_example = th_exec-th_init environment site 7 wish

-- A system in which there is one directory, which the server runs in.
abbrev rooted : FileSystem
rooted = record {
  Disk = ℕ;
  stat = λ disk path. none;
  readdir = λ disk path. none;
  getcwd = λ disk. codes "/home";
  mkdir = λ disk path mode. (disk, false);
  rmdir = λ disk path. (disk, false);
  unlink = λ disk path. (disk, false);
  rename = λ disk source dest. (disk, false);
}

abbrev starting : Files rooted
starting = record { disk = 0; base_path = []; ext_table = none; conf = HashTable.create }

ends_in-init_example : ends_in b'/' (hotwired.FileOps.init rooted starting).base_path ≡ true
ends_in-init_example = ends_in-init rooted starting refl (λ e. cc) (omega arith)

-- ===== src/ConnectionManager.antt =====
-- ConnectionManager.c: the table of connections by file descriptor. The functions here are the
-- bodies between the locks of RCL.c, one after the other. Numbers lie in memory with the low byte
-- first; `time_t` and pointers have 8 bytes.
pub mod Work
pub mod Members
pub mod Userlist
pub mod Broadcast
pub mod Privileges
use hotwired.Collection
use hotwired.Collection.Keys.{collection_key}
use hotwired.Collection.Through.{write_through}
use hotwired.Collection.{Collection}
use hotwired.Permissions.{Permissions}
use hotwired.Permissions
use hotwired.Prelude.Texts.{text_at}
use hotwired.Prelude.{
  ℕ, zero, suc, ◌+◌, ◌-◌, ◌*◌, ◌/◌, ◌%◌, ◌^◌, Bool, true, false, Option, none, some, List, [], ◌∷◌,
  take, drop, if◌then◌else◌, ◌==◌,
}

pub record Connection : Type 0 where
  pub ip : ℕ
  pub cstate : ℕ
  pub taskno : ℕ
  pub icon : ℕ
  pub status : ℕ
  pub last_activity : ℕ
  pub login : Option (List ℕ)
  pub nickname : List ℕ
  pub perms : Option Permissions

-- `cstate_t`: not logged in; logged in, not registered; logged in and registered.
abbrev pub cstate_nl : ℕ
cstate_nl = 0

abbrev pub cstate_nr : ℕ
cstate_nr = 1

abbrev pub cstate_li : ℕ
cstate_li = 2

pub data ConnMember : Type 0 where
  conn_ip : ConnMember
  conn_cstate : ConnMember
  conn_taskno : ConnMember
  conn_icon : ConnMember
  conn_status : ConnMember
  conn_activity : ConnMember
  conn_login : ConnMember
  conn_nickname : ConnMember

-- A number of so many bytes as it lies in memory, and the number that bytes in memory stand for.
unfoldable pub bytes_of : ℕ → ℕ → List ℕ
bytes_of zero v = []
bytes_of (suc n) v = (v % 256) ∷ bytes_of n (v / 256)

unfoldable pub number : List ℕ → ℕ
number [] = 0
number (b ∷ bs) = b + 256 * number bs

-- What `cm_getval` leaves at its pointer: bytes, or a copied text, which is a fault where the
-- connection has none.
pub data Value : Type 0 where
  memory : List ℕ → Value
  text : Option (List ℕ) → Value

unfoldable pub read_member : Connection → ConnMember → Value
read_member c conn_ip = memory (bytes_of 4 c.ip)
read_member c conn_cstate = memory (bytes_of 4 c.cstate)
read_member c conn_taskno = memory (bytes_of 4 c.taskno)
read_member c conn_icon = memory (bytes_of 2 c.icon)
read_member c conn_status = memory (bytes_of 2 c.status)
read_member c conn_activity = memory (bytes_of 8 c.last_activity)
read_member c conn_login = text c.login
read_member c conn_nickname = text (some c.nickname)

-- `ptr` is the memory from the pointer on. The 4 bytes that are copied to the icon fill the 16 bits
-- of the status behind it too.
unfoldable pub write_member : Connection → ConnMember → List ℕ → Connection
write_member c conn_ip ptr = record c { ip = number (take 4 ptr) }
write_member c conn_cstate ptr = record c { cstate = number (take 4 ptr) }
write_member c conn_taskno ptr = record c { taskno = number (take 4 ptr) }
write_member c conn_icon ptr = record c {
  icon = number (take 2 ptr);
  status = number (take 2 (drop 2 ptr));
}
write_member c conn_status ptr = record c { status = number (take 2 ptr) }
write_member c conn_activity ptr = record c { last_activity = number (take 8 ptr) }
write_member c conn_login ptr = record c { login = some (text_at ptr) }
write_member c conn_nickname ptr = record c { nickname = text_at ptr }

abbrev pub Connections : Type 0
Connections = Collection ℕ Connection

unfoldable pub init : Connections
init = Collection.create

-- `now` is what `time` returns.
unfoldable pub fresh : ℕ → ℕ → Connection
fresh now ip = record {
  ip = ip;
  cstate = cstate_nl;
  taskno = 0;
  icon = 0;
  status = 0;
  last_activity = now;
  login = none;
  nickname = [];
  perms = none;
}

-- The answer of `collection_insert` is not looked at.
unfoldable pub add : ℕ → Connections → ℕ → ℕ → Connections
add now ctbl fd ip = (Collection.insert ctbl fd (fresh now ip)).0

-- The answer tells whether the descriptor is closed.
unfoldable pub remove : Connections → ℕ → Connections × Bool
remove ctbl uid =
    let r = Collection.remove ctbl uid in elim r.1 [ none ↦ (r.0, false) | some c ↦ (r.0, true) ]

unfoldable pub user_count : Connections → ℕ
user_count ctbl = Collection.size ctbl

-- The frame of the accessors: the lookup, an early answer for NULL, and the work under the
-- connection's lock.
unfoldable pub on_connection {ℓ} :
    {A : Type ℓ} → Connections → ℕ → A → (Connection → Connection × A) → Connections × A
on_connection ctbl uid missing work =
    let r = Collection.lookup ctbl uid in
    elim r.1 [
      | none ↦ (r.0, missing)
      | some c ↦ (write_through r.0 uid (λ o. (work o).0), (work c).1)
    ]

-- `none` is -1.
unfoldable pub getval : Connections → ℕ → ConnMember → Connections × Option Value
getval ctbl uid mid = on_connection ctbl uid none (λ c. (c, some (read_member c mid)))

-- `false` is -1.
unfoldable pub setval : Connections → ℕ → ConnMember → List ℕ → Connections × Bool
setval ctbl uid mid ptr = on_connection ctbl uid false (λ c. (write_member c mid ptr, true))

abbrev pub cstate_of : Option Value → ℕ
cstate_of (some (memory bytes)) = number bytes
cstate_of (some (text t)) = cstate_nl
cstate_of none = cstate_nl

unfoldable pub get_cstate : Connections → ℕ → Connections × ℕ
get_cstate ctbl uid = let r = getval ctbl uid conn_cstate in (r.0, cstate_of r.1)

unfoldable pub set_cstate : Connections → ℕ → ℕ → Connections × Bool
set_cstate ctbl uid s = setval ctbl uid conn_cstate (bytes_of 4 s)

-- The 32 bits of the `int32_t` that is returned; -1 is 2 ^ 32 - 1.
unfoldable pub get_taskno : Connections → ℕ → Connections × ℕ
get_taskno ctbl uid =
    on_connection ctbl uid (2 ^ 32 - 1)
      (λ c. (record c { taskno = (c.taskno + 1) % 2 ^ 32 }, c.taskno))

abbrev pub copied : Option Permissions → Option Permissions
copied none = none
copied (some p) = some (Permissions.copy p)

unfoldable pub perm_getall : Connections → ℕ → Connections × Option Permissions
perm_getall ctbl uid = on_connection ctbl uid none (λ c. (c, copied c.perms))

unfoldable pub perm_setall : Connections → ℕ → Permissions → Connections × Bool
perm_setall ctbl uid p =
    on_connection ctbl uid false (λ c. (record c { perms = some (Permissions.copy p) }, true))

abbrev pub checked : Option Permissions → ℕ → Option ℕ
checked none field = none
checked (some p) field = some (Permissions.check_field p field)

-- `none` is -1.
unfoldable pub perm_check : Connections → ℕ → ℕ → Connections × Option ℕ
perm_check ctbl uid field = on_connection ctbl uid none (λ c. (c, checked c.perms field))

abbrev pub changed : Option Permissions → ℕ → Bool → Option Permissions × Bool
changed none field value = (none, false)
changed (some p) field true = (some (Permissions.set_field p field), true)
changed (some p) field false = (some (Permissions.unset_field p field), true)

-- `false` is -1.
unfoldable pub perm_set : Connections → ℕ → ℕ → Bool → Connections × Bool
perm_set ctbl uid field value =
    on_connection ctbl uid false
      (λ c. let r = changed c.perms field value in (record c { perms = r.0 }, r.1))

unfoldable pub iterate {κ} : {S : Type κ} → Connections → (ℕ → S → S × Bool) → S → S
iterate ctbl iterator s = Collection.iterate ctbl (λ uid c. iterator uid) s

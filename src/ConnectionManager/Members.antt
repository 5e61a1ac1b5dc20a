-- ===== src/ConnectionManager/Members.antt =====
-- Reading and writing the members of a connection, its task numbers and its privileges.
use hotwired.Collection.Keys.{collection_key}
use hotwired.Collection.Rebuild.{Keeps}
use hotwired.Collection.View.{IsWellFormed, view}
use hotwired.Collection.{size}
use hotwired.ConnectionManager.Work.{on_present, on_missing, Changed-self}
use hotwired.ConnectionManager.{
  Connection, Connections, ConnMember, conn_ip, conn_cstate, conn_taskno, conn_icon, conn_status,
  conn_activity, conn_login, conn_nickname, Value, memory, text, bytes_of, number, read_member,
  write_member, getval, setval, get_taskno,
}
use mathlib.Core.Path.{ap₂}
use hotwired.Prelude.Texts.{text_at}
use hotwired.Prelude.{
  ℕ, zero, suc, ◌+◌, ◌-◌, ◌*◌, ◌/◌, ◌%◌, ◌^◌, ◌≤◌, ◌<◌, ◌≡◌, refl, sym, ◌∙◌, ap, true, false, none,
  some, List, [], ◌∷◌, length, take, drop, All, arith, ◌==◌,
}

bytes_of-number :
    (n : ℕ) (bs : List ℕ)
    → n ≤ length bs
    → All (λ b. b < 256) bs
    → bytes_of n (number (take n bs)) ≡ take n bs
unfolding bytes_of number
bytes_of-number zero bs h s = refl
bytes_of-number (suc n) [] h s = absurd (omega arith)
bytes_of-number (suc n) (b ∷ bs) h s =
    let v = number (take n bs) in
    let low : (b + 256 * v) % 256 ≡ b = omega (arith, s.0) in
    let high : (b + 256 * v) / 256 ≡ v = omega (arith, s.0) in
    rw (low, high, bytes_of-number n bs (omega arith) s.1) refl

-- What a member reads as behind a write of the memory `ptr` to it.
abbrev pub written : ConnMember → List ℕ → Value
written conn_ip ptr = memory (take 4 ptr)
written conn_cstate ptr = memory (take 4 ptr)
written conn_taskno ptr = memory (take 4 ptr)
written conn_icon ptr = memory (take 2 ptr)
written conn_status ptr = memory (take 2 ptr)
written conn_activity ptr = memory (take 8 ptr)
written conn_login ptr = text (some (text_at ptr))
written conn_nickname ptr = text (some (text_at ptr))

read-write_member :
    (c : Connection) (mid : ConnMember) (ptr : List ℕ)
    → 8 ≤ length ptr
    → All (λ b. b < 256) ptr
    → read_member (write_member c mid ptr) mid ≡ written mid ptr
unfolding read_member write_member
read-write_member c conn_ip ptr h s = ap memory (bytes_of-number 4 ptr (omega arith) s)
read-write_member c conn_cstate ptr h s = ap memory (bytes_of-number 4 ptr (omega arith) s)
read-write_member c conn_taskno ptr h s = ap memory (bytes_of-number 4 ptr (omega arith) s)
read-write_member c conn_icon ptr h s = ap memory (bytes_of-number 2 ptr (omega arith) s)
read-write_member c conn_status ptr h s = ap memory (bytes_of-number 2 ptr (omega arith) s)
read-write_member c conn_activity ptr h s = ap memory (bytes_of-number 8 ptr (omega arith) s)
read-write_member c conn_login ptr h s = refl
read-write_member c conn_nickname ptr h s = refl

-- After cm_setval of a connection, whose pointer has 8 bytes behind it, cm_getval answers what was
-- written, every other descriptor has the connection that it had, and the count is the same; of an
-- unknown descriptor cm_setval answers -1 and changes no entry.
pub getval-setval :
    (ctbl : Connections) (uid : ℕ) (mid : ConnMember) (ptr : List ℕ)
    → IsWellFormed ctbl
    → 8 ≤ length ptr
    → All (λ b. b < 256) ptr
    → ((c : Connection)
        → view ctbl uid ≡ some c
        → let new = (setval ctbl uid mid ptr).0 in
          ((setval ctbl uid mid ptr).1 ≡ true)
          × IsWellFormed new
          × ((getval new uid mid).1 ≡ some (written mid ptr))
          × ((q : ℕ) → (q == uid) ≡ false → view new q ≡ view ctbl q)
          × (size new ≡ size ctbl))
      × (view ctbl uid ≡ none
          → ((setval ctbl uid mid ptr).1 ≡ false) × Keeps ctbl (setval ctbl uid mid ptr).0)
unfolding setval getval
getval-setval ctbl uid mid ptr w h s = (
  λ c e.
      let (answer, ch) = on_present ctbl uid false (λ o. (write_member o mid ptr, true)) c w e in
      let (got, kept) =
        on_present _ uid none (λ o. (o, some (read_member o mid))) _ ch.valid
          (Changed-self ctbl uid (write_member c mid ptr) _ ch) in
      (
        answer,
        ch.valid,
        got ∙ ap some (read-write_member c mid ptr h s),
        λ q d. ch.views q ∙ rw d refl,
        ch.same_count,
      ),
  on_missing ctbl uid false (λ o. (write_member o mid ptr, true)) w,
)

-- cm_setval of CONN_ICON copies 4 bytes, so that the status of the connection becomes the two bytes
-- behind the icon that the caller points to.
pub setval-icon_status :
    (ctbl : Connections) (uid : ℕ) (ptr : List ℕ) (c : Connection)
    → IsWellFormed ctbl
    → view ctbl uid ≡ some c
    → view (setval ctbl uid conn_icon ptr).0 uid
      ≡ some (record c { icon = number (take 2 ptr); status = number (take 2 (drop 2 ptr)) })
unfolding setval write_member
setval-icon_status ctbl uid ptr c w e =
    Changed-self ctbl uid _ _
      (on_present ctbl uid false (λ o. (write_member o conn_icon ptr, true)) c w e).1

-- The answers of so many calls of `cm_get_taskno`.
unfoldable pub task_numbers : ℕ → Connections → ℕ → List ℕ
task_numbers zero ctbl uid = []
task_numbers (suc n) ctbl uid = let r = get_taskno ctbl uid in r.1 ∷ task_numbers n r.0 uid

unfoldable pub counting : ℕ → ℕ → List ℕ
counting zero from = []
counting (suc n) from = (from % 2 ^ 32) ∷ counting n (from + 1)

counting_wrap : (n a b : ℕ) → a % 2 ^ 32 ≡ b % 2 ^ 32 → counting n a ≡ counting n b
unfolding counting
counting_wrap zero a b h = refl
counting_wrap (suc n) a b h = rw (h, counting_wrap n (a + 1) (b + 1) (omega arith)) refl

-- Successive calls of cm_get_taskno for a connection count up from its task number, modulo 2 ^ 32.
pub get_taskno-counting :
    (n : ℕ) (ctbl : Connections) (uid : ℕ) (c : Connection)
    → IsWellFormed ctbl
    → view ctbl uid ≡ some c
    → c.taskno < 2 ^ 32
    → task_numbers n ctbl uid ≡ counting n c.taskno
unfolding task_numbers counting get_taskno
get_taskno-counting zero ctbl uid c w e h = refl
get_taskno-counting (suc n) ctbl uid c w e h =
    let work : Connection → Connection × ℕ =
      λ o. (record o { taskno = (o.taskno + 1) % 2 ^ 32 }, o.taskno) in
    let (answer, ch) = on_present ctbl uid (2 ^ 32 - 1) work c w e in
    let behind =
      get_taskno-counting n (get_taskno ctbl uid).0 uid (work c).0 ch.valid
        (Changed-self ctbl uid (work c).0 _ ch) (omega arith) in
    let low : c.taskno % 2 ^ 32 ≡ c.taskno = omega (arith, h) in
    ap₂ ◌∷◌ (answer ∙ sym low)
      (behind ∙ counting_wrap n ((c.taskno + 1) % 2 ^ 32) (c.taskno + 1) (omega arith))

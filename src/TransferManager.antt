-- ===== src/TransferManager.antt =====
-- TransferManager.c: the transfers, in a collection by number, in the queue of downloads and in the
-- list of those whose data connection is awaited. All hold pointers to the same structures, which lie
-- in a store by address. The functions are the bodies between the locks.
pub mod Waiting
pub mod Queue
pub mod Calls
pub mod Removal
use hotwired.Collection
use hotwired.Collection.Keys.{collection_key}
use hotwired.Collection.{Collection}
use hotwired.ConnectionManager.{Connections, conn_ip, getval}
use hotwired.Handlers.{number_or_zero}
use hotwired.Idm
use hotwired.Idm.{Idm}
use hotwired.Prelude.{
  ℕ, zero, suc, ◌+◌, ◌-◌, ◌%◌, ◌^◌, Bool, true, false, ◌&&◌, ◌||◌, Option, none, some, List, [],
  ◌∷◌, ◌++◌, ltb, leb, ◌==◌, if◌then◌else◌,
}

pub data TransferType : Type 0 where
  t_upload : TransferType
  t_download : TransferType

-- `expires` is the second of `ts`; a thread is a number, and `none` is NULL. The descriptor -1 is none.
pub record Transfer : Type 0 where
  pub tid : ℕ
  pub uid : ℕ
  pub type : TransferType
  pub filename : List ℕ
  pub mode : ℕ
  pub offset : ℕ
  pub position : ℕ
  pub fd : Option ℕ
  pub thread : Option ℕ
  pub expires : ℕ

-- What is sent: a queue position to a client, a transfer to its thread (none is NULL, where the code
-- fails), the start of the monitor thread, a signal to it, and a descriptor that is closed.
pub data Notice : Type 0 where
  queue_position : ℕ → ℕ → ℕ → Notice
  activated : TransferType → Option ℕ → List ℕ → ℕ → ℕ → Notice
  monitor_started : Notice
  monitor_signalled : Notice
  closed : Option ℕ → Notice

-- The limits are none for -1. The counts are natural numbers: one is lowered for a transfer that it
-- counts. Above `fresh` nothing is allocated.
pub record TransferManager : Type 0 where
  pub idm : Idm
  pub ttbl : Collection ℕ ℕ
  pub heap : ℕ → Transfer
  pub fresh : ℕ
  pub queue : List ℕ
  pub sequester : List ℕ
  pub queue_size : ℕ
  pub active_downloads : ℕ
  pub active_uploads : ℕ
  pub queue_enable : Bool
  pub max_downloads : Option ℕ
  pub max_uploads : Option ℕ
  pub notices : List Notice

abbrev pub store {ℓ} : {A : Type ℓ} → (ℕ → A) → ℕ → A → ℕ → A
store f p a q = if q == p then a else f q

unfoldable pub notice : TransferManager → Notice → TransferManager
notice s n = record s { notices = s.notices ++ n ∷ [] }

abbrev pub write_transfer : TransferManager → ℕ → Transfer → TransferManager
write_transfer s p t = record s { heap = store s.heap p t }

-- `activate_download` and `activate_upload`
unfoldable pub activate : TransferManager → Transfer → TransferManager
activate s t = notice s (activated t.type t.thread t.filename t.mode t.offset)

unfoldable pub destroy : TransferManager → Transfer → TransferManager
destroy s t = notice (record s { idm = Idm.give_back s.idm t.tid }) (closed t.fd)

-- The transfer at an address goes one place forward, and its client is told.
unfoldable pub advance_one : TransferManager → ℕ → TransferManager
advance_one s p =
    let t = s.heap p in
    notice (write_transfer s p (record t { position = t.position - 1 }))
      (queue_position t.uid t.tid (t.position - 1))

-- The loop of `monitor_add_from_queue`.
unfoldable pub advance : TransferManager → List ℕ → TransferManager
advance s [] = s
advance s (p ∷ l) = advance (advance_one s p) l

abbrev started_for : List Notice → List ℕ → List Notice
started_for notices [] = notices ++ monitor_started ∷ []
started_for notices (p ∷ l) = notices

abbrev data_connect_timeout : ℕ
data_connect_timeout = 30

-- The transfer goes to the end of the sequester list; `now` is the second of `gettimeofday`.
unfoldable pub monitor_add : ℕ → TransferManager → ℕ → TransferManager
monitor_add now s p = record s {
  sequester = s.sequester ++ p ∷ [];
  notices = started_for s.notices s.sequester;
  heap = store s.heap p (record (s.heap p) { expires = now + data_connect_timeout });
}

abbrev pub dequeued : ℕ → TransferManager → ℕ → Option ℕ → TransferManager
dequeued now s p none = monitor_add now s p
dequeued now s p (some thread) = activate s (s.heap p)

abbrev pub from_queue : ℕ → TransferManager → List ℕ → TransferManager × Bool
from_queue now s [] = (s, false)
from_queue now s (p ∷ l) =
    let moved = advance s (p ∷ l) in
    let left = record moved { queue = l; queue_size = s.queue_size - 1 } in
    (dequeued now left p (left.heap p).thread, true)

-- `true` is 0, and `false` is -1.
unfoldable pub monitor_add_from_queue : ℕ → TransferManager → TransferManager × Bool
monitor_add_from_queue now s = from_queue now s s.queue

-- The end of an active transfer: the next download takes its slot.
abbrev pub slot_taken : TransferManager × Bool → TransferManager
slot_taken (s, true) = s
slot_taken (s, false) = record s { active_downloads = s.active_downloads - 1 }

unfoldable pub release_slot : ℕ → TransferManager → TransferType → TransferManager
release_slot now s t_download = slot_taken (monitor_add_from_queue now s)
release_slot now s t_upload = record s { active_uploads = s.active_uploads - 1 }

abbrev pub behind_first : List ℕ → List ℕ
behind_first [] = []
behind_first (p ∷ l) = l

abbrev pub timed_out : ℕ → TransferManager → List ℕ → TransferManager
timed_out now s [] = s
timed_out now s (p ∷ l) =
    let t = s.heap p in
    let gone = record s { ttbl = (Collection.remove s.ttbl t.tid).0 } in
    let done = destroy (release_slot now gone t.type) t in
    record done { sequester = behind_first done.sequester }

abbrev pub woken : TransferManager → List ℕ → TransferManager
woken s [] = s
woken s (p ∷ l) = record (activate s (s.heap p)) { sequester = l }

-- A turn of the loop of `monitor_thread`, by whether the wait ran out of time.
unfoldable pub monitor_turn : ℕ → TransferManager → Bool → TransferManager
monitor_turn now s true = timed_out now s s.sequester
monitor_turn now s false = woken s s.sequester

abbrev pub below_limit : ℕ → Option ℕ → Bool
below_limit n none = false
below_limit n (some m) = ltb n m

abbrev pub filled : TransferManager × Bool → TransferManager
filled (s, true) = record s { active_downloads = s.active_downloads + 1 }
filled (s, false) = s

-- `while(active_downloads < max_downloads && !monitor_add_from_queue()) active_downloads++`, of which
-- each turn takes one from the queue `left`.
unfoldable pub fill_slots : ℕ → TransferManager → List ℕ → TransferManager
fill_slots now s [] = s
fill_slots now s (p ∷ left) =
    let rest = fill_slots now (filled (monitor_add_from_queue now s)) left in
    if below_limit s.active_downloads s.max_downloads then rest else s

-- What the configuration says: whether queues are used, and the limits.
unfoldable pub init : ℕ → TransferManager → Bool → Option ℕ → Option ℕ → TransferManager
init now s enable downloads uploads =
    let limited = record s {
      queue_enable = enable;
      max_downloads = or_old downloads s.max_downloads;
      max_uploads = or_old uploads s.max_uploads;
    } in
    fill_slots now limited s.queue
  where
    or_old : Option ℕ → Option ℕ → Option ℕ
    or_old none old = old
    or_old (some n) old = some n

abbrev pub full : ℕ → Option ℕ → Bool
full n none = false
full n (some m) = leb m n

abbrev pub new_transfer : ℕ → ℕ → TransferType → List ℕ → ℕ → ℕ → ℕ → Transfer
new_transfer tid uid type filename mode offset position = record {
  tid = tid;
  uid = uid;
  type = type;
  filename = filename;
  mode = mode;
  offset = offset;
  position = position;
  fd = none;
  thread = none;
  expires = 0;
}

abbrev pub allocated : TransferManager → Idm → Transfer → TransferManager
allocated s idm t = record s {
  idm = idm;
  ttbl = (Collection.insert s.ttbl t.tid s.fresh).0;
  heap = store s.heap s.fresh t;
  fresh = s.fresh + 1;
}

abbrev pub add_numbered :
    ℕ → TransferManager → Bool → ℕ → List ℕ → ℕ → ℕ → Option (ℕ × Idm) → TransferManager × Option ℕ
add_numbered now s enqueue uid filename mode offset none = (s, none)
add_numbered now s enqueue uid filename mode offset (some (tid, idm)) =
    let t = new_transfer tid uid t_download filename mode offset in
    let active = monitor_add now (allocated s idm (t 0)) s.fresh in
    let queued = allocated s idm (t (s.queue_size + 1)) in
    if enqueue
    then (
      record queued { queue = s.queue ++ s.fresh ∷ []; queue_size = s.queue_size + 1 },
      some tid,
    )
    else (record active { active_downloads = s.active_downloads + 1 }, some tid)

-- The number of the transfer; none is -1.
unfoldable pub add_download : ℕ → TransferManager → ℕ → List ℕ → ℕ → ℕ → TransferManager × Option ℕ
add_download now s uid filename mode offset =
    let enqueue = full s.active_downloads s.max_downloads in
    if enqueue && (if s.queue_enable then false else true)
    then (s, none)
    else add_numbered now s enqueue uid filename mode offset (Idm.get s.idm)

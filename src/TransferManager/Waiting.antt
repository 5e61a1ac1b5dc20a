-- ===== src/TransferManager/Waiting.antt =====
-- TransferManager.c: uploads, the arrival of a data connection, and the end of a transfer.
use hotwired.Collection
use hotwired.Collection.Keys.{collection_key}
use hotwired.Collection.{Collection}
use hotwired.ConnectionManager.{Connections, conn_ip, getval, Value, memory, text, number}
use hotwired.Idm
use hotwired.Idm.{Idm}
use hotwired.Prelude.{
  ℕ, zero, suc, ◌+◌, ◌-◌, ◌%◌, ◌^◌, Bool, true, false, ◌&&◌, Option, none, some, List, [], ◌∷◌,
  ◌++◌, leb, ◌==◌, if◌then◌else◌, map,
}
use hotwired.HashTable.{same_text}
use hotwired.TransferManager.{
  TransferType, t_upload, t_download, Transfer, TransferManager, monitor_signalled, queue_position,
  notice, write_transfer, activate, destroy, monitor_add, release_slot, full, new_transfer,
  allocated, fill_slots,
}

-- `strcasecmp` in the C locale, as a test.
abbrev pub lower : ℕ → ℕ
lower c = if leb b'A' c && leb c b'Z' then c + 32 else c

unfoldable pub same_name : List ℕ → List ℕ → Bool
same_name a b = same_text (map lower a) (map lower b)

abbrev pub conflicts : List ℕ → Transfer → TransferType → Bool
conflicts filename t t_download = false
conflicts filename t t_upload = same_name filename t.filename

-- The state is the flag `ret`; the second answer tells whether the walk goes on.
unfoldable pub upload_conflict_iterator : TransferManager → List ℕ → ℕ → ℕ → Bool → Bool × Bool
upload_conflict_iterator s filename tid p found =
    let t = s.heap p in if conflicts filename t t.type then (true, false) else (found, true)

pub data UploadAnswer : Type 0 where
  upload_number : ℕ → UploadAnswer
  no_slot : UploadAnswer
  conflict : UploadAnswer

abbrev pub upload_numbered :
    ℕ → ℕ → TransferManager → ℕ → List ℕ → ℕ → ℕ → Option (ℕ × Idm) → TransferManager × UploadAnswer
upload_numbered garbage now s uid filename mode offset none = (s, no_slot)
upload_numbered garbage now s uid filename mode offset (some (tid, idm)) =
    let t = new_transfer tid uid t_upload filename mode offset garbage in
    let active = monitor_add now (allocated s idm t) s.fresh in
    (record active { active_uploads = s.active_uploads + 1 }, upload_number tid)

-- The position of an upload is not set: it is the argument `garbage`.
unfoldable pub add_upload :
    ℕ → ℕ → TransferManager → ℕ → List ℕ → ℕ → ℕ → TransferManager × UploadAnswer
add_upload garbage now s uid filename mode offset =
    if Collection.iterate s.ttbl (upload_conflict_iterator s filename) false
    then (s, conflict)
    else if full s.active_uploads s.max_uploads
    then (s, no_slot)
    else upload_numbered garbage now s uid filename mode offset (Idm.get s.idm)

-- The frame of `tfm_position` and `tfm_owner`; none is -1.
abbrev pub on_transfer : TransferManager → (Transfer → ℕ) → Option ℕ → Option ℕ
on_transfer s field none = none
on_transfer s field (some p) = some (field (s.heap p))

unfoldable pub position : TransferManager → ℕ → TransferManager × Option ℕ
position s tid =
    let r = Collection.lookup s.ttbl tid in
    (record s { ttbl = r.0 }, on_transfer s (λ t. t.position) r.1)

unfoldable pub owner : TransferManager → ℕ → TransferManager × Option ℕ
owner s tid =
    let r = Collection.lookup s.ttbl tid in
    (record s { ttbl = r.0 }, on_transfer s (λ t. t.uid) r.1)

-- What `tfm_register` and `tfm_remove` do to the sequester list for a transfer that is not its first:
-- the search stops at the transfer, and the node behind it goes. None where the search ends at the
-- last node.
unfoldable pub unlink_behind : ℕ → List ℕ → Option (List ℕ)
unlink_behind p [] = none
unlink_behind p (a ∷ []) = none
unlink_behind p (a ∷ b ∷ l) =
    let rest = joined a (unlink_behind p (b ∷ l)) in if a == p then some (a ∷ l) else rest
  where
    joined : ℕ → Option (List ℕ) → Option (List ℕ)
    joined a none = none
    joined a (some l) = some (a ∷ l)

abbrev pub registered_behind : TransferManager → ℕ → Option (List ℕ) → TransferManager × Bool
registered_behind s p none = (s, false)
registered_behind s p (some sequester) =
    (activate (record s { sequester = sequester }) (s.heap p), true)

abbrev pub register_sequestered : TransferManager → ℕ → List ℕ → TransferManager × Bool
register_sequestered s p [] = (s, false)
register_sequestered s p (first ∷ l) =
    let later = registered_behind s p (unlink_behind p (first ∷ l)) in
    if first == p then (notice s monitor_signalled, true) else later

abbrev pub is_queued : TransferType → ℕ → Bool
is_queued t_upload position = false
is_queued t_download position = if position == 0 then false else true

abbrev pub same_address : Option Value → ℕ → Bool
same_address none ip = false
same_address (some (memory bytes)) ip = number bytes == ip
same_address (some (text t)) ip = false

abbrev pub no_thread : Option ℕ → Bool
no_thread none = true
no_thread (some thread) = false

abbrev pub register_at :
    TransferManager → Connections → ℕ → ℕ → ℕ → ℕ → Connections × TransferManager × Bool
register_at s ctbl p fd ip thread =
    let t = s.heap p in
    let real_ip = getval ctbl t.uid conn_ip in
    let held = write_transfer s p (record t { fd = some fd; thread = some thread }) in
    let r = register_sequestered held p held.sequester in
    if same_address real_ip.1 ip && no_thread t.thread
    then (if is_queued t.type t.position then (real_ip.0, held, true) else (real_ip.0, r.0, r.1))
    else (real_ip.0, s, false)

abbrev pub register_found :
    TransferManager → Connections → Option ℕ → ℕ → ℕ → ℕ → Connections × TransferManager × Bool
register_found s ctbl none fd ip thread = (ctbl, s, false)
register_found s ctbl (some p) fd ip thread = register_at s ctbl p fd ip thread

-- `false` is -1.
unfoldable pub register :
    TransferManager → Connections → ℕ → ℕ → ℕ → ℕ → Connections × TransferManager × Bool
register s ctbl tid fd ip thread =
    let r = Collection.lookup s.ttbl tid in
    register_found (record s { ttbl = r.0 }) ctbl r.1 fd ip thread

abbrev pub kept : ℕ → Option (List ℕ × ℕ) → Option (List ℕ × ℕ)
kept a none = none
kept a (some (l, cursor)) = some (a ∷ l, cursor)

-- The search behind a node of the queue: what is left behind it, and the node in front of the one that
-- leaves, where the cursor `c` stays.
unfoldable pub unlink_after : ℕ → ℕ → List ℕ → Option (List ℕ × ℕ)
unlink_after p a [] = none
unlink_after p a (b ∷ l) =
    let rest = kept b (unlink_after p b l) in if b == p then some (l, a) else rest

abbrev pub head_of : List ℕ → Option ℕ
head_of [] = none
head_of (a ∷ l) = some a

abbrev pub behind_head : ℕ → Option (List ℕ × ℕ) → Option (List ℕ × Option ℕ)
behind_head a none = none
behind_head a (some (l, cursor)) = some (a ∷ l, some cursor)

-- The node of a transfer leaves the queue: what is left, and the cursor `c`. Where it was the first, the
-- cursor is at the next one. None: the transfer is not there.
unfoldable pub unqueue : ℕ → List ℕ → Option (List ℕ × Option ℕ)
unqueue p [] = none
unqueue p (a ∷ l) =
    let rest = behind_head a (unlink_after p a l) in if a == p then some (l, head_of l) else rest

-- `position--` on an `int`, as a word, and the message to the client.
unfoldable pub demoted : TransferManager → ℕ → TransferManager
demoted s p =
    let t = s.heap p in
    let position = (t.position + 2 ^ 32 - 1) % 2 ^ 32 in
    notice (write_transfer s p (record t { position = position }))
      (queue_position t.uid t.tid position)

-- The loop over the clients behind, with a bound on the rounds; none where it has not ended by then. It
-- looks at the cursor `c` and moves `n`, which it reads from nodes that have been freed, and of which
-- nothing else depends.
unfoldable pub notify_behind : ℕ → TransferManager → Option ℕ → Option TransferManager
notify_behind zero s none = some s
notify_behind zero s (some c) = none
notify_behind (suc rounds) s none = some s
notify_behind (suc rounds) s (some c) = notify_behind rounds (demoted s c) (some c)

abbrev pub destroyed : Transfer → Option TransferManager → Option TransferManager
destroyed t none = none
destroyed t (some s) = some (destroy s t)

abbrev pub remove_queued :
    ℕ → TransferManager → Transfer → Option (List ℕ × Option ℕ) → Option TransferManager
remove_queued rounds s t none = some (destroy s t)
remove_queued rounds s t (some (queue, cursor)) =
    destroyed t
      (notify_behind rounds (record s { queue = queue; queue_size = s.queue_size - 1 }) cursor)

abbrev pub remove_behind : ℕ → TransferManager → Transfer → Option (List ℕ) → TransferManager
remove_behind now s t none = destroy s t
remove_behind now s t (some sequester) =
    destroy (release_slot now (record s { sequester = sequester }) t.type) t

-- The monitor thread disposes of the first one.
abbrev pub remove_sequestered : ℕ → TransferManager → ℕ → List ℕ → TransferManager
remove_sequestered now s p [] = destroy s (s.heap p)
remove_sequestered now s p (first ∷ l) =
    let later = remove_behind now s (s.heap p) (unlink_behind p (first ∷ l)) in
    if first == p then s else later

abbrev pub remove_waiting : ℕ → ℕ → TransferManager → ℕ → Option ℕ → Option TransferManager
remove_waiting rounds now s p (some thread) =
    let t = s.heap p in some (destroy (release_slot now s t.type) t)
remove_waiting rounds now s p none =
    let t = s.heap p in
    if is_queued t.type t.position
    then remove_queued rounds s t (unqueue p s.queue)
    else some (remove_sequestered now s p s.sequester)

abbrev pub remove_found : ℕ → ℕ → TransferManager → Option ℕ → Option TransferManager
remove_found rounds now s none = some s
remove_found rounds now s (some p) = remove_waiting rounds now s p (s.heap p).thread

-- None where the loop over the queue has not ended in these rounds.
unfoldable pub remove : ℕ → ℕ → TransferManager → ℕ → Option TransferManager
remove rounds now s tid =
    let r = Collection.remove s.ttbl tid in remove_found rounds now (record s { ttbl = r.0 }) r.1

-- `purge_uid_iterator`: the transfers of the user, in the order of the walk.
unfoldable pub purge_uid_iterator : TransferManager → ℕ → ℕ → ℕ → List ℕ → List ℕ × Bool
purge_uid_iterator s uid tid p l = if (s.heap p).uid == uid then (l ++ p ∷ [], true) else (l, true)

abbrev pub uncounted : TransferManager → Transfer → TransferType → TransferManager
uncounted s t t_upload = record s { active_uploads = s.active_uploads - 1 }
uncounted s t t_download =
    if t.position == 0 then record s { active_downloads = s.active_downloads - 1 } else s

abbrev pub purge_found : TransferManager → Option ℕ → TransferManager
purge_found s none = s
purge_found s (some p) = let t = s.heap p in destroy (uncounted s t t.type) t

-- The number that is removed is that of the user, and not of the transfer.
unfoldable pub purge_nodes : TransferManager → List ℕ → TransferManager
purge_nodes s [] = s
purge_nodes s (p ∷ l) =
    let r = Collection.remove s.ttbl (s.heap p).uid in
    purge_nodes (purge_found (record s { ttbl = r.0 }) r.1) l

unfoldable pub purge_uid : ℕ → TransferManager → ℕ → TransferManager
purge_uid now s uid =
    let purged = purge_nodes s (Collection.iterate s.ttbl (purge_uid_iterator s uid) []) in
    fill_slots now purged purged.queue

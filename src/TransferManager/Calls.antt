-- ===== src/TransferManager/Calls.antt =====
-- The calls of the transfer manager keep the queue sound.
use hotwired.Collection
use hotwired.Collection.Keys.{collection_key}
use hotwired.Idm
use hotwired.Idm.{Idm}
use hotwired.Prelude.{
  ℕ, ◌+◌, ◌<◌, ◌≡◌, refl, Bool, true, false, ◌&&◌, Option, none, some, List, [], ◌∷◌, ◌++◌, All,
  length, length-append, ==_iff, if◌then◌else◌, arith,
}
use hotwired.TransferManager.Queue.{
  IsPlaced, IsQueued, store-IsPlaced, below-IsAbsent, IsPlaced-append, All-append_end,
  monitor_add_from_queue-IsQueued,
}
use hotwired.TransferManager.{
  TransferType, Transfer, TransferManager, t_upload, t_download, notice, activate, destroy,
  monitor_add, monitor_add_from_queue, slot_taken, release_slot, timed_out, woken, monitor_turn,
  add_download, add_numbered, allocated, new_transfer, full,
}

-- A new transfer at a fresh address.
allocated-IsPlaced :
    (s : TransferManager) (idm : Idm) (t : Transfer)
    → IsQueued s
    → IsPlaced (allocated s idm t).heap s.queue 0
allocated-IsPlaced s idm t c =
    store-IsPlaced s.heap s.fresh t s.queue 0 (below-IsAbsent s.fresh s.queue c.below) c.placed

below_more : (l : List ℕ) (n : ℕ) → All (λ p. p < n) l → All (λ p. p < n + 1) l
below_more [] n h = tt
below_more (p ∷ l) n h = (omega (arith, h.0), below_more l n h.1)

-- One that gets a slot at once.
active-IsQueued :
    (now : ℕ) (s : TransferManager) (idm : Idm) (t : Transfer)
    → IsQueued s
    → IsQueued (monitor_add now (allocated s idm t) s.fresh)
unfolding monitor_add
active-IsQueued now s idm t c = record {
  placed =
      store-IsPlaced (allocated s idm t).heap s.fresh _ s.queue 0
        (below-IsAbsent s.fresh s.queue c.below) (allocated-IsPlaced s idm t c);
  sized = c.sized;
  below = below_more s.queue s.fresh c.below;
}

added_last-IsQueued :
    (s : TransferManager) (idm : Idm) (t : Transfer)
    → IsQueued s
    → t.position ≡ s.queue_size + 1
    → IsQueued (record (allocated s idm t) {
      queue = s.queue ++ s.fresh ∷ [];
      queue_size = s.queue_size + 1;
    })
added_last-IsQueued s idm t c e = record {
  placed =
      IsPlaced-append (allocated s idm t).heap s.queue s.fresh 0 (allocated-IsPlaced s idm t c)
        c.below (rw ((==_iff s.fresh s.fresh).1 refl) (omega (arith, e, c.sized)));
  sized = omega (arith, length-append s.queue (s.fresh ∷ []), c.sized);
  below = All-append_end s.queue s.fresh c.below;
}

-- The place that tfm_add_download gives: behind the others where a limit of active downloads is
-- reached, none where it is not.
abbrev pub Placed : TransferManager → Option ℕ → TransferManager → Type 0
Placed s none new = new ≡ s
Placed s (some tid) new =
    if full s.active_downloads s.max_downloads
    then (new.queue ≡ s.queue ++ s.fresh ∷ [])
      × ((new.heap s.fresh).position ≡ length s.queue + 1)
      × (new.active_downloads ≡ s.active_downloads)
    else (new.queue ≡ s.queue)
      × (new.sequester ≡ s.sequester ++ s.fresh ∷ [])
      × (new.active_downloads ≡ s.active_downloads + 1)

-- Where the queue is sound, tfm_add_download leaves a sound queue. A download with a number stands
-- behind the others in the queue, with the next position, where the limit of active downloads is
-- reached, and else is active and at the end of the sequester list; the answer -1 changes nothing.
pub add_download-IsQueued :
    (now : ℕ) (s : TransferManager) (uid : ℕ) (filename : List ℕ) (mode offset : ℕ)
    → IsQueued s
    → let r = add_download now s uid filename mode offset in IsQueued r.0 × Placed s r.1 r.0
unfolding add_download monitor_add
add_download-IsQueued now s uid filename mode offset c =
    either (full s.active_downloads s.max_downloads && (if s.queue_enable then false else true))
  where
    numbered :
        (enqueue : Bool) (got : Option (ℕ × Idm))
        → full s.active_downloads s.max_downloads ≡ enqueue
        → let r = add_numbered now s enqueue uid filename mode offset got in
          IsQueued r.0 × Placed s r.1 r.0
    numbered enqueue none e = (c, refl)
    numbered true (some (tid, idm)) e = (
      added_last-IsQueued s idm _ c refl,
      rw (e, (==_iff s.fresh s.fresh).1 refl) (refl, omega (arith, c.sized), refl),
    )
    numbered false (some (tid, idm)) e =
        let ok =
          active-IsQueued now s idm (new_transfer tid uid t_download filename mode offset 0) c in
        (record { placed = ok.placed; sized = ok.sized; below = ok.below }, rw e (refl, refl, refl))

    either :
        (refused : Bool)
        → let enqueue = full s.active_downloads s.max_downloads in
          let r =
            if refused
            then (s, none)
            else add_numbered now s enqueue uid filename mode offset (Idm.get s.idm) in
          IsQueued r.0 × Placed s r.1 r.0
    either true = (c, refl)
    either false = numbered (full s.active_downloads s.max_downloads) (Idm.get s.idm) refl

-- The end of a transfer that had a slot, and a turn of the monitor thread.
pub release_slot-IsQueued :
    (now : ℕ) (s : TransferManager) (type : TransferType)
    → IsQueued s
    → IsQueued (release_slot now s type)
unfolding release_slot
release_slot-IsQueued now s t_upload c = record {
  placed = c.placed;
  sized = c.sized;
  below = c.below;
}
release_slot-IsQueued now s t_download c =
    taken (monitor_add_from_queue now s) (monitor_add_from_queue-IsQueued now s c).0
  where
    taken : (r : TransferManager × Bool) → IsQueued r.0 → IsQueued (slot_taken r)
    taken (t, true) ok = ok
    taken (t, false) ok = record { placed = ok.placed; sized = ok.sized; below = ok.below }

-- Where the queue is sound, it is so behind every turn of the loop of monitor_thread, whether the wait
-- ran out of time or not.
pub monitor_turn-IsQueued :
    (now : ℕ) (s : TransferManager) (late : Bool) → IsQueued s → IsQueued (monitor_turn now s late)
unfolding monitor_turn activate notice destroy
monitor_turn-IsQueued now s true c = late s.sequester
  where
    late : (l : List ℕ) → IsQueued (timed_out now s l)
    late [] = c
    late (p ∷ l) =
        let ok =
          release_slot-IsQueued now
            (record s { ttbl = (Collection.remove s.ttbl (s.heap p).tid).0 }) (s.heap p).type
            (record { placed = c.placed; sized = c.sized; below = c.below }) in
        record { placed = ok.placed; sized = ok.sized; below = ok.below }
monitor_turn-IsQueued now s false c = early s.sequester
  where
    early : (l : List ℕ) → IsQueued (woken s l)
    early [] = c
    early (p ∷ l) = record { placed = c.placed; sized = c.sized; below = c.below }

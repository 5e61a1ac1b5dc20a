-- ===== src/Tests/Transfers.antt =====
-- TransferManager.c.
use hotwired.Collection.Bucket.{find, take_out}
use hotwired.Collection.Keys.{collection_key}
use hotwired.Collection.Load.{to_float, above_three, above_one}
use hotwired.Collection.{
  slot, next_prime, create, size, relink, drain, drain_all, rebuild, grow, shrink, insert_at,
  insert, remove_at, remove,
}
use hotwired.Idm
use hotwired.Prelude.{ℕ, ◌≡◌, ◌↔◌, refl, true, false, none, some, List, [], ◌∷◌}
use hotwired.TransferManager
use hotwired.TransferManager.Calls.{Placed, add_download-IsQueued}
use hotwired.TransferManager.Queue.{IsQueued, monitor_add_from_queue-IsQueued}
use hotwired.TransferManager.{
  Transfer, TransferManager, t_download, add_download, monitor_add_from_queue, behind_first,
}

program : Unit {0}
unfolding find take_out to_float above_three above_one slot next_prime create size relink drain
    drain_all rebuild grow shrink insert_at insert remove_at remove Idm.create Idm.get add_download
    TransferManager.monitor_add
program = tt

-- Where no download may be active, so that all are queued.
abbrev pub idle : TransferManager
idle = record {
  idm = Idm.create 1 4096;
  ttbl = create;
  heap = λ p. record {
    tid = 0;
    uid = 0;
    type = t_download;
    filename = [];
    mode = 0;
    offset = 0;
    position = 0;
    fd = none;
    thread = none;
    expires = 0;
  };
  fresh = 0;
  queue = [];
  sequester = [];
  queue_size = 0;
  active_downloads = 0;
  active_uploads = 0;
  queue_enable = true;
  max_downloads = some 0;
  max_uploads = none;
  notices = [];
}

idle-IsQueued : IsQueued idle
idle-IsQueued = record { placed = tt; sized = refl; below = tt }

abbrev file : List ℕ
file = b'f' ∷ []

add_download-IsQueued_example :
    IsQueued (add_download 100 idle 7 file 0 0).0
    × Placed idle (add_download 100 idle 7 file 0 0).1 (add_download 100 idle 7 file 0 0).0
add_download-IsQueued_example = add_download-IsQueued 100 idle 7 file 0 0 idle-IsQueued

abbrev one_queued : TransferManager
one_queued = (add_download 100 idle 7 file 0 0).0

one_queued-IsQueued : IsQueued one_queued
one_queued-IsQueued = (add_download-IsQueued 100 idle 7 file 0 0 idle-IsQueued).0

abbrev two_queued : TransferManager
two_queued = (add_download 101 one_queued 8 file 0 0).0

two_queued-IsQueued : IsQueued two_queued
two_queued-IsQueued = (add_download-IsQueued 101 one_queued 8 file 0 0 one_queued-IsQueued).0

monitor_add_from_queue-IsQueued_example :
    IsQueued (monitor_add_from_queue 102 two_queued).0
    × ((monitor_add_from_queue 102 two_queued).0.queue ≡ behind_first two_queued.queue)
    × (((monitor_add_from_queue 102 two_queued).1 ≡ false) ↔ (two_queued.queue ≡ []))
monitor_add_from_queue-IsQueued_example =
    monitor_add_from_queue-IsQueued 102 two_queued two_queued-IsQueued

-- The numbers of the two are 1 and 2, at the addresses 0 and 1.
two_queued-queue : two_queued.queue ≡ 0 ∷ 1 ∷ []
unfolding program
two_queued-queue = refl

-- ===== src/Tests/Threads.antt =====
-- helper_thread.c.
use hotwired.Handlers.Dispatch.{th_init}
use hotwired.HelperThread.Handshake.{accepted, refused, ht_control_connect_lem}
use hotwired.HelperThread.Messages.{IsServed, ht_transaction-write}
use hotwired.HelperThread.{Service, trtp_hotl, ht_control_connect, ht_transaction}
use hotwired.Multiplexer.{multiplexer_create}
use hotwired.Permissions.{same_bytes}
use hotwired.Prelude.Texts.{codes}
use hotwired.Prelude.{◌≡◌, refl, List, [], ◌∷◌, if◌then◌else◌, arith}
use hotwired.Socket.{Socket}
use hotwired.Tests.Files.{logged, site, environment}
use hotwired.Tests.Requests.{admin, connected-IsWellFormed, connected-view}
use hotwired.Transaction.Encoding.{add_all, body_size}
use hotwired.Transaction.Objects.{sent}
use hotwired.Transaction.RoundTrip.{IsNew, message}
use hotwired.Transaction.{TransactionOut, TransactionObject, create, write}
use mathlib.Core.List.{flatten}

program : Unit {0}
unfolding flatten write create add_all body_size
program = tt

abbrev service : Service logged
service = record { transaction_table = th_init; site = site; multiplexer = multiplexer_create }

-- A client of another protocol, whose bytes come in two pieces.
abbrev other_greeting : Socket
other_greeting = codes "GET / HT" ∷ codes "TP/1" ∷ []

ht_control_connect_lem_example :
    ht_control_connect service 7 other_greeting (8 ∷ [])
    ≡ (if same_bytes trtp_hotl (codes "GET / HT") then accepted service 7 else refused service 7)
unfolding program
ht_control_connect_lem_example =
    ht_control_connect_lem service 7 admin (codes "GET / HT") (codes "TP") (codes "/1") [] (8 ∷ [])
      other_greeting (connected-IsWellFormed admin) (connected-view admin) refl refl refl
      (omega arith, (omega arith, tt)) refl (omega arith, tt) (omega arith)

-- A message to create a folder.
abbrev built : TransactionOut
built = create 0 205 1

abbrev folder : List TransactionObject
folder = sent 201 (codes "new") ∷ []

abbrev arriving : Socket
arriving = write 3 (add_all built folder) ∷ []

built-IsNew : IsNew built
unfolding create
built-IsNew = record {
  size = refl;
  count = refl;
  buffers = refl;
  class_fits = omega arith;
  id_fits = omega arith;
  task_fits = omega arith;
  error_fits = omega arith;
}

ht_transaction-write_example :
    IsServed environment service 7
      (message 0 205 3 0 folder)
      []
      (ht_transaction environment service 7 arriving)
unfolding program
ht_transaction-write_example =
    ht_transaction-write environment service 7 built folder 3 built-IsNew (omega arith)
      (omega arith) (omega arith) (omega arith) arriving [] (omega arith) (omega arith, tt) refl

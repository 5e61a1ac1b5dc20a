-- ===== src/HelperThread/Messages.antt =====
-- A thread with a message of a client, as its bytes arrive.
use mathlib.Core.Path.{subst}
use hotwired.Collection.{Collection}
use hotwired.Execution.{Environment, th_exec}
use hotwired.FileHandlers.{Outcome}
use hotwired.Handlers.Dispatch.{Handler}
use hotwired.Multiplexer.Entries.{waiting, multiplexer_add-count}
use hotwired.Multiplexer.{mplx_rd}
use hotwired.Prelude.Counts.{to_nat, count}
use hotwired.FileOps.{FileSystem}
use hotwired.HelperThread.{
  Service, behind_read, serve, executed, ht_control_disconnect, ht_transaction,
}
use hotwired.Prelude.{
  refl, true, false, none, some, ◌+◌, ◌==◌, ℕ, ◌^◌, ◌≤◌, ◌<◌, ◌≡◌, ap, sym, ◌∙◌, Option, List, ◌++◌,
  length, All,
}
use hotwired.Socket.Reassembly.{IsOpen}
use hotwired.Socket.{Socket}
use hotwired.Transaction.Encoding.{IsObject, add_all, body_size}
use hotwired.Transaction.RoundTrip.{IsNew, message, task_of, read-write}
use hotwired.Transaction.{
  TransactionIn, TransactionObject, TransactionOut, write, max_txn_size, max_txn_objs,
}
use mathlib.Core.List.{flatten}

-- What follows a handler: the state that is left, and whether the descriptor is waited for again.
abbrev pub IsFollowed :
    {F : FileSystem}
    → Environment
    → Service F
    → ℕ
    → Collection ℕ Handler
    → Outcome F
    → Option (Service F)
    → Type 0
IsFollowed env s fd table none r = r ≡ none
IsFollowed {F = F} env s fd table (some (site, true)) r =
    (v : Service F) × (r ≡ some v)
    × (v.transaction_table ≡ table)
    × (v.site ≡ site)
    × ((q : ℕ)
        → count q (waiting v.multiplexer) ≡ count q (waiting s.multiplexer) + to_nat (q == fd))
IsFollowed env s fd table (some (site, false)) r =
    r ≡ ht_control_disconnect env (record s { transaction_table = table; site = site }) fd

executed-IsFollowed :
    {F : FileSystem} (env : Environment) (s : Service F) (fd : ℕ) (table : Collection ℕ Handler)
    (o : Outcome F)
    → IsFollowed env s fd table o (executed env (record s { transaction_table = table }) fd o)
executed-IsFollowed env s fd table none = refl
executed-IsFollowed env s fd table (some (site, true)) =
    (_, refl, refl, refl, multiplexer_add-count s.multiplexer fd mplx_rd)
executed-IsFollowed env s fd table (some (site, false)) = refl

-- The message is handled so, and `rest` is left to arrive.
abbrev pub IsServed :
    {F : FileSystem}
    → Environment
    → Service F
    → ℕ
    → TransactionIn
    → List ℕ
    → Option (Service F) × Socket
    → Type 0
IsServed env s fd t rest r =
    let x = th_exec env s.transaction_table s.site fd t in
    IsFollowed env s fd x.0 x.1 r.0 × (flatten r.1 ≡ rest) × IsOpen r.1

serve-IsFollowed :
    {F : FileSystem} (env : Environment) (s : Service F) (fd : ℕ) (t : TransactionIn)
    → let x = th_exec env s.transaction_table s.site fd t in
      IsFollowed env s fd x.0 x.1 (serve env s fd t)
unfolding serve
serve-IsFollowed env s fd t =
    let x = th_exec env s.transaction_table s.site fd t in executed-IsFollowed env s fd x.0 x.1

-- A message that a client builds of objects, within its room and the limits of the reader, and
-- writes with its task number, is handled by ht_transaction as th_exec handles the one message with
-- the same class, id, error and objects, in whatever pieces its bytes arrive, and what follows on
-- the socket is left. Where the handler answers 0, its state is kept and the descriptor is in the
-- table of the multiplexer once more than before; where it answers -1, the connection is taken down
-- by ht_control_disconnect; and where it faults or does not end, so does ht_transaction.
pub ht_transaction-write :
    {F : FileSystem} (env : Environment) (s : Service F) (fd : ℕ) (t : TransactionOut)
    (os : List TransactionObject) (taskno : ℕ)
    → IsNew t
    → taskno < 2 ^ 32
    → All IsObject os
    → length os ≤ t.max_objects
    → body_size os ≤ max_txn_size
    → (sock : Socket) (rest : List ℕ) → length os ≤ max_txn_objs
    → IsOpen sock
    → flatten sock ≡ write taskno (add_all t os) ++ rest
    → IsServed env s fd
        (message t.t_class t.t_id (task_of taskno t) t.t_error os)
        rest
        (ht_transaction env s fd sock)
unfolding ht_transaction
ht_transaction-write env s fd t os taskno new fits objects room small sock rest few o e =
    let (left, done, flat, opened) =
      read-write t os taskno new fits objects room small sock rest few o e in
    let m = message t.t_class t.t_id (task_of taskno t) t.t_error os in
    let x = th_exec env s.transaction_table s.site fd m in
    (
      subst (IsFollowed env s fd x.0 x.1) (ap (λ r. (behind_read env s fd r).0) (sym done))
          (serve-IsFollowed env s fd m),
      ap (λ r. flatten (behind_read env s fd r).1) done ∙ flat,
      subst IsOpen (ap (λ r. (behind_read env s fd r).1) (sym done)) opened,
    )

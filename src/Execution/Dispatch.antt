-- ===== src/Execution/Dispatch.antt =====
-- The handler that a message gets.
use hotwired.Execution.{Environment, execute, th_exec}
use hotwired.FileHandlers.{Site}
use hotwired.FileOps.{FileSystem}
use hotwired.Handlers.Dispatch.{transaction_list, th_init, listed, find_handler-th_init}
use hotwired.Prelude.{ℕ, ◌≡◌, ap}
use hotwired.Transaction.Objects.{id}
use hotwired.Transaction.{TransactionIn}

-- With the table that th_init makes, th_exec does with a message what the handler of its id in
-- transaction_list does, and where the list has no entry of the id it replies with an error that has
-- the id in it and does nothing else.
pub th_exec-th_init :
    {F : FileSystem} (env : Environment) (s : Site F) (uid : ℕ) (t : TransactionIn)
    → (th_exec env th_init s uid t).1 ≡ execute env (listed (id t) transaction_list) s uid t
unfolding th_exec
th_exec-th_init env s uid t = ap (λ o. execute env o s uid t) (find_handler-th_init (id t))

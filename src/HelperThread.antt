-- ===== src/HelperThread.antt =====
-- helper_thread.c: the handshakes of the two kinds of connections, and a message of a client. A thread
-- of the pool does one of these for each message of its queue.
pub mod Handshake
pub mod Messages
use hotwired.Collection.{Collection}
use hotwired.ConnectionManager
use hotwired.Execution.{Environment, th_exec}
use hotwired.FileHandlers.{Site, Outcome}
use hotwired.FileOps.{FileSystem}
use hotwired.Handlers.Dispatch.{Handler}
use hotwired.Handlers.{broadcast, txn_part_create}
use hotwired.Multiplexer.{Multiplexer, mplx_rd, multiplexer_add}
use hotwired.Permissions.{same_bytes}
use hotwired.Prelude.Bytes.{get32}
use hotwired.Prelude.Texts.{codes}
use hotwired.Prelude.{
  ℕ, ◌+◌, Bool, true, false, Option, none, some, List, [], ◌∷◌, ◌++◌, replicate, take, drop,
  if◌then◌else◌,
}
use hotwired.Socket.{Socket, read_all, read_int16, write_all}
use hotwired.TransferManager.Waiting.{register, purge_uid}
use hotwired.Transaction.{TransactionIn, read}

-- What the threads share: the table of handlers, what the handlers work on, and the multiplexer.
pub record Service (F : FileSystem) : Type 0 where
  pub transaction_table : Collection ℕ Handler
  pub site : Site F
  pub multiplexer : Multiplexer

abbrev pub trtp_hotl : List ℕ
trtp_hotl = codes "TRTPHOTL"

abbrev pub trtp : List ℕ
trtp = codes "TRTP" ++ replicate 4 0

abbrev pub behind_version : Option (ℕ × Socket) → Option (ℕ × Socket)
behind_version none = none
behind_version (some (version, sock)) = read_int16 sock

-- `strncmp` stops at a zero byte, which the text has not.
abbrev pub behind_hello : Option (List ℕ × Socket) → Option (ℕ × Socket)
behind_hello none = none
behind_hello (some (hello, sock)) =
    if same_bytes trtp_hotl hello then behind_version (read_int16 sock) else none

-- What the client sends in a handshake: the second word, which the code keeps, and what is left.
unfoldable pub control_hello : Socket → Option (ℕ × Socket)
control_hello sock = behind_hello (read_all 8 sock)

-- What is sent, and how often the descriptor is closed.
pub record Control (F : FileSystem) : Type 0 where
  pub service : Service F
  pub sent : List ℕ
  pub closes : ℕ

abbrev pub closed_by : Bool → ℕ
closed_by removed = if removed then 1 else 0

-- The thread waits for the transfer to begin (`xfer_wait`), or the descriptor is closed.
pub data DataConnect (F : FileSystem) : Type 0 where
  waits : ℕ → Service F → DataConnect F
  rejected : Service F → DataConnect F

module _ {F : FileSystem} where
  abbrev pub with_connections : Service F → ConnectionManager.Connections → Service F
  with_connections s ctbl = record s {
    site = record s.site { server = record s.site.server { connections = ctbl } };
  }

  -- The code behind `err`, where cm_remove closes the descriptor of a connection that it finds.
  unfoldable pub failed_handshake : Service F → ℕ → List ℕ → Control F
  failed_handshake s fd sent =
      let r = ConnectionManager.remove s.site.server.connections fd in
      record { service = with_connections s r.0; sent = sent; closes = closed_by r.1 + 1 }

  abbrev pub greeted : Service F → ℕ → List ℕ × Bool → Control F
  greeted s fd (sent, done) =
      let failed = failed_handshake s fd sent in
      let added = record s { multiplexer = multiplexer_add s.multiplexer fd mplx_rd } in
      if done then record { service = added; sent = sent; closes = 0 } else failed

  abbrev pub greet : Service F → ℕ → List ℕ → Option (ℕ × Socket) → Control F
  greet s fd answers none = failed_handshake s fd []
  greet s fd answers (some (version, sock)) = greeted s fd (write_all trtp answers)

  -- `ht_control_connect`, for the bytes that arrive and the answers of `send`.
  unfoldable pub ht_control_connect : Service F → ℕ → Socket → List ℕ → Control F
  ht_control_connect s fd sock answers = greet s fd answers (control_hello sock)

  abbrev pub registered :
      Service F → ℕ → ConnectionManager.Connections → Site F → Bool → DataConnect F
  registered s tid ctbl site done =
      let next = with_connections (record s { site = site }) ctbl in
      if done then waits tid next else rejected next

  abbrev pub behind_htxf : Service F → ℕ → ℕ → ℕ → Option (List ℕ × Socket) → DataConnect F
  behind_htxf s fd ip thread none = rejected s
  behind_htxf s fd ip thread (some (buffer, sock)) =
      let tid = get32 (drop 4 buffer) in
      let r = register s.site.transfers s.site.server.connections tid fd ip thread in
      let done = registered s tid r.0 (record s.site { transfers = r.1 }) r.2 in
      if same_bytes (take 4 buffer) (codes "HTXF") then done else rejected s

  -- `ht_data_connect`, on the thread of this number.
  unfoldable pub ht_data_connect : Service F → ℕ → ℕ → ℕ → Socket → DataConnect F
  ht_data_connect s fd ip thread sock = behind_htxf s fd ip thread (read_all 16 sock)

  -- `ht_control_disconnect`; `none` is a broadcast that does not end.
  unfoldable pub ht_control_disconnect : Environment → Service F → ℕ → Option (Service F)
  ht_control_disconnect env s fd =
      let purged = purge_uid env.now s.site.transfers fd in
      elim (broadcast env.steps s.site.server fd (txn_part_create fd)) [
        | none ↦ none
        | some server ↦
            let ctbl = (ConnectionManager.remove server.connections fd).0 in
            some (record s {
              site = record s.site {
                server = record server { connections = ctbl };
                transfers = purged;
              };
            })
      ]

  -- Behind th_exec; `none` is a fault in a handler.
  abbrev pub executed : Environment → Service F → ℕ → Outcome F → Option (Service F)
  executed env s fd none = none
  executed env s fd (some (site, done)) =
      let next = record s { site = site } in
      let left = ht_control_disconnect env next fd in
      if done
      then some (record next { multiplexer = multiplexer_add s.multiplexer fd mplx_rd })
      else left

  -- A message that has been read.
  unfoldable pub serve : Environment → Service F → ℕ → TransactionIn → Option (Service F)
  serve env s fd t =
      let r = th_exec env s.transaction_table s.site fd t in
      executed env (record s { transaction_table = r.0 }) fd r.1

  abbrev pub behind_read :
      Environment → Service F → ℕ → Option (TransactionIn × Socket) → Option (Service F) × Socket
  behind_read env s fd none = (ht_control_disconnect env s fd, [])
  behind_read env s fd (some (t, sock)) = (serve env s fd t, sock)

  -- `ht_transaction`, with what is left on the socket.
  unfoldable pub ht_transaction : Environment → Service F → ℕ → Socket → Option (Service F) × Socket
  ht_transaction env s fd sock = behind_read env s fd (read sock)

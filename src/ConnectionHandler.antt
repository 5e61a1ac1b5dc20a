-- ===== src/ConnectionHandler.antt =====
-- connection_handler.c: what the main thread does with the descriptors that multiplexer_poll reports,
-- and the two sockets on which it listens.
pub mod Places
pub mod Sharing
pub mod Starting
use hotwired.Config
use hotwired.Config.{Config}
use hotwired.ConnectionManager
use hotwired.ConnectionManager.{Connections}
use hotwired.Multiplexer.{
  Mevent, Multiplexer, mplx_rd, multiplexer_add, multiplexer_remove, multiplexer_poll,
}
use hotwired.Prelude.Int.{ℤ, pos, negsuc}
use hotwired.Prelude.Texts.{codes}
use hotwired.Prelude.{
  ℕ, ◌+◌, Bool, true, false, ◌&&◌, Option, none, some, List, [], ◌∷◌, ◌++◌, ◌==◌, if◌then◌else◌,
}

-- What is sent to the queue of a helper thread: HT_CONTROL_CONNECT, HT_DATA_CONNECT with a
-- `ConnectionInfo`, and HT_TRANSACTION.
pub data Message : Type 0 where
  control_connect : ℕ → Message
  data_connect : ℕ → ℕ → Message
  transaction : ℕ → Message

-- The static variables, where `none` is -1, the tables, the messages that were sent and are not done,
-- with the thread of each, and the descriptors that were closed.
pub record Front : Type 0 where
  pub listen_address : ℕ
  pub listen_port : Option ℕ
  pub control_socket : Option ℕ
  pub data_socket : Option ℕ
  pub multiplexer : Multiplexer
  pub connections : Connections
  pub messages : List (ℕ × Message)
  pub closed : List ℕ

-- `fd == control_socket`
unfoldable pub is_socket : Option ℕ → ℕ → Bool
is_socket none fd = false
is_socket (some socket) fd = fd == socket

unfoldable pub send : Front → ℕ → Message → Front
send s thread m = record s { messages = s.messages ++ (thread, m) ∷ [] }

-- The answers of `listener_accept` and of `tm_get_thread` are arguments here and below.
unfoldable pub ch_accept_control_connection : ℕ → Option (ℕ × ℕ) → ℕ → Front → Front
ch_accept_control_connection now none thread s = s
ch_accept_control_connection now (some (cfd, ip)) thread s =
    send (record s { connections = ConnectionManager.add now s.connections cfd ip }) thread
      (control_connect cfd)

unfoldable pub ch_accept_data_connection : Option (ℕ × ℕ) → ℕ → Front → Front
ch_accept_data_connection none thread s = s
ch_accept_data_connection (some (fd, ip)) thread s = send s thread (data_connect fd ip)

unfoldable pub ch_handle_transaction : ℕ → ℕ → Front → Front
ch_handle_transaction fd thread s = send s thread (transaction fd)

-- A client's descriptor leaves the table of the multiplexer before a thread gets it.
unfoldable pub ch_take : ℕ → ℕ → Front → Front
ch_take fd thread s =
    ch_handle_transaction fd thread (record s { multiplexer = multiplexer_remove s.multiplexer fd })

abbrev pub ch_reported : ℕ → Option (ℕ × ℕ) → ℕ → Option (ℕ × Option Mevent) → Front → Front
ch_reported now accepted thread none s = s
ch_reported now accepted thread (some (fd, event)) s =
    if is_socket s.control_socket fd
    then ch_accept_control_connection now accepted thread s
    else if is_socket s.data_socket fd
    then ch_accept_data_connection accepted thread s
    else ch_take fd thread s

-- A turn of the loop of `ch_main`; `answer` is what `poll` would answer.
unfoldable pub ch_turn : ℕ → Option (List ℕ) → Option (ℕ × ℕ) → ℕ → Front → Front
ch_turn now answer accepted thread s =
    let r = multiplexer_poll answer s.multiplexer in
    ch_reported now accepted thread r.1 (record s { multiplexer = r.0 })

abbrev pub default_port : ℕ
default_port = 5500

abbrev source_address : (List ℕ → ℕ) → Option (List ℕ) → ℕ
source_address inet_network none = 0
source_address inet_network (some t) = inet_network t

abbrev port_of : ℤ → ℕ
port_of (pos n) = n
port_of (negsuc n) = default_port

abbrev pub closed_socket : Option ℕ → Front → Front
closed_socket none s = s
closed_socket (some fd) s = record s {
  multiplexer = multiplexer_remove s.multiplexer fd;
  closed = s.closed ++ fd ∷ [];
}

-- The two sockets, with the answers of `listener_create`; `none` is the fatal error.
abbrev pub data_listens : Option ℕ → Front → Option Front
data_listens none s = none
data_listens (some fd) s =
    some
      (record s { data_socket = some fd; multiplexer = multiplexer_add s.multiplexer fd mplx_rd })

abbrev pub listens : (ℕ → ℕ → Option ℕ) → ℕ → ℕ → Front → Option Front
listens listener_create address port s = data_listens (listener_create address (port + 1)) s

abbrev pub control_listens : (ℕ → ℕ → Option ℕ) → ℕ → ℕ → Option ℕ → Front → Option Front
control_listens listener_create address port none s = none
control_listens listener_create address port (some fd) s =
    listens listener_create address port (record s {
      control_socket = some fd;
      multiplexer = multiplexer_add s.multiplexer fd mplx_rd;
    })

abbrev pub listen_anew : (ℕ → ℕ → Option ℕ) → ℕ → ℕ → Front → Option Front
listen_anew listener_create address port s =
    let noted = record s { listen_address = address; listen_port = some port } in
    let free = closed_socket s.data_socket (closed_socket s.control_socket noted) in
    control_listens listener_create address port (listener_create address port) free

-- `listen_address == source_address && listen_port == port`
abbrev pub listens_there : ℕ → ℕ → Front → Bool
listens_there address port s = s.listen_address == address && is_socket s.listen_port port

unfoldable pub ch_init : (List ℕ → ℕ) → (ℕ → ℕ → Option ℕ) → Config → Front → Config × Option Front
ch_init inet_network listener_create conf s =
    let a = Config.value conf (codes "global") (codes "listen_address") in
    let p = Config.int_value a.0 (codes "global") (codes "port") in
    let address = source_address inet_network a.1 in
    let anew = listen_anew listener_create address (port_of p.1) s in
    (p.0, if listens_there address (port_of p.1) s then some s else anew)

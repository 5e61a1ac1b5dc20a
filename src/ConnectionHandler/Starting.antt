-- ===== src/ConnectionHandler/Starting.antt =====
-- ch_init when the server starts, and when it reads its settings again.
use hotwired.Config.{Config}
use hotwired.ConnectionHandler.Places.{handed}
use hotwired.ConnectionHandler.Sharing.{IsHeld}
use hotwired.ConnectionHandler.{
  Front, is_socket, ch_init, data_listens, control_listens, listen_anew, listens_there,
}
use hotwired.Collection
use hotwired.Multiplexer.Entries.{waiting, multiplexer_add-waiting}
use hotwired.Multiplexer.{multiplexer_create, mplx_rd}
use hotwired.Prelude.Counts.{count}
use hotwired.Prelude.{
  ℕ, ◌+◌, ◌≡◌, refl, ap, ◌∙◌, false, Bool-cases, inl, inr, Option, none, some, List, [], ◌∷◌, ◌++◌,
  ◌==◌, if◌then◌else◌, arith,
}

-- The static variables of a program that starts.
abbrev pub start : Front
start = record {
  listen_address = 0;
  listen_port = none;
  control_socket = none;
  data_socket = none;
  multiplexer = multiplexer_create;
  connections = Collection.create;
  messages = [];
  closed = [];
}

-- Two sockets are listened on, and nothing else is waited for.
pub record IsListening (s : Front) (control : ℕ) (transfer : ℕ) : Type 0 where
  pub control_known : s.control_socket ≡ some control
  pub data_known : s.data_socket ≡ some transfer
  pub table : waiting s.multiplexer ≡ control ∷ transfer ∷ []
  pub idle : s.messages ≡ []

abbrev pub IsStarted : Option Front → Type 0
IsStarted none = Unit
IsStarted (some s) = (control : ℕ) × (transfer : ℕ) × IsListening s control transfer

data_listens-IsStarted :
    (o : Option ℕ) (s : Front) (control : ℕ)
    → s.control_socket ≡ some control
    → waiting s.multiplexer ≡ control ∷ []
    → s.messages ≡ []
    → IsStarted (data_listens o s)
data_listens-IsStarted none s control known table idle = tt
data_listens-IsStarted (some fd) s control known table idle = (
  control,
  fd,
  record {
    control_known = known;
    data_known = refl;
    table = multiplexer_add-waiting s.multiplexer fd mplx_rd ∙ ap (λ l. l ++ fd ∷ []) table;
    idle = idle;
  },
)

control_listens-IsStarted :
    (listener_create : ℕ → ℕ → Option ℕ) (address port : ℕ) (o : Option ℕ) (s : Front)
    → waiting s.multiplexer ≡ []
    → s.messages ≡ []
    → IsStarted (control_listens listener_create address port o s)
control_listens-IsStarted listener_create address port none s fresh idle = tt
control_listens-IsStarted listener_create address port (some fd) s fresh idle =
    data_listens-IsStarted (listener_create address (port + 1)) _ fd refl
      (multiplexer_add-waiting s.multiplexer fd mplx_rd ∙ ap (λ l. l ++ fd ∷ []) fresh) idle

listens_there-start : (address port : ℕ) → listens_there address port start ≡ false
unfolding is_socket
listens_there-start address port = elim (Bool-cases (0 == address)) [
  | inl here ↦ rw here refl
  | inr away ↦ rw away refl
]

anew-IsStarted :
    (listener_create : ℕ → ℕ → Option ℕ) (address port : ℕ)
    → IsStarted (
        if listens_there address port start
        then some start
        else listen_anew listener_create address port start)
unfolding multiplexer_create
anew-IsStarted listener_create address port = rw (listens_there-start address port) (
    control_listens-IsStarted listener_create address port (listener_create address port) _ refl
      refl)

-- Whatever the settings are, ch_init of a server that starts either ends it or listens on two sockets,
-- which are then all that the multiplexer waits for.
pub ch_init-IsStarted :
    (inet_network : List ℕ → ℕ) (listener_create : ℕ → ℕ → Option ℕ) (conf : Config)
    → IsStarted (ch_init inet_network listener_create conf start).1
unfolding ch_init
ch_init-IsStarted inet_network listener_create conf = anew-IsStarted listener_create _ _

-- So each of the two is at one place, as the histories of the descriptors begin.
pub IsListening-IsHeld :
    (s : Front) (control transfer : ℕ)
    → IsListening s control transfer
    → (control == transfer) ≡ false
    → IsHeld (record { front = s; opened = control ∷ transfer ∷ []; late = [] })
unfolding count
IsListening-IsHeld s control transfer l apart = record {
  held = λ q. ground (arith, ap (count q) l.table, ap (λ m. count q (handed m)) l.idle);
  once = λ q. ground arith;
}

-- ===== src/MQueue.antt =====
-- MQueue.c: the message queue of a thread. A queue is the list of the nodes from `headptr` on, which
-- `tailptr` ends and nothing else points into. What other threads send while a receiver waits is an
-- argument.
pub mod Order
use hotwired.Prelude.{ℕ, Option, none, some, List, [], ◌∷◌, ◌++◌}

-- `union mqueue_value`: a pointer, `none` for NULL, or the bits of an `int`.
pub data MqueueValue : Type 0 where
  pointer : Option ℕ → MqueueValue
  int : ℕ → MqueueValue

pub record MQueueNode : Type 0 where
  pub i : ℕ
  pub d : MqueueValue

abbrev pub MQueue : Type 0
MQueue = List MQueueNode

-- `sq`, the queue that answers go to, is set to NULL by `mqbuf_create` and written nowhere else.
pub record MqBuf : Type 0 where
  pub sq : Option MQueue
  pub i : ℕ
  pub d : MqueueValue

unfoldable pub mqbuf_create : MqBuf
mqbuf_create = record { sq = none; i = 0; d = pointer none }

unfoldable pub create : MQueue
create = []

unfoldable pub push : MQueue → ℕ → MqueueValue → MQueue
push q id v = q ++ (record { i = id; d = v }) ∷ []

unfoldable pub pop : MQueue → MqBuf → MQueue × MqBuf
pop [] b = ([], record b { i = 0; d = pointer none })
pop (c ∷ l) b = (l, record b { i = c.i; d = c.d })

unfoldable pub send_ptr : MQueue → ℕ → Option ℕ → MQueue
send_ptr q id p = push q id (pointer p)

unfoldable pub send_int : MQueue → ℕ → ℕ → MQueue
send_int q id val = push q id (int val)

unfoldable pub send : MQueue → ℕ → MQueue
send q id = send_ptr q id none

-- `none` where the code returns without sending.
unfoldable pub reply_ptr : MqBuf → ℕ → Option ℕ → Option MQueue
reply_ptr b id p = elim b.sq [ none ↦ none | some q ↦ some (send_ptr q id p) ]

unfoldable pub reply_int : MqBuf → ℕ → ℕ → Option MQueue
reply_int b id val = elim b.sq [ none ↦ none | some q ↦ some (send_int q id val) ]

unfoldable pub reply : MqBuf → ℕ → Option MQueue
reply b id = elim b.sq [ none ↦ none | some q ↦ some (send q id) ]

unfoldable pub push_all : MQueue → List MQueueNode → MQueue
push_all q [] = q
push_all q (m ∷ ms) = push_all (push q m.i m.d) ms

-- `mqueue_recv`; `meanwhile` is what was sent by the end of its one wait.
unfoldable pub recv : MQueue → MqBuf → List MQueueNode → MQueue × MqBuf
recv [] b meanwhile = pop (push_all [] meanwhile) b
recv (c ∷ l) b meanwhile = pop (c ∷ l) b

unfoldable pub message_id : MqBuf → ℕ
message_id b = b.i

abbrev pub ptrval : MqueueValue → Option ℕ
ptrval (pointer p) = p
ptrval (int v) = none

-- Of a message that was sent as a pointer, and below of one that was sent as an integer.
unfoldable pub message_ptrval : MqBuf → Option ℕ
message_ptrval b = ptrval b.d

abbrev pub intval : MqueueValue → ℕ
intval (pointer p) = 0
intval (int v) = v

unfoldable pub message_intval : MqBuf → ℕ
message_intval b = intval b.d

-- ===== src/MQueue/Order.antt =====
-- Messages come out in the order in which they went in.
use mathlib.Core.List.{append_assoc, append-nil}
use hotwired.Prelude.{ℕ, ◌≡◌, refl, sym, ap, ◌∙◌, Option, none, some, List, [], ◌∷◌, ◌++◌}
use hotwired.MQueue.{
  MQueueNode, MQueue, MqBuf, mqbuf_create, push, pop, push_all, recv, reply, reply_int, reply_ptr,
  message_id,
}

-- What happens to a queue: a message is sent while its thread works, or the thread receives, and by
-- the end of a wait some messages have been sent.
pub data Event : Type 0 where
  sent : MQueueNode → Event
  received : List MQueueNode → Event

-- The messages that a history sends; those of a wait count where the queue is empty at the time.
-- The run gives the messages sent, those received, and the queue at the end; it is `none` where a
-- wait ends with no message.
pub record Run : Type 0 where
  pub sends : List MQueueNode
  pub receives : List MQueueNode
  pub queue : MQueue

abbrev pub message : MqBuf → MQueueNode
message b = record { i = b.i; d = b.d }

abbrev with_sends : List MQueueNode → Option Run → Option Run
with_sends ms none = none
with_sends ms (some r) = some (record r { sends = ms ++ r.sends })

abbrev with_receive : MQueueNode → Option Run → Option Run
with_receive m none = none
with_receive m (some r) = some (record r { receives = m ∷ r.receives })

unfoldable pub run : List Event → MQueue → Option Run
run [] q = some (record { sends = []; receives = []; queue = q })
run (sent m ∷ events) q = with_sends (m ∷ []) (run events (push q m.i m.d))
run (received meanwhile ∷ events) (c ∷ q) =
    let r = recv (c ∷ q) mqbuf_create meanwhile in with_receive (message r.1) (run events r.0)
run (received [] ∷ events) [] = none
run (received (m ∷ meanwhile) ∷ events) [] =
    let r = recv [] mqbuf_create (m ∷ meanwhile) in
    with_sends (m ∷ meanwhile) (with_receive (message r.1) (run events r.0))

push_all-append : (q : MQueue) (ms : List MQueueNode) → push_all q ms ≡ q ++ ms
unfolding push_all push
push_all-append q [] = sym (append-nil q)
push_all-append q (m ∷ ms) = push_all-append (push q m.i m.d) ms ∙ append_assoc q (m ∷ []) ms

-- In order: what was there and what was sent is what was received and what is left.
abbrev pub InOrder : MQueue → Option Run → Type 0
InOrder q none = Unit
InOrder q (some r) = q ++ r.sends ≡ r.receives ++ r.queue

sends-InOrder :
    (q : MQueue) (ms : List MQueueNode) (r : Option Run)
    → InOrder (q ++ ms) r
    → InOrder q (with_sends ms r)
sends-InOrder q ms none h = tt
sends-InOrder q ms (some r) h = sym (append_assoc q ms r.sends) ∙ h

receive-InOrder :
    (m : MQueueNode) (q : MQueue) (r : Option Run)
    → InOrder q r
    → InOrder (m ∷ q) (with_receive m r)
receive-InOrder m q none h = tt
receive-InOrder m q (some r) h = ap (◌∷◌ m) h

-- Whatever the order of the sends and receives, as long as no wait ends with an empty queue, the
-- messages received, followed by those left in the queue, are those that were in the queue followed
-- by those that were sent, each with its id and value, in this order.
pub run-InOrder : (events : List Event) (q : MQueue) → InOrder q (run events q)
unfolding run recv pop push push_all
run-InOrder [] q = append-nil q
run-InOrder (sent m ∷ events) q =
    sends-InOrder q (m ∷ []) (run events (push q m.i m.d)) (run-InOrder events (push q m.i m.d))
run-InOrder (received meanwhile ∷ events) (c ∷ q) =
    receive-InOrder c q (run events q) (run-InOrder events q)
run-InOrder (received [] ∷ events) [] = tt
run-InOrder (received (m ∷ meanwhile) ∷ events) [] = rw (push_all-append (m ∷ []) meanwhile) (
    sends-InOrder [] (m ∷ meanwhile) _
      (receive-InOrder m meanwhile (run events meanwhile) (run-InOrder events meanwhile)))

abbrev pub ht_kill : ℕ
ht_kill = 0

pop-sq : (q : MQueue) (b : MqBuf) → (pop q b).1.sq ≡ b.sq
unfolding pop
pop-sq [] b = refl
pop-sq (c ∷ q) b = refl

recv-sq : (q : MQueue) (b : MqBuf) (meanwhile : List MQueueNode) → (recv q b meanwhile).1.sq ≡ b.sq
unfolding recv
recv-sq [] b meanwhile = pop-sq (push_all [] meanwhile) b
recv-sq (c ∷ q) b meanwhile = pop-sq (c ∷ q) b

-- Whatever a thread receives, from any queue, into a buffer of mqbuf_create, none of the three reply
-- functions then sends anything; and a wait that ends with an empty queue delivers id 0, which is
-- HT_KILL.
pub recv-reply :
    (q : MQueue) (meanwhile : List MQueueNode) (id v : ℕ) (p : Option ℕ)
    → let b = (recv q mqbuf_create meanwhile).1 in
      (reply_ptr b id p ≡ none)
      × (reply_int b id v ≡ none)
      × (reply b id ≡ none)
      × (message_id (recv [] b []).1 ≡ ht_kill)
unfolding reply_ptr reply_int reply mqbuf_create message_id recv pop push_all
recv-reply q meanwhile id v p =
    let e = recv-sq q mqbuf_create meanwhile in
    (rw (e, reply_ptr) refl, rw (e, reply_int) refl, rw (e, reply) refl, refl)

-- ===== src/Tests/Services.antt =====
-- Permissions.c, ConnectionManager.c, Stack.c, ThreadManager.c, MQueue.c and the writes of
-- socketops.c.
use hotwired.Collection.Bucket.{Chain, find, times, take_out}
use hotwired.Collection.Keys.{collection_key}
use hotwired.Collection.Load.{to_float, above_three, above_one}
use hotwired.Collection.Operations.{
  InsertResult, insert_lem, create-IsWellFormed, insert-IsWellFormed,
}
use hotwired.Collection.View.{IsWellFormed, view}
use hotwired.Collection.{
  create, size, slot, next_prime, relink, drain, drain_all, rebuild, grow, shrink, insert_at,
  insert, lookup,
}
use hotwired.ConnectionManager.{cstate_li, Connection, Connections, fresh, init, add}
use hotwired.ConnectionManager.Userlist.{build_userlist, listed, build_userlist_lem}
use hotwired.MQueue.{MQueueNode, pointer, int}
use hotwired.MQueue.Order.{sent, received, run, InOrder, run-InOrder}
use hotwired.Permissions.{IsPermissions, superuser}
use mathlib.Core.Path.{subst}
use hotwired.Prelude.{
  ℕ, suc, sym, ap, ◌∙◌, inl, inr, Bool-cases, ◌^◌, ◌≤◌, ◌<◌, ◌≡◌, refl, Option, none, some, List,
  [], ◌∷◌, length, ◌==◌, if◌then◌else◌, arith,
}
use hotwired.Stack.{Stack}
use hotwired.ThreadManager.{ThreadManager, get_thread, return_thread, handle_crash}
use hotwired.ThreadManager.Bounds.{IsBounded, Granted, get_thread-IsBounded}
use hotwired.Transaction.{TransactionIn, TransactionOut}

program : Unit {0}
unfolding find take_out to_float above_three above_one slot next_prime create size relink drain
    drain_all rebuild grow shrink insert_at insert lookup view fresh init add times
program = tt

superuser-IsPermissions : IsPermissions superuser
superuser-IsPermissions = record { size = refl; bytes = omega arith }

abbrev users : Connections
users = add 100 init 7 2130706433

abbrev newcomer : Connection
newcomer = fresh 100 2130706433

users-IsWellFormed : IsWellFormed users
unfolding add init
users-IsWellFormed = insert-IsWellFormed create 7 newcomer create-IsWellFormed.0

users-view : view users 7 ≡ some newcomer
unfolding program
users-view = refl

abbrev eight : List ℕ
eight = 1 ∷ 0 ∷ 2 ∷ 0 ∷ 0 ∷ 0 ∷ 0 ∷ 0 ∷ []

abbrev request : TransactionIn
request = record { t_class = 0; t_id = 300; t_taskno = 4; t_error = 0; object = [] }

abbrev member : Connection
member = record newcomer { cstate = cstate_li; nickname = b'a' ∷ b'n' ∷ [] }

abbrev nobody : Connections
nobody = create

abbrev members : Connections
members = (insert nobody 9 member).0

members-view : (q : ℕ) → view members q ≡ (if q == 9 then some member else view nobody q)
members-view q =
    let r =
      subst (λ o. InsertResult nobody 9 member o (insert nobody 9 member)) (create-IsWellFormed.2 9)
        (insert_lem nobody 9 member create-IsWellFormed.0) in
    r.1.views q

members_short : (q : ℕ) (c : Connection) → view members q ≡ some c → length c.nickname < 2 ^ 15
unfolding fresh
members_short q c e = elim (Bool-cases (q == 9)) [
  | inl here ↦
      let same : some member ≡ some c =
        subst (λ b. (if b then some member else view nobody q) ≡ some c) here
          (sym (members-view q) ∙ e) in
      omega (arith, ap (λ (o : Option Connection). nickname_length o) same)
  | inr away ↦
      let absent : view nobody q ≡ some c =
        subst (λ b. (if b then some member else view nobody q) ≡ some c) away
          (sym (members-view q) ∙ e) in
      absurd (no_connection (sym (create-IsWellFormed.2 q) ∙ absent))
]
  where
    nickname_length : Option Connection → ℕ
    nickname_length none = 0
    nickname_length (some o) = length o.nickname

    no_connection : {o : Connection} → none ≡ some o → ⊥
    no_connection h = cc

build_userlist_lem_example :
    (nodes : Chain ℕ Connection) × (reply : TransactionOut) × ((q : ℕ)
      → (find q nodes ≡ view members q) × (times q nodes ≤ 1))
    × (build_userlist request members ≡ some reply)
    × (reply.iov ≡ listed nodes)
build_userlist_lem_example =
    build_userlist_lem request members (insert-IsWellFormed nobody 9 member create-IsWellFormed.0)
      (unfold program in omega arith) members_short

abbrev two_threads : Stack ℕ
two_threads = record { root = 1 ∷ 2 ∷ []; count = 2 }

abbrev pool : ThreadManager
pool = record {
  inactive_threads = two_threads;
  active_thread_count = 1;
  max_active_threads = 2;
  max_inactive_threads = 8;
}

pool-IsBounded : IsBounded pool 1
pool-IsBounded = record {
  counted = (refl, omega arith);
  small = omega arith;
  active = refl;
  few_active = omega arith;
  few_inactive = omega arith;
}

get_thread-IsBounded_example :
    Granted pool 1 (get_thread pool (some 5) pool)
    × ((n : ℕ)
        → ◌≡◌ {A = ℕ} 1 (suc n)
        → IsBounded (return_thread pool 5) n × IsBounded (handle_crash pool) n)
get_thread-IsBounded_example = get_thread-IsBounded pool pool 1 5 pool-IsBounded

abbrev hello : MQueueNode
hello = record { i = 1; d = int 7 }

abbrev world : MQueueNode
world = record { i = 2; d = pointer (some 64) }

run-InOrder_example :
    InOrder [] (run (sent hello ∷ received [] ∷ received (world ∷ hello ∷ []) ∷ []) [])
run-InOrder_example = run-InOrder (sent hello ∷ received [] ∷ received (world ∷ hello ∷ []) ∷ []) []

abbrev buffer : List ℕ
buffer = 1 ∷ 2 ∷ 3 ∷ []

abbrev answers : List ℕ
answers = 2 ∷ 1 ∷ []

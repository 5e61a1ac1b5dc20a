-- ===== src/ConnectionManager/Broadcast.antt =====
-- `cm_transaction_broadcast`. The walk goes over the buckets while `transaction_write` takes a task
-- number of the receiver, for a message that is no reply, and with it looks the receiver up, which
-- moves its node to the front of the bucket. A node is named by its key.
pub mod Endless
use hotwired.Collection.Bucket.{Chain, find}
use hotwired.Collection.Keys.{collection_key}
use hotwired.ConnectionManager.{Connection, Connections, cstate_nl, get_taskno}
use hotwired.Prelude.{
  ℕ, zero, suc, ◌+◌, Bool, true, false, Option, none, some, List, [], ◌∷◌, get_or, ◌==◌,
  if◌then◌else◌,
}

abbrev pub first : Chain ℕ Connection → Option ℕ
first [] = none
first (e ∷ c) = some e.0

-- `c->next`, for the node with the key `k`.
unfoldable pub next_of : ℕ → Chain ℕ Connection → Option ℕ
next_of k [] = none
next_of k (e ∷ c) = if k == e.0 then first c else next_of k c

-- The two tests of `broadcast_iterator`.
abbrev pub receives : ℕ → ℕ → Connection → Bool
receives uid key c = if key == uid then false else if c.cstate == cstate_nl then false else true

-- The table afterwards, and whether a message was written to the connection.
unfoldable pub broadcast_iterator : ℕ → Connections → ℕ → Connection → Connections × Bool
broadcast_iterator uid ctbl key c =
    if receives uid key c then ((get_taskno ctbl key).0, true) else (ctbl, false)

-- The walk along bucket `i`, with the cursor at a node: the table and the receivers, the last one
-- first, or `none` where the steps do not suffice.
unfoldable pub walk_bucket :
    ℕ → ℕ → Connections → ℕ → Option ℕ → List ℕ → Option (Connections × List ℕ)
walk_bucket zero uid ctbl i cursor written = none
walk_bucket (suc n) uid ctbl i none written = some (ctbl, written)
walk_bucket (suc n) uid ctbl i (some k) written = elim (find k (get_or ctbl.buckets i [])) [
  | none ↦ some (ctbl, written)
  | some c ↦
      let r = broadcast_iterator uid ctbl k c in
      walk_bucket n uid r.0 i (next_of k (get_or r.0.buckets i []))
        (if r.1 then k ∷ written else written)
]

-- The buckets from `i` on, of which so many are left; each may take `n` steps.
unfoldable pub walk_buckets : ℕ → ℕ → Connections → ℕ → ℕ → List ℕ → Option (Connections × List ℕ)
walk_buckets zero n ctbl uid i written = some (ctbl, written)
walk_buckets (suc left) n ctbl uid i written =
    elim (walk_bucket n uid ctbl i (first (get_or ctbl.buckets i [])) written) [
      | none ↦ none
      | some r ↦ walk_buckets left n r.0 uid (i + 1) r.1
    ]

unfoldable pub transaction_broadcast : ℕ → Connections → ℕ → Option (Connections × List ℕ)
transaction_broadcast n ctbl uid = walk_buckets ctbl.n_buckets n ctbl uid 0 []

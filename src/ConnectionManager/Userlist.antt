-- ===== src/ConnectionManager/Userlist.antt =====
-- The list of users that a client asks for.
use mathlib.Core.List.{append_assoc, append-nil}
use hotwired.Collection
use hotwired.Collection.Bucket.{Chain, find, times, find-eq-none}
use hotwired.Collection.Keys.{collection_key}
use hotwired.Collection.View.{IsWellFormed, view}
use hotwired.Collection.Walk.{iterate_lem}
use hotwired.Collection.{size, iterate_chain, go_on}
use hotwired.ConnectionManager.{Connection, Connections, cstate_li}
use hotwired.Prelude.Bytes.{be16}
use hotwired.Prelude.{
  ℕ, ◌+◌, ◌%◌, ◌^◌, ◌≤◌, ◌<◌, ◌≡◌, refl, sym, ◌∙◌, ap, Bool, Bool-cases, inl, inr, true, false,
  Option, none, some, List, [], ◌∷◌, ◌++◌, length, take, All, ltb, ◌==◌, if◌then◌else◌, arith,
  take-all, lt→ltb,
}
use hotwired.Transaction.{TransactionIn, TransactionOut, reply_create, add_object}

abbrev pub hl_userlist_entry : ℕ
hl_userlist_entry = 300

-- The bytes of an entry, with `l` bytes of the nickname.
abbrev pub ulentry : ℕ → Connection → ℕ → List ℕ
ulentry uid c l = be16 uid ++ be16 c.icon ++ be16 c.status ++ be16 l ++ take l c.nickname

-- The transaction is `none` where the code has failed: the length is an `int16_t`, and a negative
-- one is no size to copy.
unfoldable pub userlist_iterator :
    ℕ → Connection → Option TransactionOut → Option TransactionOut × Bool
userlist_iterator uid c none = (none, false)
userlist_iterator uid c (some t) =
    let l = length c.nickname % 2 ^ 16 in
    if c.cstate == cstate_li
    then (if ltb l (2 ^ 15)
        then (some (add_object t hl_userlist_entry (ulentry uid c l) (l + 8)), true)
        else (none, false))
    else (some t, true)

unfoldable pub build_userlist : TransactionIn → Connections → Option TransactionOut
build_userlist t ctbl =
    Collection.iterate ctbl userlist_iterator (some (reply_create t 0 (size ctbl % 2 ^ 16)))

-- The objects for those of the nodes that are logged in and registered.
abbrev pub user_object : ℕ → Connection → List ℕ
user_object uid c =
    be16 hl_userlist_entry
    ++ be16 (length c.nickname + 8)
    ++ be16 uid
    ++ be16 c.icon
    ++ be16 c.status
    ++ be16 (length c.nickname)
    ++ c.nickname

unfoldable pub listed : Chain ℕ Connection → List (List ℕ)
listed [] = []
listed ((uid, c) ∷ nodes) =
    let rest = listed nodes in if c.cstate == cstate_li then user_object uid c ∷ rest else rest

-- What holds of each value that is found holds of each node.
found-All :
    (P : Connection → Type 0) (nodes : Chain ℕ Connection)
    → ((q : ℕ) → times q nodes ≤ 1)
    → ((q : ℕ) (c : Connection) → find q nodes ≡ some c → P c)
    → All (λ e. P e.1) nodes
unfolding find times
found-All P [] few h = tt
found-All P (e ∷ nodes) few h = (
  h e.0 e.1 (ground arith),
  found-All P nodes (λ q. omega (arith, few q))
      (λ q c found. h q c (ground (arith, found, few q, find-eq-none q nodes))),
)

-- The reply has the objects of the nodes behind those that it had.
record HasListed (t : TransactionOut) (nodes : Chain ℕ Connection) (r : Option TransactionOut)
    : Type 0 where
  reply : TransactionOut
  built : r ≡ some reply
  objects : reply.iov ≡ t.iov ++ listed nodes

abbrev with_user : TransactionOut → ℕ → Connection → TransactionOut
with_user t uid c = record t {
  iov = t.iov ++ user_object uid c ∷ [];
  length = (t.length + 4 + (length c.nickname + 8)) % 2 ^ 32;
  obj_count = t.obj_count + 1;
}

userlist_iterator-listed :
    (t : TransactionOut) (uid : ℕ) (c : Connection)
    → t.obj_count < t.max_objects
    → length c.nickname < 2 ^ 15
    → (c.cstate == cstate_li) ≡ true
    → userlist_iterator uid c (some t) ≡ (some (with_user t uid c), true)
unfolding userlist_iterator add_object
userlist_iterator-listed t uid c free short here =
    let l : length c.nickname % 2 ^ 16 ≡ length c.nickname = omega (arith, short) in
    let fits = lt→ltb (length c.nickname) (2 ^ 15) short in
    let room = lt→ltb t.obj_count t.max_objects free in
    let buf = ulentry uid c (length c.nickname) in
    let size : length buf ≡ length c.nickname + 8 =
      omega (arith, ap (length {A = ℕ}) (take-all c.nickname)) in
    let whole : take (length c.nickname + 8) buf ≡ buf =
      ap (λ n. take n buf) (sym size) ∙ take-all buf in
    rw (here, l, fits, room, whole, take-all c.nickname) refl

userlist_iterator-other :
    (t : TransactionOut) (uid : ℕ) (c : Connection)
    → (c.cstate == cstate_li) ≡ false
    → userlist_iterator uid c (some t) ≡ (some t, true)
unfolding userlist_iterator
userlist_iterator-other t uid c other = rw other refl

listed_in :
    (uid : ℕ) (c : Connection) (nodes : Chain ℕ Connection)
    → (c.cstate == cstate_li) ≡ true
    → listed ((uid, c) ∷ nodes) ≡ user_object uid c ∷ listed nodes
unfolding listed
listed_in uid c nodes here = rw here refl

listed_out :
    (uid : ℕ) (c : Connection) (nodes : Chain ℕ Connection)
    → (c.cstate == cstate_li) ≡ false
    → listed ((uid, c) ∷ nodes) ≡ listed nodes
unfolding listed
listed_out uid c nodes other = rw other refl

iterate_chain-HasListed :
    (nodes : Chain ℕ Connection) (t : TransactionOut)
    → t.obj_count + length nodes ≤ t.max_objects
    → All (λ e. length e.1.nickname < 2 ^ 15) nodes
    → HasListed t nodes (iterate_chain userlist_iterator nodes (some t)).0
unfolding iterate_chain listed
iterate_chain-HasListed [] t room short = record {
  reply = t;
  built = refl;
  objects = sym (append-nil t.iov);
}
iterate_chain-HasListed ((uid, c) ∷ nodes) t room short =
    elim (Bool-cases (c.cstate == cstate_li)) [
      | inl here ↦
          let step = userlist_iterator-listed t uid c (omega arith) short.0 here in
          let r = iterate_chain-HasListed nodes (with_user t uid c) (omega arith) short.1 in
          record {
            reply = r.reply;
            built =
                ap
                  (λ (x : Option TransactionOut × Bool).
                    (go_on (iterate_chain userlist_iterator nodes) x).0)
                  step
                ∙ r.built;
            objects =
                r.objects
                ∙ append_assoc t.iov (user_object uid c ∷ []) (listed nodes)
                ∙ ap (λ x. t.iov ++ x) (sym (listed_in uid c nodes here));
          }
      | inr other ↦
          let step = userlist_iterator-other t uid c other in
          let r = iterate_chain-HasListed nodes t (omega arith) short.1 in
          record {
            reply = r.reply;
            built =
                ap
                  (λ (x : Option TransactionOut × Bool).
                    (go_on (iterate_chain userlist_iterator nodes) x).0)
                  step
                ∙ r.built;
            objects = r.objects ∙ ap (λ x. t.iov ++ x) (sym (listed_out uid c nodes other));
          }
    ]

-- On a well-formed table with fewer than 2 ^ 16 connections whose nicknames are shorter than
-- 2 ^ 15 bytes, cm_build_userlist answers a reply with one object for each connection that is
-- logged in and registered, with its descriptor, icon, status and nickname, and with no other
-- object; `nodes` are the connections of the table, each once.
pub build_userlist_lem :
    (t : TransactionIn) (ctbl : Connections)
    → IsWellFormed ctbl
    → size ctbl < 2 ^ 16
    → ((q : ℕ) (c : Connection) → view ctbl q ≡ some c → length c.nickname < 2 ^ 15)
    → (nodes : Chain ℕ Connection) × (reply : TransactionOut) × ((q : ℕ)
        → (find q nodes ≡ view ctbl q) × (times q nodes ≤ 1))
      × (build_userlist t ctbl ≡ some reply)
      × (reply.iov ≡ listed nodes)
unfolding build_userlist reply_create
build_userlist_lem t ctbl w few short =
    let (nodes, entries, sized, walk) = iterate_lem ctbl w in
    let room : size ctbl % 2 ^ 16 ≡ size ctbl = omega (arith, few) in
    let all_short =
      found-All (λ c. length c.nickname < 2 ^ 15) nodes (λ q. (entries q).1)
        (λ q c e. short q c (sym (entries q).0 ∙ e)) in
    let r =
      iterate_chain-HasListed nodes (reply_create t 0 (size ctbl % 2 ^ 16))
        (omega (arith, sized, room)) all_short in
    (
      nodes,
      r.reply,
      entries,
      walk (Option TransactionOut) userlist_iterator (some (reply_create t 0 (size ctbl % 2 ^ 16)))
          ∙ r.built,
      r.objects,
    )

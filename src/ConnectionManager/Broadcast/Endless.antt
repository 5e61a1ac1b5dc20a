-- ===== src/ConnectionManager/Broadcast/Endless.antt =====
-- The walk of `broadcast_iterator` along a bucket with two receivers.
use hotwired.Collection.Bucket.{Chain, find, take_out}
use hotwired.Collection.Keys.{collection_key}
use hotwired.Collection.Through.{patch, write_through}
use hotwired.Collection.{lookup, slot}
use hotwired.ConnectionManager.{Connection, Connections, get_taskno, on_connection}
use mathlib.Core.Path.{subst}
use hotwired.Prelude.{
  get_or-set, ℕ, zero, suc, ◌+◌, ◌-◌, ◌%◌, ◌^◌, ◌<◌, ◌≡◌, refl, sym, ap, ◌∙◌, true, false, Option,
  none, some, List, [], ◌∷◌, length, get_or, set, length-set, ◌==◌, ==_iff, arith,
}
use hotwired.ConnectionManager.Broadcast.{first, next_of, receives, broadcast_iterator, walk_bucket}

abbrev numbered : Connection → Connection
numbered c = record c { taskno = (c.taskno + 1) % 2 ^ 32 }

-- A bucket whose first two nodes are receivers.
pub record TwoReceivers (uid : ℕ) (ctbl : Connections) (i x y : ℕ) : Type 0 where
  pub cx : Connection
  pub cy : Connection
  pub rest : Chain ℕ Connection
  pub inside : i < length ctbl.buckets
  pub home_x : slot x ctbl.n_buckets ≡ i
  pub home_y : slot y ctbl.n_buckets ≡ i
  pub bucket : get_or ctbl.buckets i [] ≡ (x, cx) ∷ (y, cy) ∷ rest
  pub apart : (x == y) ≡ false
  pub takes_x : receives uid x cx ≡ true
  pub takes_y : receives uid y cy ≡ true

-- The table behind `cm_get_taskno` of a connection that `take_out` finds: its node is in front.
abbrev fronted : Connections → ℕ → Chain ℕ Connection → Connections
fronted ctbl i c = record ctbl { buckets = set ctbl.buckets i c }

abbrev served : ℕ → Connections × Option Connection → Connections × ℕ
served y r = elim r.1 [
  | none ↦ (r.0, 2 ^ 32 - 1)
  | some c ↦ (write_through r.0 y numbered, c.taskno)
]

lookup-fronted :
    (ctbl : Connections) (y : ℕ) (c : Connection) (rest : Chain ℕ Connection)
    → take_out y (get_or ctbl.buckets (slot y ctbl.n_buckets) []) ≡ some ((y, c), rest)
    → lookup ctbl y ≡ (fronted ctbl (slot y ctbl.n_buckets) ((y, c) ∷ rest), some c)
unfolding lookup
lookup-fronted ctbl y c rest e = rw (e, lookup) refl

get_taskno-served : (ctbl : Connections) (y : ℕ) → get_taskno ctbl y ≡ served y (lookup ctbl y)
unfolding get_taskno on_connection
get_taskno-served ctbl y = refl

get_taskno-fronted :
    (ctbl : Connections) (y : ℕ) (c : Connection) (rest : Chain ℕ Connection)
    → take_out y (get_or ctbl.buckets (slot y ctbl.n_buckets) []) ≡ some ((y, c), rest)
    → (get_taskno ctbl y).0
      ≡ write_through (fronted ctbl (slot y ctbl.n_buckets) ((y, c) ∷ rest)) y numbered
get_taskno-fronted ctbl y c rest e =
    ap (λ (r : Connections × ℕ). r.0)
      (get_taskno-served ctbl y ∙ ap (served y) (lookup-fronted ctbl y c rest e))

patch_front :
    (y : ℕ) (c : Connection) (rest : Chain ℕ Connection)
    → patch y numbered ((y, c) ∷ rest) ≡ (y, numbered c) ∷ rest
unfolding patch
patch_front y c rest = rw ((==_iff y y).1 refl) refl

bucket_behind :
    (ctbl : Connections) (y : ℕ) (c : Connection) (rest : Chain ℕ Connection)
    → slot y ctbl.n_buckets < length ctbl.buckets
    → get_or
        (write_through (fronted ctbl (slot y ctbl.n_buckets) ((y, c) ∷ rest)) y numbered).buckets
        (slot y ctbl.n_buckets)
        []
      ≡ (y, numbered c) ∷ rest
unfolding write_through
bucket_behind ctbl y c rest h =
    let i = slot y ctbl.n_buckets in
    let d = (y, c) ∷ rest in
    let here : get_or (set ctbl.buckets i d) i [] ≡ d =
      get_or-set ctbl.buckets i i d [] h ∙ rw ((==_iff i i).1 refl) refl in
    get_or-set (set ctbl.buckets i d) i i (patch y numbered (get_or (set ctbl.buckets i d) i [])) []
      (omega (arith, h, length-set ctbl.buckets i d))
    ∙ rw ((==_iff i i).1 refl) (ap (patch y numbered) here ∙ patch_front y c rest)

-- The first two nodes of the bucket, with the second one in front.
take_second :
    (x y : ℕ) (cx cy : Connection) (rest : Chain ℕ Connection)
    → (y == x) ≡ false
    → take_out y ((x, cx) ∷ (y, cy) ∷ rest) ≡ some ((y, cy), (x, cx) ∷ rest)
unfolding take_out
take_second x y cx cy rest h = rw (h, (==_iff y y).1 refl) refl

find_second :
    (x y : ℕ) (cx cy : Connection) (rest : Chain ℕ Connection)
    → (y == x) ≡ false
    → find y ((x, cx) ∷ (y, cy) ∷ rest) ≡ some cy
unfolding find
find_second x y cx cy rest h = rw (h, (==_iff y y).1 refl) refl

swapped : (x y : ℕ) → (x == y) ≡ false → (y == x) ≡ false
swapped x y h = ground arith

-- What a message to a receiver changes: its bucket.
record Ticked (ctbl : Connections) (i k : ℕ) (c : Connection) (rest : Chain ℕ Connection)
    (new : Connections) : Type 0 where
  same_buckets : new.n_buckets ≡ ctbl.n_buckets
  same_length : length new.buckets ≡ length ctbl.buckets
  bucket_now : get_or new.buckets i [] ≡ (k, numbered c) ∷ rest

tick :
    (ctbl : Connections) (i k : ℕ) (c : Connection) (rest : Chain ℕ Connection)
    → i < length ctbl.buckets
    → slot k ctbl.n_buckets ≡ i
    → take_out k (get_or ctbl.buckets i []) ≡ some ((k, c), rest)
    → Ticked ctbl i k c rest (get_taskno ctbl k).0
unfolding write_through
tick ctbl i k c rest inside home e =
    let s = slot k ctbl.n_buckets in
    let here : s < length ctbl.buckets = omega (arith, home, inside) in
    let front = set ctbl.buckets s ((k, c) ∷ rest) in
    let moved =
      get_taskno-fronted ctbl k c rest (ap (λ j. take_out k (get_or ctbl.buckets j [])) home ∙ e) in
    subst (Ticked ctbl i k c rest) (sym moved) (record {
      same_buckets = refl;
      same_length =
          length-set front s (patch k numbered (get_or front s []))
          ∙ length-set ctbl.buckets s ((k, c) ∷ rest);
      bucket_now =
          ap (λ j. get_or (write_through (fronted ctbl s ((k, c) ∷ rest)) k numbered).buckets j [])
            (sym home)
          ∙ bucket_behind ctbl k c rest here;
    })

take_first :
    (x : ℕ) (cx : Connection) (rest : Chain ℕ Connection)
    → take_out x ((x, cx) ∷ rest) ≡ some ((x, cx), rest)
unfolding take_out
take_first x cx rest = rw ((==_iff x x).1 refl) refl

find_first :
    (x : ℕ) (cx : Connection) (rest : Chain ℕ Connection) → find x ((x, cx) ∷ rest) ≡ some cx
unfolding find
find_first x cx rest = rw ((==_iff x x).1 refl) refl

-- A message to the first receiver leaves the order, and one to the second puts it in front.
tick_first :
    (uid : ℕ) (ctbl : Connections) (i x y : ℕ)
    → TwoReceivers uid ctbl i x y
    → TwoReceivers uid (get_taskno ctbl x).0 i x y
tick_first uid ctbl i x y t =
    let k =
      tick ctbl i x t.cx ((y, t.cy) ∷ t.rest) t.inside t.home_x
        (ap (take_out x) t.bucket ∙ take_first x t.cx ((y, t.cy) ∷ t.rest)) in
    record {
      cx = numbered t.cx;
      cy = t.cy;
      rest = t.rest;
      inside = omega (arith, t.inside, k.same_length);
      home_x = ap (slot x) k.same_buckets ∙ t.home_x;
      home_y = ap (slot y) k.same_buckets ∙ t.home_y;
      bucket = k.bucket_now;
      apart = t.apart;
      takes_x = t.takes_x;
      takes_y = t.takes_y;
    }

tick_second :
    (uid : ℕ) (ctbl : Connections) (i x y : ℕ)
    → TwoReceivers uid ctbl i x y
    → TwoReceivers uid (get_taskno ctbl y).0 i y x
tick_second uid ctbl i x y t =
    let k =
      tick ctbl i y t.cy ((x, t.cx) ∷ t.rest) t.inside t.home_y
        (ap (take_out y) t.bucket ∙ take_second x y t.cx t.cy t.rest (swapped x y t.apart)) in
    record {
      cx = numbered t.cy;
      cy = t.cx;
      rest = t.rest;
      inside = omega (arith, t.inside, k.same_length);
      home_x = ap (slot y) k.same_buckets ∙ t.home_y;
      home_y = ap (slot x) k.same_buckets ∙ t.home_x;
      bucket = k.bucket_now;
      apart = swapped x y t.apart;
      takes_x = t.takes_y;
      takes_y = t.takes_x;
    }

receiver_step :
    (uid : ℕ) (ctbl : Connections) (y : ℕ) (c : Connection)
    → receives uid y c ≡ true
    → broadcast_iterator uid ctbl y c ≡ ((get_taskno ctbl y).0, true)
unfolding broadcast_iterator
receiver_step uid ctbl y c h = rw h refl

next_of_front :
    (y x : ℕ) (cy cx : Connection) (rest : Chain ℕ Connection)
    → next_of y ((y, cy) ∷ (x, cx) ∷ rest) ≡ some x
unfolding next_of
next_of_front y x cy cx rest = rw ((==_iff y y).1 refl) refl

from_second :
    (n uid : ℕ) (ctbl : Connections) (i x y : ℕ) (written : List ℕ)
    → TwoReceivers uid ctbl i x y
    → walk_bucket n uid ctbl i (some y) written ≡ none
unfolding walk_bucket
from_second zero uid ctbl i x y written t = refl
from_second (suc n) uid ctbl i x y written t =
    let next = tick_second uid ctbl i x y t in
    let found : find y (get_or ctbl.buckets i []) ≡ some t.cy =
      ap (find y) t.bucket ∙ find_second x y t.cx t.cy t.rest (swapped x y t.apart) in
    let behind = ap (next_of y) next.bucket ∙ next_of_front y x next.cx next.cy next.rest in
    rw (found, receiver_step uid ctbl y t.cy t.takes_y, behind, walk_bucket)
      (from_second n uid (get_taskno ctbl y).0 i y x (y ∷ written) next)

-- Where the first two nodes of a bucket are receivers, the walk of cm_transaction_broadcast along
-- that bucket never ends: no number of steps suffices.
pub walk_bucket_endless :
    (n uid : ℕ) (ctbl : Connections) (i x y : ℕ) (written : List ℕ)
    → TwoReceivers uid ctbl i x y
    → walk_bucket n uid ctbl i (first (get_or ctbl.buckets i [])) written ≡ none
unfolding walk_bucket
walk_bucket_endless zero uid ctbl i x y written t = refl
walk_bucket_endless (suc n) uid ctbl i x y written t =
    let next = tick_first uid ctbl i x y t in
    let start : first (get_or ctbl.buckets i []) ≡ some x = ap first t.bucket in
    let found : find x (get_or ctbl.buckets i []) ≡ some t.cx =
      ap (find x) t.bucket ∙ find_first x t.cx ((y, t.cy) ∷ t.rest) in
    let behind = ap (next_of x) next.bucket ∙ next_of_front x y next.cx next.cy next.rest in
    rw (start, found, receiver_step uid ctbl x t.cx t.takes_x, behind, walk_bucket)
      (from_second n uid (get_taskno ctbl x).0 i x y (x ∷ written) next)

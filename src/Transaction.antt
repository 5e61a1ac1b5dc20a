-- ===== src/Transaction.antt =====
-- Transaction.c: the messages of the protocol. Words are kept in host order and turned into bytes
-- where the code copies them; an object's data is the list of the bytes that its pointer and
-- length delimit.
pub mod Objects
pub mod PathName
pub mod Encoding
pub mod RoundTrip
use hotwired.Prelude.{
  ℕ, zero, suc, ◌+◌, ◌-◌, ◌*◌, ◌/◌, ◌%◌, ◌^◌, Bool, ◌||◌, Option, none, some, List, [], ◌∷◌, ◌++◌,
  map, length, take, drop, get_elem?, ltb, ◌==◌, if◌then◌else◌,
}
use hotwired.Prelude.Bytes.{be16, be32, get16, get32}
use hotwired.Socket.{Socket, read_all}
use mathlib.Core.List.{flatten}

pub record TransactionObject : Type 0 where
  pub obj_id : ℕ
  pub obj_len : ℕ
  pub obj_data : List ℕ

pub record TransactionIn : Type 0 where
  pub t_class : ℕ
  pub t_id : ℕ
  pub t_taskno : ℕ
  pub t_error : ℕ
  pub object : List TransactionObject

-- `iov` holds the buffers of the objects, the entries from 7 on.
pub record TransactionOut : Type 0 where
  pub t_class : ℕ
  pub t_id : ℕ
  pub t_taskno : ℕ
  pub t_error : ℕ
  pub length : ℕ
  pub obj_count : ℕ
  pub max_objects : ℕ
  pub iov : List (List ℕ)

abbrev pub max_txn_size : ℕ
max_txn_size = 262144

abbrev pub max_txn_objs : ℕ
max_txn_objs = 64

abbrev pub with_object :
    TransactionObject → Option (List TransactionObject) → Option (List TransactionObject)
with_object o none = none
with_object o (some os) = some (o ∷ os)

-- The loop of `transaction_read` over the objects; the code's `length` is the number of bytes left.
unfoldable pub parse_objects : ℕ → List ℕ → Option (List TransactionObject)
parse_objects zero bptr = some []
parse_objects (suc n) bptr =
    let obj_id = get16 bptr in
    let obj_len = get16 (drop 2 bptr) in
    let body = drop 4 bptr in
    let rest =
      with_object (record { obj_id = obj_id; obj_len = obj_len; obj_data = take obj_len body })
        (parse_objects n (drop obj_len body)) in
    if ltb (length bptr) 4 then none else if ltb (length body) obj_len then none else rest

-- The words of the header, and the objects.
abbrev pub make_in : List ℕ → List TransactionObject → TransactionIn
make_in header objects = record {
  t_class = get16 header;
  t_id = get16 (drop 2 header);
  t_taskno = get32 (drop 4 header);
  t_error = get32 (drop 8 header);
  object = objects;
}

-- Behind the sanity limits: the body, of `size` bytes, in which `max_objects` objects are found.
unfoldable pub read_body : List ℕ → ℕ → ℕ → Socket → Option (TransactionIn × Socket)
read_body header size max_objects s = elim (read_all size s) [
  | none ↦ none
  | some r ↦ elim (parse_objects max_objects r.0) [
    | none ↦ none
    | some objects ↦ some (make_in header objects, r.1)
  ]
]

-- From the sanity limits on.
unfoldable pub read_checked : List ℕ → ℕ → ℕ → Socket → Option (TransactionIn × Socket)
read_checked header size max_objects s =
    if ltb max_txn_size size || ltb max_txn_objs max_objects
    then none
    else if max_objects == 0 || size == 0
    then some (make_in header [], s)
    else read_body header size max_objects s

-- Behind the header. The subtraction of 2 wraps in 32 bits.
unfoldable pub read_rest : List ℕ → Socket → Option (TransactionIn × Socket)
read_rest header s =
    read_checked header ((get32 (drop 12 header) + 2 ^ 32 - 2) % 2 ^ 32) (get16 (drop 20 header)) s

-- `transaction_read`: the message and what is left on the socket, or `none` for NULL.
unfoldable pub read : Socket → Option (TransactionIn × Socket)
read s = elim (read_all 22 s) [ none ↦ none | some r ↦ read_rest r.0 r.1 ]

-- `transaction_create`. The task number is not set before the message is written: it is an argument.
unfoldable pub create : ℕ → ℕ → ℕ → TransactionOut
create garbage tid objects = record {
  t_class = 0;
  t_id = tid;
  t_taskno = garbage;
  t_error = 0;
  length = 2;
  obj_count = 0;
  max_objects = objects;
  iov = [];
}

unfoldable pub reply_create : TransactionIn → ℕ → ℕ → TransactionOut
reply_create t errorcode objects = record {
  t_class = 1;
  t_id = 0;
  t_taskno = t.t_taskno;
  t_error = errorcode;
  length = 2;
  obj_count = 0;
  max_objects = objects;
  iov = [];
}

-- `transaction_add_object`; the buffer holds `len` bytes or more.
unfoldable pub add_object : TransactionOut → ℕ → List ℕ → ℕ → TransactionOut
add_object t type buf len =
    if ltb t.obj_count t.max_objects
    then record t {
      iov = t.iov ++ (be16 type ++ be16 len ++ take len buf) ∷ [];
      length = (t.length + 4 + len) % 2 ^ 32;
      obj_count = t.obj_count + 1;
    }
    else t

unfoldable pub add_int16 : TransactionOut → ℕ → ℕ → TransactionOut
add_int16 t type value = add_object t type (be16 value) 2

unfoldable pub add_int32 : TransactionOut → ℕ → ℕ → TransactionOut
add_int32 t type value = add_object t type (be32 value) 4

-- The length of a string is an `int` that is passed as a `uint16_t`.
unfoldable pub add_string : TransactionOut → ℕ → List ℕ → TransactionOut
add_string t type string = add_object t type string (length string % 2 ^ 16)

-- `transaction_write`: the bytes that are written. A message that is no reply first gets the number
-- that `cm_get_taskno` returns, as a `uint32_t`: the test `taskno < 0` never holds of it.
unfoldable pub write : ℕ → TransactionOut → List ℕ
write taskno t =
    be16 t.t_class
    ++ be16 t.t_id
    ++ be32 (if t.t_class == 0 then taskno else t.t_taskno)
    ++ be32 t.t_error
    ++ be32 t.length
    ++ be32 t.length
    ++ be16 t.obj_count
    ++ flatten t.iov

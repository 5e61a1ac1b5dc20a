-- ===== src/Transaction/RoundTrip.antt =====
-- A message that is built, written and read arrives as it was meant.
use hotwired.Prelude.{
  ℕ, ◌+◌, ◌-◌, ◌%◌, ◌^◌, ◌≤◌, ◌<◌, ◌≡◌, refl, ap, sym, ◌∙◌, false, Option, some, List, [], ◌∷◌,
  ◌++◌, length, ltb, ◌==◌, if◌then◌else◌, arith, All,
}
use hotwired.Prelude.Bytes.{be16, be32, get16, get32}
use hotwired.Socket.{Socket, read_all}
use hotwired.Socket.Reassembly.{IsOpen, read_exact}
use hotwired.Transaction.{
  TransactionObject, TransactionIn, TransactionOut, parse_objects, make_in, read_body, read_checked,
  read_rest, read, write, max_txn_size, max_txn_objs,
}
use mathlib.Core.List.{flatten, append_assoc, append-nil}
use hotwired.Transaction.Encoding.{
  IsObject, encode_all, body_size, length-encode_all, parse_objects-encode_all, add_all,
  add_all-Added,
}

-- The first 22 bytes of a message.
abbrev header : ℕ → ℕ → ℕ → ℕ → ℕ → ℕ → List ℕ
header cl id task error size count =
    be16 cl ++ be16 id ++ be32 task ++ be32 error ++ be32 size ++ be32 size ++ be16 count

abbrev pub message : ℕ → ℕ → ℕ → ℕ → List TransactionObject → TransactionIn
message cl id task error os = record {
  t_class = cl;
  t_id = id;
  t_taskno = task;
  t_error = error;
  object = os;
}

-- The read ends well in the message, and leaves `rest` to arrive.
abbrev pub IsRead : TransactionIn → List ℕ → Option (TransactionIn × Socket) → Type 0
IsRead t rest r = (s : Socket) × (r ≡ some (t, s)) × (flatten s ≡ rest) × IsOpen s

module _ (cl id task error : ℕ) (cl_fits : cl < 2 ^ 16) (id_fits : id < 2 ^ 16)
    (task_fits : task < 2 ^ 32) (error_fits : error < 2 ^ 32) where
  make_in-header :
      (size count : ℕ) (os : List TransactionObject)
      → make_in (header cl id task error size count) os ≡ message cl id task error os
  make_in-header size count os =
      let c : get16 (be16 cl) ≡ cl = omega arith in
      let i : get16 (be16 id) ≡ id = omega arith in
      let t : get32 (be32 task) ≡ task = omega arith in
      let e : get32 (be32 error) ≡ error = omega arith in
      λ k. record { t_class = c k; t_id = i k; t_taskno = t k; t_error = e k; object = os }

  read_body-message :
      (size : ℕ) (os : List TransactionObject) (s : Socket) (rest : List ℕ)
      → All IsObject os
      → IsOpen s
      → flatten s ≡ encode_all os ++ rest
      → let hd = header cl id task error size (length os) in
        IsRead (message cl id task error os) rest (read_body hd (body_size os) (length os) s)
  unfolding read_body
  read_body-message size os s rest h o e =
      let hd = header cl id task error size (length os) in
      let (s', run, left, o') = read_exact (encode_all os) rest s o e in
      let run' : read_all (body_size os) s ≡ some (encode_all os, s') =
        ap (λ n. read_all n s) (sym (length-encode_all os h)) ∙ run in
      let parsed : parse_objects (length os) (encode_all os) ≡ some os =
        ap (parse_objects (length os)) (sym (append-nil (encode_all os)))
        ∙ parse_objects-encode_all os [] h in
      (
        s',
        rw (run', read_body)
            (rw parsed (ap (λ m. some (m, s')) (make_in-header size (length os) os))),
        left,
        o',
      )

  read_checked-message :
      (size : ℕ) (os : List TransactionObject) (s : Socket) (rest : List ℕ)
      → All IsObject os
      → length os ≤ max_txn_objs
      → body_size os ≤ max_txn_size
      → IsOpen s
      → flatten s ≡ encode_all os ++ rest
      → let hd = header cl id task error size (length os) in
        IsRead (message cl id task error os) rest (read_checked hd (body_size os) (length os) s)
  unfolding read_checked body_size encode_all
  read_checked-message size [] s rest h few small o e =
      (s, ap (λ m. some (m, s)) (make_in-header size 0 []), e, o)
  read_checked-message size (p ∷ os) s rest h few small o e =
      let n = length (p ∷ os) in
      let short : ltb max_txn_size (body_size (p ∷ os)) ≡ false = ground arith in
      let few' : ltb max_txn_objs n ≡ false = ground arith in
      let some_object : n == 0 ≡ false = ground arith in
      let some_byte : body_size (p ∷ os) == 0 ≡ false = ground arith in
      rw (short, few', some_object, some_byte) (read_body-message size (p ∷ os) s rest h o e)

-- A message as `transaction_create` and `transaction_reply_create` leave it.
pub record IsNew (t : TransactionOut) : Type 0 where
  pub size : t.length ≡ 2
  pub count : t.obj_count ≡ 0
  pub buffers : t.iov ≡ []
  pub class_fits : t.t_class < 2 ^ 16
  pub id_fits : t.t_id < 2 ^ 16
  pub task_fits : t.t_taskno < 2 ^ 32
  pub error_fits : t.t_error < 2 ^ 32

abbrev pub task_of : ℕ → TransactionOut → ℕ
task_of taskno t = if t.t_class == 0 then taskno else t.t_taskno

module _ (t : TransactionOut) (os : List TransactionObject) (taskno : ℕ) (new : IsNew t)
    (task_fits : taskno < 2 ^ 32) (objects : All IsObject os) (room : length os ≤ t.max_objects)
    (small : body_size os ≤ max_txn_size) where
  -- The bytes of a message that is built from `os`.
  write-header :
      write taskno (add_all t os)
      ≡ header t.t_class t.t_id (task_of taskno t) t.t_error (2 + body_size os) (length os)
        ++ encode_all os
  unfolding write flatten
  write-header =
      let room' : t.obj_count + length os ≤ t.max_objects = omega (arith, new.count) in
      let a = add_all-Added t os objects room' (omega (arith, new.size)) in
      let sized : (add_all t os).length ≡ 2 + body_size os = omega (arith, a.sized, new.size) in
      let counted : (add_all t os).obj_count ≡ length os = omega (arith, a.counted, new.count) in
      let buffers : flatten (add_all t os).iov ≡ encode_all os =
        a.buffers ∙ ap (λ bs. flatten bs ++ encode_all os) new.buffers in
      rw (a.header.0, a.header.1, a.header.2, a.header.3, sized, counted, buffers) refl

  -- A new message to which objects are added, within its room and the limits of the reader, and
  -- which is then written, is read as one message with the same class, id, error and objects; its
  -- task number is the reply's own, or the one that the connection gave. The pieces in which the
  -- bytes arrive do not matter, and what follows on the socket is left for the next read.
  pub read-write :
      (s : Socket) (rest : List ℕ)
      → length os ≤ max_txn_objs
      → IsOpen s
      → flatten s ≡ write taskno (add_all t os) ++ rest
      → IsRead (message t.t_class t.t_id (task_of taskno t) t.t_error os) rest (read s)
  unfolding read read_rest
  read-write s rest few o e =
      let hd =
        header t.t_class t.t_id (task_of taskno t) t.t_error (2 + body_size os) (length os) in
      let (s1, run, left, o1) =
        read_exact hd (encode_all os ++ rest) s o
          (e ∙ ap (λ bs. bs ++ rest) write-header ∙ append_assoc hd (encode_all os) rest) in
      let sized : (get32 (be32 (2 + body_size os)) + 2 ^ 32 - 2) % 2 ^ 32 ≡ body_size os =
        omega arith in
      let counted : get16 (be16 (length os)) ≡ length os = omega arith in
      rw (run, read)
        (rw (sized, counted)
          (read_checked-message t.t_class t.t_id (task_of taskno t) t.t_error new.class_fits
            new.id_fits (ground (arith, new.task_fits)) new.error_fits (2 + body_size os) os s1 rest
            objects few small o1 left))

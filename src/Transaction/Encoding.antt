-- ===== src/Transaction/Encoding.antt =====
-- How the objects of a message are laid out, and what `transaction_add_object` leaves behind.
use hotwired.Prelude.{
  take-all, ℕ, suc, ◌+◌, ◌%◌, ◌^◌, ◌≤◌, ◌<◌, ◌≡◌, refl, ap, sym, ◌∙◌, false, some, List, [], ◌∷◌,
  ◌++◌, length, take, drop, lt→ltb, length-append, take-append_self, ltb, arith, All,
}
use hotwired.Prelude.Bytes.{be16, get16}
use hotwired.Transaction.{TransactionObject, TransactionOut, parse_objects, with_object, add_object}
use mathlib.Core.List.{flatten, append_assoc, append-nil}

-- An object as the caller of `transaction_add_object` describes it.
abbrev pub IsObject : TransactionObject → Type 0
IsObject o = (o.obj_id < 2 ^ 16) × (o.obj_len < 2 ^ 16) × (length o.obj_data ≡ o.obj_len)

abbrev pub encode : TransactionObject → List ℕ
encode o = be16 o.obj_id ++ be16 o.obj_len ++ o.obj_data

unfoldable pub encode_all : List TransactionObject → List ℕ
encode_all [] = []
encode_all (o ∷ os) = encode o ++ encode_all os

-- The loop takes one encoded object off the front.
parse_objects-step :
    (n : ℕ) (o : TransactionObject) (bs : List ℕ)
    → IsObject o
    → parse_objects (suc n) (encode o ++ bs) ≡ with_object o (parse_objects n bs)
unfolding parse_objects
parse_objects-step n o bs h =
    let id : get16 (be16 o.obj_id) ≡ o.obj_id = omega arith in
    let len : get16 (be16 o.obj_len) ≡ o.obj_len = omega arith in
    let (t, d) = take-append_self o.obj_data bs in
    let head : ltb (length (encode o ++ bs)) 4 ≡ false = ground arith in
    let body : ltb (length (o.obj_data ++ bs)) o.obj_len ≡ false =
      ground (arith, length-append o.obj_data bs) in
    let t' : take o.obj_len (o.obj_data ++ bs) ≡ o.obj_data =
      ap (λ k. take k (o.obj_data ++ bs)) (sym h.2) ∙ t in
    let d' : drop o.obj_len (o.obj_data ++ bs) ≡ bs =
      ap (λ k. drop k (o.obj_data ++ bs)) (sym h.2) ∙ d in
    rw (id, len, head, body, t', d') refl

pub parse_objects-encode_all :
    (os : List TransactionObject) (rest : List ℕ)
    → All IsObject os
    → parse_objects (length os) (encode_all os ++ rest) ≡ some os
unfolding encode_all
parse_objects-encode_all [] rest h = unfold parse_objects in refl
parse_objects-encode_all (o ∷ os) rest h =
    ap (parse_objects (suc (length os))) (append_assoc (encode o) (encode_all os) rest)
    ∙ parse_objects-step (length os) o (encode_all os ++ rest) h.0
    ∙ ap (with_object o) (parse_objects-encode_all os rest h.1)

-- The code builds a message by one `transaction_add_object` for each object.
unfoldable pub add_all : TransactionOut → List TransactionObject → TransactionOut
add_all t [] = t
add_all t (o ∷ os) = add_all (add_object t o.obj_id o.obj_data o.obj_len) os

unfoldable pub body_size : List TransactionObject → ℕ
body_size [] = 0
body_size (o ∷ os) = 4 + o.obj_len + body_size os

pub length-encode_all :
    (os : List TransactionObject) → All IsObject os → length (encode_all os) ≡ body_size os
unfolding encode_all body_size
length-encode_all [] h = refl
length-encode_all (o ∷ os) h =
    omega (arith, length-append (encode o) (encode_all os), length-encode_all os h.1)

-- What the additions leave of a message that had room for them.
pub record Added (t : TransactionOut) (os : List TransactionObject) (u : TransactionOut)
    : Type 0 where
  pub header :
      (u.t_class ≡ t.t_class)
      × (u.t_id ≡ t.t_id)
      × (u.t_taskno ≡ t.t_taskno)
      × (u.t_error ≡ t.t_error)
  pub sized : u.length ≡ t.length + body_size os
  pub counted : u.obj_count ≡ t.obj_count + length os
  pub buffers : flatten u.iov ≡ flatten t.iov ++ encode_all os

flatten-snoc : (xs : List (List ℕ)) (x : List ℕ) → flatten (xs ++ x ∷ []) ≡ flatten xs ++ x
unfolding flatten
flatten-snoc [] x = append-nil x
flatten-snoc (y ∷ xs) x = ap (◌++◌ y) (flatten-snoc xs x) ∙ sym (append_assoc y (flatten xs) x)

-- The message behind one addition.
abbrev grown : TransactionOut → TransactionObject → TransactionOut
grown t o = record t {
  iov = t.iov ++ encode o ∷ [];
  length = t.length + 4 + o.obj_len;
  obj_count = t.obj_count + 1;
}

add_object-grown :
    (t : TransactionOut) (o : TransactionObject)
    → IsObject o
    → t.obj_count < t.max_objects
    → t.length + 4 + o.obj_len < 2 ^ 32
    → add_object t o.obj_id o.obj_data o.obj_len ≡ grown t o
unfolding add_object
add_object-grown t o h room fits =
    let small : (t.length + 4 + o.obj_len) % 2 ^ 32 ≡ t.length + 4 + o.obj_len = omega arith in
    let whole : take o.obj_len o.obj_data ≡ o.obj_data =
      ap (λ k. take k o.obj_data) (sym h.2) ∙ take-all o.obj_data in
    rw (lt→ltb t.obj_count t.max_objects room, small, whole) refl

pub add_all-Added :
    (t : TransactionOut) (os : List TransactionObject)
    → All IsObject os
    → t.obj_count + length os ≤ t.max_objects
    → t.length + body_size os < 2 ^ 32
    → Added t os (add_all t os)
unfolding add_all encode_all body_size
add_all-Added t [] h room fits = record {
  header = (refl, refl, refl, refl);
  sized = omega arith;
  counted = omega arith;
  buffers = sym (append-nil (flatten t.iov));
}
add_all-Added t (o ∷ os) h room fits =
    let a = add_all-Added (grown t o) os h.1 (omega arith) (omega arith) in
    rw (add_object-grown t o h.0 (omega arith) (omega arith)) record {
      header = a.header;
      sized = omega (arith, a.sized);
      counted = omega (arith, a.counted);
      buffers =
          a.buffers
          ∙ ap (λ bs. bs ++ encode_all os) (flatten-snoc t.iov (encode o))
          ∙ append_assoc (flatten t.iov) (encode o) (encode_all os);
    }

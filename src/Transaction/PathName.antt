-- ===== src/Transaction/PathName.antt =====
-- `transaction_object_path` of Transaction.c: the list of names that a client sends, checked and
-- made into a path. Offsets and lengths are `int`s, and the length byte of a name is an `int8_t`.
pub mod Offsets
pub mod Safety
pub mod Accepts
use hotwired.Prelude.{
  ℕ, zero, suc, ◌+◌, ◌-◌, ◌*◌, ◌^◌, Bool, true, false, ◌&&◌, ◌||◌, Option, none, some, List, [],
  ◌∷◌, ◌++◌, length, take, drop, get_elem?, ltb, ◌==◌, if◌then◌else◌,
}
use hotwired.Prelude.Bytes.{get16}
use hotwired.Prelude.Texts.{text_at}
use hotwired.Prelude.Int.{ℤ, pos, negsuc, ◌+ℤ◌, ◌-ℤ◌, ltb_ℤ}
use hotwired.Transaction.{TransactionObject}

-- `null` is the NULL that refuses the path. `fault` is a read before the start of the object or a
-- `memcpy` of a negative length, which as a `size_t` is larger than the memory.
pub data PathResult : Type 0 where
  null fault : PathResult
  path : List ℕ → PathResult

pub data Check : Type 0 where
  refused strayed : Check
  passed : ℤ → Check

abbrev pub signed8 : ℕ → ℤ
signed8 b = if ltb b 128 then pos b else negsuc (255 - b)

-- `data[l]`, where the code has seen that the object does not end before.
abbrev pub byte_at : List ℕ → ℤ → Option ℕ
byte_at bytes (pos i) = get_elem? bytes i
byte_at bytes (negsuc i) = none

-- The bytes of the name that begins at `l`, which the code reads if its length is positive.
abbrev pub name_at : List ℕ → ℤ → ℤ → Option (List ℕ)
name_at bytes l (negsuc n) = some []
name_at bytes l (pos zero) = some []
name_at bytes (pos i) (pos (suc n)) = some (take (suc n) (drop i bytes))
name_at bytes (negsuc i) (pos (suc n)) = none

unfoldable pub has_slash : List ℕ → Bool
has_slash [] = false
has_slash (b ∷ bs) = b == b'/' || has_slash bs

abbrev pub is_dots : List ℕ → Bool
is_dots (a ∷ b ∷ []) = a == b'.' && b == b'.'
is_dots (a ∷ b ∷ c ∷ bs) = false
is_dots (a ∷ []) = false
is_dots [] = false

-- The tests on one name: `..`, and a slash in it.
abbrev pub is_refused : List ℕ → Bool
is_refused name = is_dots name || has_slash name

-- Pass 1, with `i` names to go: `bytes` are the `obj_len` bytes behind the number of names.
unfoldable pub check_names : ℕ → List ℕ → ℕ → ℤ → ℤ → Check
check_names zero bytes obj_len l ret_len = passed ret_len
check_names (suc i) bytes obj_len l ret_len = elim (byte_at bytes (l +ℤ pos 2)) [
  | none ↦ if ltb_ℤ (pos obj_len -ℤ l) (pos 3) then refused else strayed
  | some b ↦
      let entry_len = signed8 b in
      let rest =
        check_names i bytes obj_len (l +ℤ (entry_len +ℤ pos 3)) (ret_len +ℤ (entry_len +ℤ pos 1)) in
      if ltb_ℤ (pos obj_len -ℤ l) (pos 3)
      then refused
      else if ltb_ℤ (pos obj_len -ℤ l) (entry_len +ℤ pos 3)
      then refused
      else elim (name_at bytes (l +ℤ pos 3) entry_len) [
        | none ↦ strayed
        | some name ↦ if is_refused name then refused else rest
      ]
]

abbrev pub prepend : List ℕ → PathResult → PathResult
prepend name null = null
prepend name fault = fault
prepend name (path p) = path (name ++ b'/' ∷ p)

-- Pass 2, with `i` names to go from the pointer `data` on.
unfoldable pub copy_names : ℕ → List ℕ → PathResult
copy_names zero bytes = path []
copy_names (suc i) bytes = elim (get_elem? bytes 2) [
  | none ↦ fault
  | some b ↦
      let rest = prepend (take b (drop 3 bytes)) (copy_names i (drop (b + 3) bytes)) in
      if ltb b 128 then rest else fault
]

-- `for(i = 0; i < entries; i++)` for the `int16_t` that the two bytes are: no round for a count that
-- is negative then.
abbrev pub rounds : ℕ → ℕ
rounds entries = if ltb entries (2 ^ 15) then entries else 0

-- What the callers get is a C string, which ends at the first zero byte of the buffer.
abbrev pub as_text : PathResult → PathResult
as_text null = null
as_text fault = fault
as_text (path p) = path (text_at p)

unfoldable pub object_path : TransactionObject → PathResult
object_path o =
    let entries = get16 o.obj_data in
    let bytes = drop 2 o.obj_data in
    if ltb o.obj_len 2
    then null
    else if entries == 0
    then null
    else elim (check_names (rounds entries) bytes (o.obj_len - 2) (pos 0) (pos 0)) [
      | refused ↦ null
      | strayed ↦ fault
      | passed ret_len ↦ as_text (copy_names (rounds entries) bytes)
    ]

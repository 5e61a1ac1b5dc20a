-- ===== src/Transaction/Objects.antt =====
-- The objects of a message that was read: their integers and strings.
use Prim.Native.Nat.{bit_xor}
use mathlib.Core.Path.{ap₂}
use native.Mathlib.Nat.{zero-add}
use hotwired.Permissions
use hotwired.Permissions.{Permissions}
use hotwired.Prelude.{
  ◌*◌, get_or, ◌⊎◌, inl, inr, Bool-cases, take-all, ℕ, zero, suc, ◌+◌, ◌/◌, ◌%◌, ◌^◌, ◌<◌, ◌≡◌, ◌≢◌,
  refl, ap, ◌∙◌, true, Option, none, some, List, [], ◌∷◌, ◌++◌, map, length, take, ltb, leb, ◌==◌,
  ==_iff, if◌then◌else◌, arith, All,
}
use hotwired.Prelude.Bytes.{be16, be32, get16, get32, every, every_lem}
use hotwired.Transaction.{TransactionObject, TransactionIn, TransactionOut, add_object}

-- The loop of `transaction_object_index`, from the index `i` on; `none` is -1.
unfoldable pub index_from : ℕ → List TransactionObject → ℕ → Option ℕ
index_from i [] type = none
index_from i (o ∷ os) type = if o.obj_id == type then some i else index_from (i + 1) os type

unfoldable pub object_index : TransactionIn → ℕ → Option ℕ
object_index t type = index_from 0 t.object type

abbrev blank : TransactionObject
blank = record { obj_id = 0; obj_len = 0; obj_data = [] }

-- `t->object[objno]`, for an index that `transaction_object_index` answers.
unfoldable pub object_at : TransactionIn → ℕ → TransactionObject
object_at t objno = get_or t.object objno blank

unfoldable pub object_id : TransactionIn → ℕ → ℕ
object_id t objno = (object_at t objno).obj_id

unfoldable pub object_len : TransactionIn → ℕ → ℕ
object_len t objno = (object_at t objno).obj_len

unfoldable pub object_data : TransactionIn → ℕ → List ℕ
object_data t objno = (object_at t objno).obj_data

unfoldable pub id : TransactionIn → ℕ
id t = t.t_id

unfoldable pub taskno : TransactionIn → ℕ
taskno t = t.t_taskno

unfoldable pub object_count : TransactionIn → ℕ
object_count t = length t.object

unfoldable pub object_permissions : TransactionObject → Option Permissions
object_permissions o =
    if o.obj_len == 8 then some (Permissions.create_from_binary o.obj_data) else none

-- The fields of a `struct tm` that a time stamp takes; `localtime_r` is an argument.
pub record Tm : Type 0 where
  pub tm_sec : ℕ
  pub tm_min : ℕ
  pub tm_hour : ℕ
  pub tm_yday : ℕ
  pub tm_year : ℕ

unfoldable pub add_timestamp : (ℕ → Tm) → TransactionOut → ℕ → ℕ → TransactionOut
add_timestamp localtime t type timestamp =
    let tm = localtime timestamp in
    let date = tm.tm_sec + tm.tm_min * 60 + tm.tm_hour * 3600 + tm.tm_yday * 86400 in
    add_object t type (be16 (1900 + tm.tm_year) ++ 0 ∷ 0 ∷ be32 date) 8

-- `transaction_object_int16` and the functions below take the object `t->object[objno]`.
unfoldable pub object_int16 : TransactionObject → ℕ
object_int16 o =
    if leb 2 o.obj_len then get16 o.obj_data else if ltb 0 o.obj_len then first o.obj_data else 0
  where
    first : List ℕ → ℕ
    first [] = 0
    first (b ∷ bs) = b

unfoldable pub object_int32 : TransactionObject → ℕ
object_int32 o =
    if leb 4 o.obj_len
    then get32 o.obj_data
    else if leb 2 o.obj_len
    then get16 o.obj_data
    else if ltb 0 o.obj_len
    then first o.obj_data
    else 0
  where
    first : List ℕ → ℕ
    first [] = 0
    first (b ∷ bs) = b

-- The allocated buffer, its terminator included.
unfoldable pub object_string : TransactionObject → List ℕ
object_string o = take o.obj_len o.obj_data ++ 0 ∷ []

abbrev pub mask : List ℕ → List ℕ
mask = map (λ b. bit_xor b 0xff)

unfoldable pub object_masked_string : TransactionObject → List ℕ
object_masked_string o = mask (take o.obj_len o.obj_data) ++ 0 ∷ []

unfoldable pub add_masked_string : TransactionOut → ℕ → List ℕ → TransactionOut
add_masked_string t type string = add_object t type (mask string) (length string % 2 ^ 16)

-- The object of the type at an index, and none of the type before it.
abbrev pub IsFirst : List TransactionObject → ℕ → ℕ → Type 0
IsFirst [] type i = ⊥
IsFirst (o ∷ os) type zero = o.obj_id ≡ type
IsFirst (o ∷ os) type (suc i) = (o.obj_id ≢ type) × IsFirst os type i

abbrev pub Finds : List TransactionObject → ℕ → Option ℕ → Type 0
Finds os type none = All (λ o. o.obj_id ≢ type) os
Finds os type (some i) = IsFirst os type i

index_from-Finds :
    (i : ℕ) (os : List TransactionObject) (type : ℕ)
    → (index_from i os type ≡ none) × All (λ o. o.obj_id ≢ type) os
      ⊎ ((j : ℕ) × (index_from i os type ≡ some (i + j)) × IsFirst os type j)
unfolding index_from
index_from-Finds i [] type = inl (refl, tt)
index_from-Finds i (o ∷ os) type = elim (Bool-cases (o.obj_id == type)) [
  | inl hit ↦ inr (0, rw hit (ap some (omega arith)), ground arith)
  | inr miss ↦ rw miss (elim (index_from-Finds (i + 1) os type) [
    | inl (e, all) ↦ inl (e, (ground arith, all))
    | inr (j, e, f) ↦ inr (suc j, e ∙ ap some (omega arith), (ground arith, f))
  ])
]

-- `transaction_object_index` returns the index of the first object of the type, and -1 exactly
-- where the message has none.
pub object_index_lem : (t : TransactionIn) (type : ℕ) → Finds t.object type (object_index t type)
unfolding object_index
object_index_lem t type = elim (index_from-Finds 0 t.object type) [
  | inl (e, all) ↦ rw e all
  | inr (j, e, f) ↦ rw (e, zero-add) f
]

-- An object as `transaction_add_object` sends it.
abbrev pub sent : ℕ → List ℕ → TransactionObject
sent type bs = record { obj_id = type; obj_len = length bs; obj_data = bs }

-- What `transaction_add_int16` and `transaction_add_int32` send is read back by the accessor of
-- the same width, and a 16-bit integer by the wider one too; the narrower one gets the upper half
-- of a 32-bit integer.
pub object_int_lem :
    (type v w : ℕ)
    → v < 2 ^ 16
    → w < 2 ^ 32
    → (object_int16 (sent type (be16 v)) ≡ v)
      × (object_int32 (sent type (be16 v)) ≡ v)
      × (object_int32 (sent type (be32 w)) ≡ w)
      × (object_int16 (sent type (be32 w)) ≡ w / 2 ^ 16)
unfolding object_int16 object_int32
object_int_lem type v w hv hw = (omega arith, omega arith, omega arith, omega arith)

mask_table : every 256 (λ b. bit_xor (bit_xor b 0xff) 0xff == b) ≡ true
unfolding every
mask_table = refl

mask-mask : (bs : List ℕ) → All (λ b. b < 256) bs → mask (mask bs) ≡ bs
mask-mask [] h = refl
mask-mask (b ∷ bs) h =
    let e : bit_xor (bit_xor b 0xff) 0xff ≡ b =
      (==_iff _ b).0 (every_lem 256 (λ b. bit_xor (bit_xor b 0xff) 0xff == b) b mask_table h.0) in
    ap₂ (λ x xs. x ∷ xs) e (mask-mask bs h.1)

-- A string that is sent masked is the one that `transaction_object_masked_string` allocates.
pub object_masked_string-mask :
    (type : ℕ) (string : List ℕ)
    → All (λ b. b < 256) string
    → object_masked_string (sent type (mask string)) ≡ string ++ 0 ∷ []
unfolding object_masked_string
object_masked_string-mask type string h =
    ap (λ bs. mask bs ++ 0 ∷ []) (take-all (mask string))
    ∙ ap (λ bs. bs ++ 0 ∷ []) (mask-mask string h)

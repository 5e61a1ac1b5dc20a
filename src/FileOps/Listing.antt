-- ===== src/FileOps/Listing.antt =====
-- fileops.c: the list of a directory.
use hotwired.FileOps.{FileSystem, Stat, Files, maxpathlen, addpath}
use hotwired.FileOps.Types.{ExtTable, f_type}
use hotwired.FileOps.Removal.{is_own, opened}
use hotwired.Prelude.Bytes.{be32}
use hotwired.Prelude.Int.{ℤ, pos, negsuc, sub_ℕ}
use hotwired.Prelude.Texts.{codes}
use hotwired.Prelude.{
  Bool-cases, inl, inr, ℕ, ◌-◌, ◌%◌, ◌^◌, Option, none, some, List, [], ◌∷◌, ◌++◌, length, take,
  leb, if◌then◌else◌,
}
use hotwired.Transaction.{TransactionIn, TransactionOut, reply_create, add_string, add_object}

abbrev counted : Option (List (List ℕ)) → ℤ
counted none = negsuc 0
counted (some names) = sub_ℕ (length names) 2

-- An entry of the reply: type and creator, size, nothing, and the name with its length.
unfoldable pub entry_bytes : List ℕ → ℕ → List ℕ → List ℕ
entry_bytes type v name = take 8 type ++ be32 v ++ be32 0 ++ be32 (length name) ++ name

-- As an `int` that is passed as a `uint16_t`.
abbrev add_entry : TransactionOut → List ℕ → TransactionOut
add_entry ret entry = add_object ret 200 entry (length entry % 2 ^ 16)

abbrev add_folder : TransactionOut → List ℕ → ℤ → TransactionOut
add_folder ret name (negsuc n) = ret
add_folder ret name (pos v) =
    add_entry ret (entry_bytes (codes "fldr" ++ 0 ∷ 0 ∷ 0 ∷ 0 ∷ []) v name)

module _ (F : FileSystem) where
  unfoldable pub dir_count : F.Disk → List ℕ → ℤ
  dir_count disk path = counted (F.readdir disk path)

  abbrev typed : TransactionOut → List ℕ → ℕ → ExtTable × List ℕ → ExtTable × TransactionOut
  typed ret name size (ext_table, type) = (ext_table, add_entry ret (entry_bytes type size name))

  abbrev add_listed :
      ExtTable → F.Disk → TransactionOut → List ℕ → List ℕ → Option Stat → ExtTable × TransactionOut
  add_listed ext_table disk ret fpath name none = (ext_table, ret)
  add_listed ext_table disk ret fpath name (some st) =
      let plain = typed ret name st.size (f_type ext_table fpath) in
      if st.is_dir then (ext_table, add_folder ret name (dir_count disk fpath)) else plain

  -- The loop over the entries; none where a name fills the buffer for the path.
  unfoldable pub list_names :
      F.Disk
      → List ℕ
      → ℕ
      → List (List ℕ)
      → ExtTable × TransactionOut
      → Option (ExtTable × TransactionOut)
  list_names disk prefix rl [] r = some r
  list_names disk prefix rl (name ∷ names) r =
      let fpath = prefix ++ name in
      let here = list_names disk prefix rl names r in
      let next =
        list_names disk prefix rl names (add_listed r.0 disk r.1 fpath name (F.stat disk fpath)) in
      if is_own name then here else if leb rl (length name) then none else next

  abbrev access_denied : TransactionIn → TransactionOut
  access_denied t = add_string (reply_create t 1 1) 100 (codes "Error: Access denied.")

  abbrev listed : Files F → Option (ExtTable × TransactionOut) → Option (Files F × TransactionOut)
  listed s none = none
  listed s (some (ext_table, ret)) = some (record s { ext_table = some ext_table }, ret)

  abbrev list_open :
      Files F
      → TransactionIn
      → List ℕ
      → Option ExtTable
      → ℤ
      → Option (List (List ℕ))
      → Option (Files F × TransactionOut)
  list_open s t path ext_table (negsuc n) names = some (s, access_denied t)
  list_open s t path ext_table (pos v) none = some (s, access_denied t)
  list_open s t path none (pos v) (some names) = none
  list_open s t path (some ext_table) (pos v) (some names) = listed s (
      list_names s.disk (opened path) (maxpathlen - length (opened path)) names
        (ext_table, reply_create t 0 v))

  -- `f_list_create`, behind `f_init`: with no table of types there is no answer.
  unfoldable pub list_create :
      Files F → TransactionIn → Option (List ℕ) → Option (Files F × TransactionOut)
  list_create s t path =
      let full = addpath F s path in
      if leb maxpathlen (length (opened full))
      then some (s, access_denied t)
      else list_open s t full s.ext_table (dir_count s.disk full) (F.readdir s.disk full)

-- The answer, where there is one.
abbrev pub Listed :
    {F : FileSystem} → (F.Disk → Type 0) → Option (Files F × TransactionOut) → Type 0
Listed P none = Unit
Listed P (some (s, reply)) = P s.disk

-- A list changes the order in the table of types only.
pub list_create-Listed :
    {F : FileSystem} (P : F.Disk → Type 0) (s : Files F) (t : TransactionIn)
    (folder : Option (List ℕ))
    → P s.disk
    → Listed {F = F} P (list_create F s t folder)
unfolding list_create
list_create-Listed {F} P s t folder p =
    let full = addpath F s folder in
    elim (Bool-cases (leb maxpathlen (length (opened full)))) [
      | inl long ↦ rw long p
      | inr fits ↦
          rw fits (by_table full s.ext_table (dir_count F s.disk full) (F.readdir s.disk full))
    ]
  where
    by_walk : (o : Option (ExtTable × TransactionOut)) → Listed {F = F} P (listed F s o)
    by_walk none = tt
    by_walk (some r) = p

    by_table :
        (full : List ℕ) (table : Option ExtTable) (count : ℤ) (names : Option (List (List ℕ)))
        → Listed {F = F} P (list_open F s t full table count names)
    by_table full table (negsuc n) names = p
    by_table full table (pos v) none = p
    by_table full none (pos v) (some names) = tt
    by_table full (some table) (pos v) (some names) = by_walk _

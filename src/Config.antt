-- ===== src/Config.antt =====
-- Config.c: the settings, in a table of sections, each a table of variables. A section's table is
-- owned by the table of sections, so that an insertion into it is a write through a pointer that
-- a lookup returned. The functions are the bodies between the locks.
pub mod Lines
pub mod Reading
pub mod File
use hotwired.Collection.Through.{write_through}
use hotwired.HashTable
use hotwired.HashTable.{HashTable, same_text, text_key}
use hotwired.Prelude.Int.{ℤ, pos, negsuc, sub_ℕ}
use hotwired.Prelude.Texts.{codes, text_at, strchr, lines_from}
use hotwired.Prelude.{
  ℕ, suc, ◌+◌, ◌-◌, ◌*◌, Bool, true, false, ◌&&◌, ◌||◌, Option, none, some, List, [], ◌∷◌, map,
  length, get_elem?, leb, ltb, ◌==◌, if◌then◌else◌,
}

-- `isspace` in the C locale; the bytes above 127 are no space.
abbrev pub is_space : ℕ → Bool
is_space c = (leb 9 c && leb c 13) || c == b' '

-- `strip_whitespace`, with `true` for `q == 1`. What is written never overtakes what is read.
unfoldable pub strip : Bool → List ℕ → List ℕ
strip q [] = []
strip true (c ∷ s) =
    let closed = c ∷ strip false s in
    let inside = c ∷ strip true s in if c == b'"' then closed else inside
strip false (c ∷ s) =
    let quoted = c ∷ strip true s in
    let rest = strip false s in
    if c == b'"' then quoted else if c == b'#' then [] else if is_space c then rest else c ∷ rest

abbrev is_some {ℓ} : {A : Type ℓ} → Option A → Bool
is_some none = false
is_some (some a) = true

abbrev closes : Option (List ℕ × List ℕ) → Bool
closes none = false
closes (some (before, behind)) = is_some (strchr behind b']')

-- A line with a `[` and a `]` somewhere behind it names a section.
unfoldable pub is_section : List ℕ → Bool
is_section buffer = closes (strchr buffer b'[')

abbrev behind_bracket : Option (List ℕ × List ℕ) → Option (List ℕ)
behind_bracket none = none
behind_bracket (some (before, behind)) = some behind

abbrev cut_section : Option (List ℕ × List ℕ) → Option (List ℕ)
cut_section none = none
cut_section (some (before, behind)) = behind_bracket (strchr before b'[')

-- The buffer is cut at its first `]`, and the name starts behind the first `[`; `none` where that
-- is then NULL, and one byte behind NULL is read.
unfoldable pub section_name : List ℕ → Option (List ℕ)
section_name buffer = cut_section (strchr buffer b']')

-- The pieces between the commas.
abbrev longer : ℕ → List (List ℕ) → List (List ℕ)
longer c [] = (c ∷ []) ∷ []
longer c (piece ∷ pieces) = (c ∷ piece) ∷ pieces

unfoldable pub split : ℕ → List ℕ → List (List ℕ)
split comma [] = [] ∷ []
split comma (c ∷ s) = let rest = split comma s in if c == comma then [] ∷ rest else longer c rest

abbrev first_quote : List ℕ → List ℕ
first_quote [] = []
first_quote (c ∷ s) = if c == b'"' then s else c ∷ s

-- Where nothing is left, the byte in front of the text, which is a quote or a terminator of the
-- same buffer, is read and at most cleared.
unfoldable pub last_quote : List ℕ → List ℕ
last_quote [] = []
last_quote (c ∷ []) = if c == b'"' then [] else c ∷ []
last_quote (c ∷ d ∷ s) = c ∷ last_quote (d ∷ s)

unfoldable pub unquote : List ℕ → List ℕ
unquote s = last_quote (first_quote s)

unfoldable pub values : List ℕ → List (List ℕ)
values s = map unquote (split b',' s)

-- The `for` loop that counts the values to allocate.
unfoldable pub commas : List ℕ → ℕ
commas [] = 0
commas (c ∷ s) = let rest = commas s in if c == b',' then suc rest else rest

abbrev pub Section : Type 0
Section = HashTable (List (List ℕ))

abbrev pub Config : Type 0
Config = HashTable Section

abbrev into_section : List ℕ → List (List ℕ) → Section → Section
into_section varname vs sect_table = (HashTable.insert sect_table varname vs).0

abbrev made : Config → List ℕ → Option Section → Config
made table section (some sect_table) = table
made table section none = (HashTable.insert table section HashTable.create).0

-- `add_value`. A variable that the section has keeps its first values, since the insertion fails.
unfoldable pub add_value : Config → List ℕ → List ℕ → List (List ℕ) → Config
add_value conf_table section varname vs =
    let r = HashTable.lookup conf_table section in
    write_through (made r.0 section r.1) section (into_section varname vs)

-- The locals of the loop in `config_init`.
pub record Reader : Type 0 where
  pub table : Config
  pub section : Option (List ℕ)

abbrev enter_section : Reader → Option (List ℕ) → Option Reader
enter_section r none = none
enter_section r (some name) = some (record r { section = some name })

-- With no section so far the table hashes NULL, which is a crash: `none`.
abbrev add_under : Reader → Option (List ℕ) → List ℕ → List (List ℕ) → Option Reader
add_under r none varname vs = none
add_under r (some section) varname vs =
    some (record r { table = add_value r.table section varname vs })

abbrev assign : Reader → Option (List ℕ × List ℕ) → Option Reader
assign r none = some r
assign r (some (varname, text)) = add_under r r.section varname (values text)

-- One line, with its whitespace stripped.
unfoldable pub read_line : Reader → List ℕ → Option Reader
read_line r buffer =
    if is_section buffer
    then enter_section r (section_name buffer)
    else assign r (strchr buffer b'=')

abbrev pub next_line : (Reader → Option Reader) → Option Reader → Option Reader
next_line rest none = none
next_line rest (some r) = rest r

-- The loop over the lines that `fgets` gives.
unfoldable pub read_lines : List (List ℕ) → Reader → Option Reader
read_lines [] r = some r
read_lines (line ∷ lines) r =
    next_line (read_lines lines) (read_line r (strip false (text_at line)))

abbrev finished : Option Reader → Option (Option Config × Bool)
finished none = none
finished (some r) = some (some r.table, true)

-- `config_init`, with the former table and the file, or `none` where it cannot be opened. `true`
-- is the answer 0, `false` is -1, and `none` is a crash. The buffer has 512 bytes.
unfoldable pub init : Option Config → Option (List ℕ) → Option (Option Config × Bool)
init conf none = some (conf, false)
init conf (some file) =
    finished (
      read_lines (lines_from 510 510 [] file) (record { table = HashTable.create; section = none }))

-- `config_vlist`: a lookup in the section's table moves a node of it, as one in the table of
-- sections does.
abbrev moved : List ℕ → Section → Section
moved var sect_table = (HashTable.lookup sect_table var).0

abbrev vlist_in : Config → List ℕ → List ℕ → Option Section → Config × Option (List (List ℕ))
vlist_in table section var none = (table, none)
vlist_in table section var (some sect_table) =
    (write_through table section (moved var), (HashTable.lookup sect_table var).1)

unfoldable pub vlist : Config → List ℕ → List ℕ → Config × Option (List (List ℕ))
vlist conf_table section var =
    let r = HashTable.lookup conf_table section in vlist_in r.0 section var r.1

abbrev pub value_of : Option (List (List ℕ)) → ℕ → Option (List ℕ)
value_of none i = none
value_of (some vs) i = get_elem? vs i

-- `config_vlist_value`; behind the NULL that ends the values, `vlist[i]` is out of bounds.
unfoldable pub vlist_value : Config → List ℕ → List ℕ → ℕ → Config × Option (List ℕ)
vlist_value conf_table section var i = let r = vlist conf_table section var in (r.0, value_of r.1 i)

-- `config_value`
unfoldable pub value : Config → List ℕ → List ℕ → Config × Option (List ℕ)
value conf_table section var = vlist_value conf_table section var 0

abbrev is_digit : ℕ → Bool
is_digit c = leb 48 c && leb c 57

unfoldable pub digits_from : ℕ → List ℕ → ℕ
digits_from n [] = n
digits_from n (c ∷ s) =
    let more = digits_from (n * 10 + (c - 48)) s in if is_digit c then more else n

abbrev signed : List ℕ → ℤ
signed [] = pos 0
signed (c ∷ s) =
    if c == b'-'
    then sub_ℕ 0 (digits_from 0 s)
    else if c == b'+'
    then pos (digits_from 0 s)
    else pos (digits_from 0 (c ∷ s))

-- `atoi`, where the number is one of an `int`.
unfoldable pub atoi : List ℕ → ℤ
atoi [] = pos 0
atoi (c ∷ s) = let rest = atoi s in if is_space c then rest else signed (c ∷ s)

abbrev int_of : Option (List ℕ) → ℤ
int_of none = negsuc 0
int_of (some text) = atoi text

-- `config_int_value`
unfoldable pub int_value : Config → List ℕ → List ℕ → Config × ℤ
int_value conf_table section var = let r = value conf_table section var in (r.0, int_of r.1)

abbrev pub lower : ℕ → ℕ
lower c = if leb 65 c && leb c 90 then c + 32 else c

-- `!strcasecmp`, to a text in small letters.
abbrev pub same_letters : List ℕ → List ℕ → Bool
same_letters s t = same_text (map lower s) t

unfoldable pub is_true : List ℕ → Bool
is_true text =
    same_letters text (codes "true")
    || (same_letters text (codes "yes") || same_letters text (codes "y"))

abbrev truth_of : Option (List ℕ) → ℤ
truth_of none = negsuc 0
truth_of (some text) = if is_true text then pos 1 else pos 0

-- `config_truth_value`
unfoldable pub truth_value : Config → List ℕ → List ℕ → Config × ℤ
truth_value conf_table section var = let r = value conf_table section var in (r.0, truth_of r.1)

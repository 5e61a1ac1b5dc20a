-- ===== src/FileOps/Types.antt =====
-- fileops.c: the types of files, by the endings of their names.
use hotwired.Config.{lower}
use hotwired.HashTable
use hotwired.HashTable.{HashTable, text_key}
use hotwired.Prelude.Texts.{codes, contains}
use hotwired.Prelude.{
  ℕ, Bool, ◌||◌, Option, none, some, List, [], ◌∷◌, length, map, ltb, ◌==◌, if◌then◌else◌,
}

abbrev pub ext_list : List (List ℕ × List ℕ)
ext_list =
    (codes "hpf", codes "HTftHTLC")
    ∷ (codes "txt", codes "TEXTttxt")
    ∷ (codes "doc", codes "W6BNMSWD")
    ∷ (codes "mp3", codes "MP3 MAmp")
    ∷ (codes "rm", codes "RAE REAL")
    ∷ (codes "ram", codes "RAE REAL")
    ∷ (codes "mid", codes "MiDiTVOD")
    ∷ (codes "wav", codes "WAVETVOD")
    ∷ (codes "aif", codes "AIFFTVOD")
    ∷ (codes "aiff", codes "AIFFTVOD")
    ∷ (codes "avi", codes "VfW TVOD")
    ∷ (codes "mpg", codes "MPEGTVOD")
    ∷ (codes "mpeg", codes "MPEGTVOD")
    ∷ (codes "mov", codes "MooVTVOD")
    ∷ (codes "fli", codes "FLI TVOD")
    ∷ (codes "png", codes "PNGfTVOD")
    ∷ (codes "exe", codes "DEXECWIE")
    ∷ (codes "zip", codes "ZIP ZIP ")
    ∷ (codes "sit", codes "SITDSIT!")
    ∷ (codes "bmp", codes "BMP GKON")
    ∷ (codes "gif", codes "GIFfGKON")
    ∷ (codes "jpg", codes "JPEGGKON")
    ∷ (codes "jpeg", codes "JPEGGKON")
    ∷ (codes "pct", codes "PICTGKON")
    ∷ (codes "pict", codes "PICTGKON")
    ∷ (codes "tif", codes "TIFFGKON")
    ∷ (codes "tiff", codes "TIFFGKON")
    ∷ []

abbrev pub ExtTable : Type 0
ExtTable = HashTable (List ℕ)

-- The last loop of `f_init`.
unfoldable pub insert_types : ExtTable → List (List ℕ × List ℕ) → ExtTable
insert_types table [] = table
insert_types table (e ∷ l) = insert_types (HashTable.insert table e.0 e.1).0 l

abbrev pub types_made : Option ExtTable → Option ExtTable
types_made none = some (insert_types HashTable.create ext_list)
types_made (some table) = some table

-- `strrchr`: what stands behind the last such character.
abbrev behind_this : Bool → List ℕ → Option (List ℕ) → Option (List ℕ)
behind_this hit s (some later) = some later
behind_this hit s none = if hit then some s else none

unfoldable pub strrchr : List ℕ → ℕ → Option (List ℕ)
strrchr [] c = none
strrchr (d ∷ s) c = behind_this (d == c) s (strrchr s c)

abbrev pub def_type : List ℕ
def_type = codes "BINAdosa"

abbrev tag_or_default : Option (List ℕ) → List ℕ
tag_or_default none = def_type
tag_or_default (some tag) = tag

abbrev type_of : ExtTable → Option (List ℕ) → ExtTable × List ℕ
type_of ext_table none = (ext_table, def_type)
type_of ext_table (some ext) =
    let r = HashTable.lookup ext_table (map lower ext) in
    if contains b'/' ext || ltb 4 (length ext)
    then (ext_table, def_type)
    else (r.0, tag_or_default r.1)

-- `f_type`: the type and the creator, eight bytes.
unfoldable pub f_type : ExtTable → List ℕ → ExtTable × List ℕ
f_type ext_table filename = type_of ext_table (strrchr filename b'.')

-- ===== src/Config/File.antt =====
-- config_init on a file of headers and variables, and what the variables then hold.
use hotwired.Collection.Operations.{create-IsWellFormed}
use hotwired.Config.Lines.{
  Line, header, setting, IsPlain, printed, strip-printed, printed-lacks, header-section,
  setting-section, values-others,
}
use hotwired.Config.Reading.{setting_at, IsSound, given, add_value-Added, vlist_lem}
use hotwired.Config.{
  Config, Section, Reader, add_value, strip, read_line, read_lines, next_line, init, vlist_value,
  value_of,
}
use hotwired.HashTable
use hotwired.HashTable.{same_text, text_key}
use hotwired.Prelude.Texts.{
  contains, text_at, text_at-whole, contains-append, lines_from, lines_from-line,
}
use hotwired.Prelude.{
  ℕ, ◌≤◌, ◌≡◌, refl, sym, ap, ◌∙◌, Bool, true, false, ◌&&◌, Option, none, some, List, [], ◌∷◌, ◌++◌,
  length, All, inl, inr, if◌then◌else◌,
}
use mathlib.Core.List.{append-nil}
use mathlib.Core.Option.{or_else}

-- The file of the lines.
unfoldable pub file_of : List Line → List ℕ
file_of [] = []
file_of (l ∷ ls) = printed l ++ b'\n' ∷ file_of ls

-- The values that the lines give a variable: the first of its settings under a header of the
-- section counts. `current` is the name of the last header.
unfoldable pub first_values : List ℕ → List Line → List ℕ → List ℕ → Option (List (List ℕ))
first_values current [] s v = none
first_values current (header h ∷ ls) s v = first_values h ls s v
first_values current (setting name x xs ∷ ls) s v =
    let rest = first_values current ls s v in
    if same_text s current && same_text v name then some (x ∷ xs) else rest

-- A line fits the buffer, with its end and a terminator.
abbrev pub IsLine : Line → Type 0
IsLine l = IsPlain l × (length (printed l) ≤ 510)

strip-line : (l : Line) → IsPlain l → strip false (text_at (printed l ++ b'\n' ∷ [])) ≡ printed l
unfolding strip contains
strip-line l h =
    let whole : contains 0 (printed l ++ b'\n' ∷ []) ≡ false =
      contains-append 0 (printed l) (b'\n' ∷ []) ∙ rw (printed-lacks 0 l (inl refl) h) refl in
    ap (strip false) (text_at-whole (printed l ++ b'\n' ∷ []) whole)
    ∙ strip-printed l (b'\n' ∷ []) h
    ∙ append-nil (printed l)

abbrev reader : Config → List ℕ → Reader
reader t c = record { table = t; section = some c }

read_line-header :
    (r : Reader) (h : List ℕ)
    → IsPlain (header h)
    → read_line r (printed (header h)) ≡ some (reader r.table h)
unfolding read_line
read_line-header r h plain = let (opened, name) = header-section h plain in rw (opened, name) refl

read_line-setting :
    (t : Config) (c name v : List ℕ) (vs : List (List ℕ))
    → IsPlain (setting name v vs)
    → read_line (reader t c) (printed (setting name v vs))
      ≡ some (reader (add_value t c name (v ∷ vs)) c)
unfolding read_line
read_line-setting t c name v vs plain =
    let (unopened, cut) = setting-section name v vs plain in
    rw (unopened, cut, values-others v vs plain.1 plain.2) refl

read_lines-file :
    (l : Line) (ls : List Line) (r : Reader)
    → IsLine l
    → read_lines (lines_from 510 510 [] (file_of (l ∷ ls))) r
      ≡ next_line (read_lines (lines_from 510 510 [] (file_of ls))) (read_line r (printed l))
unfolding file_of read_lines
read_lines-file l ls r (plain, fits) =
    let one_line = printed-lacks b'\n' l (inr refl) plain in
    rw (lines_from-line 510 510 [] (printed l) (file_of ls) one_line fits, strip-line l plain) refl

-- What reading the lines leaves behind.
abbrev Read : Config → List ℕ → List Line → Option Reader → Type 0
Read t c ls result =
    (r : Reader) × (result ≡ some r)
    × IsSound r.table
    × ((s v : List ℕ) → setting_at r.table s v ≡ or_else (setting_at t s v) (first_values c ls s v))

or_else-given :
    (o p : Option (List (List ℕ))) (hit : Bool) (vs : List (List ℕ))
    → or_else (given o hit vs) p ≡ or_else o (if hit then some vs else p)
unfolding or_else
or_else-given none p true vs = refl
or_else-given none p false vs = refl
or_else-given (some x) p hit vs = refl

read_lines-Read :
    (ls : List Line) (t : Config) (c : List ℕ)
    → All IsLine ls
    → IsSound t
    → Read t c ls (read_lines (lines_from 510 510 [] (file_of ls)) (reader t c))
unfolding file_of read_lines lines_from first_values or_else
read_lines-Read [] t c h sound = (reader t c, refl, sound, λ s v. ends (setting_at t s v))
  where
    ends : (o : Option (List (List ℕ))) → o ≡ or_else o none
    ends none = refl
    ends (some x) = refl
read_lines-Read (header h ∷ ls) t c (line, lines) sound =
    let (r, e, valid, reads) = read_lines-Read ls t h lines sound in
    let step =
      read_lines-file (header h) ls (reader t c) line
      ∙ ap (next_line (read_lines (lines_from 510 510 [] (file_of ls))))
          (read_line-header (reader t c) h line.0) in
    (r, step ∙ e, valid, reads)
read_lines-Read (setting name v vs ∷ ls) t c (line, lines) sound =
    let (added, changed) = add_value-Added c name (v ∷ vs) t sound in
    let (r, e, valid, reads) = read_lines-Read ls (add_value t c name (v ∷ vs)) c lines added in
    let step =
      read_lines-file (setting name v vs) ls (reader t c) line
      ∙ ap (next_line (read_lines (lines_from 510 510 [] (file_of ls))))
          (read_line-setting t c name v vs line.0) in
    (
      r,
      step ∙ e,
      valid,
      λ s w.
          reads s w
          ∙ ap (λ o. or_else o (first_values c ls s w)) (changed s w)
          ∙ or_else-given (setting_at t s w) (first_values c ls s w)
              (same_text s c && same_text w name) (v ∷ vs),
    )

-- A file that starts with a header, and in which every line is one of a section's name or of a
-- variable's name and its values in quotes, is read whole: config_init answers 0, in any former
-- state, and config_vlist_value then gives, for every section, variable and index, the value at
-- that index of the first line that sets the variable under a header of the section, and NULL
-- where no line does. A line has at most 510 bytes; a value has no quote, comma, bracket, end of
-- line or terminator, and a name also no blank and no `#` and `=`.
pub init-file_of :
    (conf : Option Config) (h : List ℕ) (ls : List Line)
    → IsLine (header h)
    → All IsLine ls
    → (t : Config) × (init conf (some (file_of (header h ∷ ls))) ≡ some (some t, true))
      × ((s v : List ℕ) (i : ℕ) → (vlist_value t s v i).1 ≡ value_of (first_values h ls s v) i)
unfolding init or_else vlist_value HashTable.create setting_at
init-file_of conf h ls first lines =
    let empty : Config = HashTable.create in
    let (valid, _, blank) = create-IsWellFormed {K = List ℕ} {V = Section} in
    let sound : IsSound empty = (valid, λ s sect e. absurd (clash sect (sym (blank s) ∙ e))) in
    let (r, e, kept, reads) = read_lines-Read ls empty h lines sound in
    let begun : Reader = record { table = empty; section = none } in
    let step =
      read_lines-file (header h) ls begun first
      ∙ ap (next_line (read_lines (lines_from 510 510 [] (file_of ls))))
          (read_line-header begun h first.0)
      ∙ e in
    (
      r.table,
      rw step refl,
      λ s v i.
          ap (λ o. value_of o i) ((vlist_lem r.table s v kept).0 ∙ reads s v ∙ rw (blank s) refl),
    )
  where
    clash : (sect : Section) → none ≡ some sect → ⊥
    clash sect e = cc

-- ===== src/Config/Reading.antt =====
-- The table of sections as one map from a section and a variable to the values.
use hotwired.Collection
use hotwired.Collection.Operations.{InsertResult, insert_lem, create-IsWellFormed, Writes}
use hotwired.Collection.Rebuild.{Keeps}
use hotwired.Collection.Removal.{lookup_lem}
use hotwired.Collection.Through.{write_through, write_through-Writes}
use hotwired.Collection.View.{IsWellFormed, view}
use hotwired.Config.{Section, Config, add_value, vlist}
use hotwired.HashTable
use hotwired.HashTable.{same_text, text_key}
use hotwired.Prelude.{
  ℕ, ◌≡◌, refl, sym, ap, ◌∙◌, Bool, true, false, ◌&&◌, Option, none, some, List, Bool-cases,
  Option-cases, inl, inr, if◌then◌else◌,
}
use mathlib.Core.Option.{or_else}
use mathlib.Core.Path.{subst}

abbrev at_section : Option Section → List ℕ → Option (List (List ℕ))
at_section none var = none
at_section (some sect_table) var = view sect_table var

-- The values of a variable.
unfoldable pub setting_at : Config → List ℕ → List ℕ → Option (List (List ℕ))
setting_at t section var = at_section (view t section) var

-- The table and every section's are well formed.
abbrev pub IsSound : Config → Type 0
IsSound t =
    IsWellFormed t
    × ((section : List ℕ) (sect_table : Section)
        → view t section ≡ some sect_table
        → IsWellFormed sect_table)

-- A table with the same sections.
same_sections :
    (old new : Config)
    → Keeps old new
    → IsSound old
    → IsSound new × ((s v : List ℕ) → setting_at new s v ≡ setting_at old s v)
unfolding setting_at
same_sections old new keeps (w, inner) = (
  (keeps.valid, λ s sect e. inner s sect (sym (keeps.same_view s) ∙ e)),
  λ s v. ap (λ o. at_section o v) (keeps.same_view s),
)

-- A table that differs at one section.
module _ (old new : Config) (section : List ℕ) (sect_table : Section)
    (writes : Writes old section (some sect_table) new) (sound : IsSound old)
    (inner : IsWellFormed sect_table) where
  write-IsSound : IsSound new
  write-IsSound = (
    writes.valid,
    λ s sect e. elim (Bool-cases (same_text s section)) [
      | inl same ↦ subst IsWellFormed (hit s sect same (sym (writes.views s) ∙ e)) inner
      | inr other ↦ sound.1 s sect (miss s sect other (sym (writes.views s) ∙ e))
    ],
  )
    where
      hit :
          (s : List ℕ) (sect : Section)
          → same_text s section ≡ true
          → (if same_text s section then some sect_table else view old s) ≡ some sect
          → sect_table ≡ sect
      hit s sect same e = cc

      miss :
          (s : List ℕ) (sect : Section)
          → same_text s section ≡ false
          → (if same_text s section then some sect_table else view old s) ≡ some sect
          → view old s ≡ some sect
      miss s sect other e = cc

  setting_at-write :
      (s v : List ℕ)
      → setting_at new s v ≡ (if same_text s section then view sect_table v else setting_at old s v)
  unfolding setting_at
  setting_at-write s v =
      ap (λ o. at_section o v) (writes.views s) ∙ elim (Bool-cases (same_text s section)) [
        | inl same ↦ rw same refl
        | inr other ↦ rw other refl
      ]

-- An insertion into a section, whose first values for a variable stay.
insert-first :
    (sect_table : Section) (var : List ℕ) (vs : List (List ℕ))
    → IsWellFormed sect_table
    → IsWellFormed (HashTable.insert sect_table var vs).0
      × ((v : List ℕ)
          → view (HashTable.insert sect_table var vs).0 v
            ≡ or_else (view sect_table v) (if same_text v var then some vs else none))
unfolding HashTable.insert or_else
insert-first sect_table var vs w =
    let result = insert_lem sect_table var vs w in
    elim (Option-cases (view sect_table var)) [
      | inl absent ↦
          let r =
            subst (λ o. InsertResult sect_table var vs o (Collection.insert sect_table var vs))
              absent result in
          (r.1.valid, λ v. r.1.views v ∙ entered v absent)
      | inr (old, there) ↦
          let r =
            subst (λ o. InsertResult sect_table var vs o (Collection.insert sect_table var vs))
              there result in
          (r.1.valid, λ v. r.1.same_view v ∙ kept v old there)
    ]
  where
    at_var : (v : List ℕ) → same_text v var ≡ true → view sect_table v ≡ view sect_table var
    at_var v same = ap (view sect_table) ((text_key.same_iff v var).0 same)

    entered :
        (v : List ℕ)
        → view sect_table var ≡ none
        → (if same_text v var then some vs else view sect_table v)
          ≡ or_else (view sect_table v) (if same_text v var then some vs else none)
    entered v absent = elim (Bool-cases (same_text v var)) [
      | inl same ↦ rw (same, at_var v same ∙ absent) refl
      | inr other ↦ elim (Option-cases (view sect_table v)) [
        | inl e ↦ rw (other, e) refl
        | inr (o, e) ↦ rw (other, e) refl
      ]
    ]

    kept :
        (v : List ℕ) (old : List (List ℕ))
        → view sect_table var ≡ some old
        → view sect_table v
          ≡ or_else (view sect_table v) (if same_text v var then some vs else none)
    kept v old there = elim (Option-cases (view sect_table v)) [
      | inr (o, e) ↦ rw e refl
      | inl e ↦ elim (Bool-cases (same_text v var)) [
        | inl same ↦ absurd (clash (sym e ∙ at_var v same ∙ there))
        | inr other ↦ rw (e, other) refl
      ]
    ]
      where
        clash : none ≡ some old → ⊥
        clash e = cc

-- What a variable holds once it is given values in a section.
abbrev pub given : Option (List (List ℕ)) → Bool → List (List ℕ) → Option (List (List ℕ))
given old hit vs = or_else old (if hit then some vs else none)

module _ (section var : List ℕ) (vs : List (List ℕ)) where
  abbrev entry : Section → Section
  entry sect_table = (HashTable.insert sect_table var vs).0

  abbrev Added : Config → Config → Type 0
  Added t new =
      IsSound new
      × ((s v : List ℕ)
          → setting_at new s v
            ≡ given (setting_at t s v) (same_text s section && same_text v var) vs)

  -- With a section that is there.
  into-Added :
      (t : Config) (sect_table : Section)
      → IsSound t
      → view t section ≡ some sect_table
      → Added t (write_through t section entry)
  into-Added t sect_table sound there =
      let writes = write_through-Writes t section entry sect_table sound.0 there in
      let (inner, reads) = insert-first sect_table var vs (sound.1 section sect_table there) in
      (
        write-IsSound t _ section (entry sect_table) writes sound inner,
        λ s v.
            setting_at-write t _ section (entry sect_table) writes sound inner s v
            ∙ at_both s v reads,
      )
    where
      at_both :
          (s v : List ℕ)
          → ((v : List ℕ)
              → view (entry sect_table) v
                ≡ or_else (view sect_table v) (if same_text v var then some vs else none))
          → (if same_text s section then view (entry sect_table) v else setting_at t s v)
            ≡ given (setting_at t s v) (same_text s section && same_text v var) vs
      at_both s v reads = elim (Bool-cases (same_text s section)) [
        | inl same ↦
            let here : setting_at t s v ≡ view sect_table v =
              unfold setting_at in
              ap (λ q. at_section (view t q) v) ((text_key.same_iff s section).0 same)
              ∙ ap (λ o. at_section o v) there in
            rw (same, here) (reads v)
        | inr other ↦ elim (Option-cases (setting_at t s v)) [
          | inl e ↦ unfold or_else in rw (other, e) refl
          | inr (o, e) ↦ unfold or_else in rw (other, e) refl
        ]
      ]

  -- A section that is new has no variable.
  fresh-Added :
      (t : Config)
      → IsSound t
      → view t section ≡ none
      → let made = (HashTable.insert t section HashTable.create).0 in
        Added t (write_through made section entry)
  unfolding HashTable.insert HashTable.create
  fresh-Added t sound absent =
      let empty : Section = HashTable.create in
      let made = Collection.insert t section empty in
      let r : InsertResult t section empty none made =
        subst (λ o. InsertResult t section empty o made) absent
          (insert_lem t section empty sound.0) in
      let (inner, _, blank) = create-IsWellFormed {K = List ℕ} {V = List (List ℕ)} in
      let made_sound = write-IsSound t made.0 section empty r.1 sound inner in
      let there : view made.0 section ≡ some empty =
        r.1.views section ∙ rw ((text_key.same_iff section section).1 refl) refl in
      let (valid, reads) = into-Added made.0 empty made_sound there in
      (
        valid,
        λ s v.
            reads s v
            ∙ ap (λ o. given o (same_text s section && same_text v var) vs)
                (setting_at-write t made.0 section empty r.1 sound inner s v ∙ unset s v blank),
      )
    where
      unset :
          (s v : List ℕ)
          → ((q : List ℕ) → view {V = List (List ℕ)} Collection.create q ≡ none)
          → (if same_text s section then view Collection.create v else setting_at t s v)
            ≡ setting_at t s v
      unset s v blank = elim (Bool-cases (same_text s section)) [
        | inl same ↦
            let here : setting_at t s v ≡ none =
              unfold setting_at in
              ap (λ q. at_section (view t q) v) ((text_key.same_iff s section).0 same)
              ∙ ap (λ o. at_section o v) absent in
            rw (same, here) (blank v)
        | inr other ↦ rw other refl
      ]

  -- `add_value` keeps the tables well formed, and gives the variable of the section the values
  -- where it has none; no other variable changes.
  pub add_value-Added : (t : Config) → IsSound t → Added t (add_value t section var vs)
  unfolding add_value HashTable.lookup
  add_value-Added t sound =
      let r = Collection.lookup t section in
      let (answer, keeps) = lookup_lem t section sound.0 in
      let (kept, same) = same_sections t r.0 keeps sound in
      let back : (new : Config) → Added r.0 new → Added t new = λ new added. (
        added.0,
        λ s v.
            added.1 s v ∙ ap (λ o. given o (same_text s section && same_text v var) vs) (same s v),
      ) in
      elim (Option-cases r.1) [
        | inl e ↦
            let absent = keeps.same_view section ∙ sym answer ∙ e in
            rw (e, add_value) (back _ (fresh-Added r.0 kept absent))
        | inr (sect, e) ↦
            let there = keeps.same_view section ∙ sym answer ∙ e in
            rw (e, add_value) (back _ (into-Added r.0 sect kept there))
      ]

-- `config_vlist` answers the values of the variable, and changes none.
pub vlist_lem :
    (t : Config) (section var : List ℕ)
    → IsSound t
    → ((vlist t section var).1 ≡ setting_at t section var)
      × IsSound (vlist t section var).0
      × ((s v : List ℕ) → setting_at (vlist t section var).0 s v ≡ setting_at t s v)
unfolding vlist HashTable.lookup
vlist_lem t section var sound =
    let r = Collection.lookup t section in
    let (answer, keeps) = lookup_lem t section sound.0 in
    let (kept, same) = same_sections t r.0 keeps sound in
    elim (Option-cases r.1) [
      | inl e ↦
          let unset : setting_at t section var ≡ none =
            unfold setting_at in ap (λ o. at_section o var) (sym answer ∙ e) in
          rw (e, vlist) (sym unset, kept, same)
      | inr (sect, e) ↦
          let there = keeps.same_view section ∙ sym answer ∙ e in
          let found : setting_at t section var ≡ view sect var =
            unfold setting_at in ap (λ o. at_section o var) (sym answer ∙ e) in
          let (reads, settled) = lookup_lem sect var (kept.1 section sect there) in
          let new_sect = (Collection.lookup sect var).0 in
          let writes =
            write_through-Writes r.0 section (λ c. (Collection.lookup c var).0) sect kept.0 there in
          let valid = write-IsSound r.0 _ section new_sect writes kept settled.valid in
          rw (e, vlist)
            (
              reads ∙ sym found,
              valid,
              λ s v.
                  setting_at-write r.0 _ section new_sect writes kept settled.valid s v
                  ∙ unmoved s v r.0 sect new_sect there settled.same_view
                  ∙ same s v,
            )
    ]
  where
    unmoved :
        (s v : List ℕ)
        → (u : Config) (old new : Section) → view u section ≡ some old
        → ((q : List ℕ) → view new q ≡ view old q)
        → (if same_text s section then view new v else setting_at u s v) ≡ setting_at u s v
    unmoved s v u old new there settled = elim (Bool-cases (same_text s section)) [
      | inl same ↦
          let here : setting_at u s v ≡ view old v =
            unfold setting_at in
            ap (λ q. at_section (view u q) v) ((text_key.same_iff s section).0 same)
            ∙ ap (λ o. at_section o v) there in
          rw (same, here) (settled v)
      | inr other ↦ rw other refl
    ]

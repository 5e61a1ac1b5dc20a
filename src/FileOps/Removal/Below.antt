-- ===== src/FileOps/Removal/Below.antt =====
-- What the removal of a directory touches.
use hotwired.Config
use hotwired.Prelude.Texts.{codes}
use hotwired.FileOps.Removal.{
  Removal, removed, overrun, out_of_fuel, is_own, opened, go_on, answered, entry_removed, clear,
  emptied, remove_directory, depth, moved, rmdir_tried, rmdir_failed, rmdir_recursive, allowed,
}
use hotwired.FileOps.{FileSystem, Stat, Files, maxpathlen, ends_in}
use hotwired.Prelude.{
  ℕ, zero, suc, ◌≡◌, refl, sym, ap, ◌∙◌, Bool, true, false, Option, none, some, List, [], ◌∷◌, ◌++◌,
  length, leb, Bool-cases, inl, inr,
}
use mathlib.Core.List.{append_assoc, append-nil}

-- A statement about the disk that is left.
abbrev pub After {ℓ} : {D : Type ℓ} → (D → Type 0) → Removal D → Type 0
After P (removed disk done) = P disk
After P overrun = Unit
After P out_of_fuel = Unit

go_on-After {ℓ} :
    {D : Type ℓ} (P : D → Type 0) (rest : D → Removal D) (r : Removal D)
    → ((disk : D) → P disk → After P (rest disk))
    → After P r
    → After P (go_on rest r)
go_on-After P rest (removed disk true) h p = h disk p
go_on-After P rest (removed disk false) h p = p
go_on-After P rest overrun h p = p
go_on-After P rest out_of_fuel h p = p

-- A path that starts so still does with a slash behind it.
pub opened-append : (a q : List ℕ) → (r : List ℕ) × (opened (a ++ q) ≡ a ++ r)
opened-append a q = with_end (a ++ q) refl
  where
    with_end : (p : List ℕ) → a ++ q ≡ p → (r : List ℕ) × (opened (a ++ q) ≡ a ++ r)
    with_end [] e = (q, ap opened e ∙ sym e)
    with_end (c ∷ s) e = elim (Bool-cases (ends_in b'/' (c ∷ s))) [
      | inl ended ↦ (q, ap opened e ∙ rw ended (sym e))
      | inr other ↦ (
        q ++ b'/' ∷ [],
        ap opened e ∙ rw other (ap (λ t. t ++ b'/' ∷ []) (sym e) ∙ append_assoc a q (b'/' ∷ [])),
      )
    ]

-- What `unlink` and `rmdir` of the paths below a directory keep.
abbrev pub KeptBelow : (F : FileSystem) → (F.Disk → Type 0) → List ℕ → Type 0
KeptBelow F P path =
    (disk : F.Disk) (q : List ℕ)
    → P disk
    → P (F.unlink disk (opened path ++ q)).0 × P (F.rmdir disk (opened path ++ q)).0

-- The answer, where there is one.
abbrev pub Kept : {F : FileSystem} → (F.Disk → Type 0) → Option (Files F × Bool) → Type 0
Kept P none = Unit
Kept P (some (s, done)) = P s.disk

module _ (F : FileSystem) (P : F.Disk → Type 0) (path : List ℕ) (kept : KeptBelow F P path) where
  clear-After :
      (walk : List ℕ → F.Disk → Removal F.Disk) (prefix : List ℕ) (rl : ℕ)
      → ((q : List ℕ) (disk : F.Disk) → P disk → After P (walk (opened path ++ q) disk))
      → (r : List ℕ) → prefix ≡ opened path ++ r
      → (names : List (List ℕ)) (disk : F.Disk) → P disk
      → After P (clear F walk prefix rl names disk)
  unfolding clear
  clear-After walk prefix rl inner r at [] disk p = p
  clear-After walk prefix rl inner r at (name ∷ names) disk p =
      let rest =
        λ (left : F.Disk) (l : P left). clear-After walk prefix rl inner r at names left l in
      elim (Bool-cases (is_own name)) [
        | inl own ↦ rw own (rest disk p)
        | inr other ↦ elim (Bool-cases (leb rl (length name))) [
          | inl long ↦ rw (other, long) tt
          | inr fits ↦
              rw (other, fits)
                (go_on-After P (clear F walk prefix rl names) _ rest (
                  entry (prefix ++ name) (r ++ name)
                    (ap (λ t. t ++ name) at ∙ append_assoc (opened path) r name)
                    (F.stat disk (prefix ++ name))))
        ]
      ]
    where
      entry :
          (fpath q : List ℕ)
          → fpath ≡ opened path ++ q
          → (st : Option Stat) → After P (entry_removed F walk fpath disk st)
      entry fpath q e none = p
      entry fpath q e (some st) = elim (Bool-cases st.is_dir) [
        | inl folder ↦ rw (folder, e) (inner q disk p)
        | inr file ↦ rw (file, e) (kept disk q p).0
      ]

  emptied-After :
      (walk : List ℕ → F.Disk → Removal F.Disk) (sub r : List ℕ)
      → opened sub ≡ opened path ++ r
      → ((q : List ℕ) (disk : F.Disk) → P disk → After P (walk (opened path ++ q) disk))
      → ((disk : F.Disk) → P disk → P (F.rmdir disk sub).0)
      → (disk : F.Disk) → P disk
      → (names : Option (List (List ℕ))) → After P (emptied F walk sub disk names)
  emptied-After walk sub r at inner own disk p none = p
  emptied-After walk sub r at inner own disk p (some names) =
      go_on-After P (λ left. answered (F.rmdir left sub)) _ own
        (clear-After walk (opened sub) _ inner r at names disk p)

  inner_After :
      (n : ℕ) (q : List ℕ) (disk : F.Disk)
      → P disk
      → After P (remove_directory F n (opened path ++ q) disk)
  unfolding remove_directory
  inner_After zero q disk p = tt
  inner_After (suc n) q disk p =
      let (r, at) = opened-append (opened path) q in
      elim (Bool-cases (leb maxpathlen (length (opened (opened path ++ q))))) [
        | inl full ↦ rw full p
        | inr room ↦ rw room (
            emptied-After (remove_directory F n) (opened path ++ q) r at (inner_After n)
              (λ left l. (kept left q l).1) disk p (F.readdir disk (opened path ++ q)))
      ]

  module _ (own : (disk : F.Disk) → P disk → P (F.rmdir disk path).0) where
    remove_directory-After :
        (n : ℕ) (disk : F.Disk) → P disk → After P (remove_directory F n path disk)
    unfolding remove_directory
    remove_directory-After zero disk p = tt
    remove_directory-After (suc n) disk p =
        elim (Bool-cases (leb maxpathlen (length (opened path)))) [
          | inl full ↦ rw full p
          | inr room ↦ rw room (
              emptied-After (remove_directory F n) path [] (sym (append-nil (opened path)))
                (inner_After n) own disk p (F.readdir disk path))
        ]

    -- f_rmdir_recursive keeps what no unlink and no rmdir of the directory or of a path below it
    -- changes: it touches nothing else, whatever the file system holds.
    pub rmdir_recursive-Kept : (s : Files F) → P s.disk → Kept P (rmdir_recursive F s path)
    unfolding rmdir_recursive
    rmdir_recursive-Kept s p = tried (F.rmdir s.disk path) (own s.disk p)
      where
        ended : (t : Files F) (r : Removal F.Disk) → After P r → Kept P (moved F t r)
        ended t (removed disk done) a = a
        ended t overrun a = tt
        ended t out_of_fuel a = tt

        failed : (t : Files F) → P t.disk → Kept P (rmdir_failed F t path)
        failed t p =
            let r = Config.truth_value t.conf (codes "global") (codes "allow_recursive_remove") in
            elim (Bool-cases (allowed F r.1)) [
              | inl permitted ↦ rw permitted (
                  ended (record t { conf = r.0 }) (remove_directory F depth path t.disk)
                    (remove_directory-After depth t.disk p))
              | inr denied ↦ rw denied p
            ]

        tried : (r : F.Disk × Bool) → P r.0 → Kept P (rmdir_tried F s path r)
        tried (disk, true) a = a
        tried (disk, false) a = failed (record s { disk = disk }) a

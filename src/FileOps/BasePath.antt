-- ===== src/FileOps/BasePath.antt =====
-- What f_init makes of the settings.
use hotwired.FileOps.{
  FileSystem, Files, maxpathlen, ends_in, without_last, starts_in, with_slash, single_slash,
  configured_path, working_path, or_working, init,
}
use mathlib.Core.List.{append_assoc}
use hotwired.Prelude.{
  sym, lt→ltb, ℕ, ◌+◌, ◌<◌, ◌≡◌, ◌≢◌, refl, ap, ◌∙◌, Bool, true, false, ◌||◌, Bool-cases,
  Option-cases, inl, inr, Option, none, some, List, [], ◌∷◌, ◌++◌, length, if◌then◌else◌,
}

abbrev slash : ℕ
slash = b'/'

ends_in-append : (s : List ℕ) → ends_in slash (s ++ slash ∷ []) ≡ true
unfolding ends_in
ends_in-append [] = refl
ends_in-append (c ∷ []) = refl
ends_in-append (c ∷ d ∷ s) = ends_in-append (d ∷ s)

ends_in-with_slash : (s : List ℕ) → ends_in slash (with_slash s) ≡ true
ends_in-with_slash s = elim (Bool-cases (ends_in slash s)) [
  | inl ended ↦ rw ended ended
  | inr other ↦ rw other (ends_in-append s)
]

ends_in-single_slash : (p : List ℕ) → ends_in slash p ≡ true → ends_in slash (single_slash p) ≡ true
ends_in-single_slash p h = elim (Bool-cases (ends_in slash (without_last p))) [
  | inl twice ↦ rw twice twice
  | inr once ↦ rw once h
]

-- A path of the settings is none, empty, or one of a directory.
abbrev IsDirectory : Option (List ℕ) → Type 0
IsDirectory none = Unit
IsDirectory (some []) = Unit
IsDirectory (some (c ∷ s)) = ends_in slash (c ∷ s) ≡ true

directory : (p : List ℕ) → ends_in slash p ≡ true → IsDirectory (some p)
directory [] h = tt
directory (c ∷ s) h = h

configured_path-IsDirectory :
    (server_fp server_bp : Option (List ℕ)) → IsDirectory (configured_path server_fp server_bp)
unfolding configured_path
configured_path-IsDirectory none server_bp = tt
configured_path-IsDirectory (some []) none = tt
configured_path-IsDirectory (some (c ∷ s)) none =
    directory (with_slash (c ∷ s)) (ends_in-with_slash (c ∷ s))
configured_path-IsDirectory (some []) (some []) = tt
configured_path-IsDirectory (some (c ∷ s)) (some []) =
    directory (with_slash (c ∷ s)) (ends_in-with_slash (c ∷ s))
configured_path-IsDirectory (some fp) (some (c ∷ s)) =
    directory (single_slash _)
      (ends_in-single_slash _ (either (ends_in slash (c ∷ s) || starts_in slash fp)))
  where
    either :
        (b : Bool)
        → ends_in slash
            (if b then (c ∷ s) ++ fp ++ slash ∷ [] else (c ∷ s) ++ slash ∷ (fp ++ slash ∷ []))
          ≡ true
    either true = ends_in-append ((c ∷ s) ++ fp)
    either false =
        ap (ends_in slash) (sym (append_assoc (c ∷ s) (slash ∷ fp) (slash ∷ [])))
        ∙ ends_in-append ((c ∷ s) ++ slash ∷ fp)

ends_in-working_path :
    (cwd : List ℕ)
    → cwd ≢ []
    → length cwd + 1 < maxpathlen
    → ends_in slash (working_path cwd) ≡ true
unfolding working_path
ends_in-working_path [] ne short = absurd (ne refl)
ends_in-working_path (c ∷ s) ne short = elim (Bool-cases (ends_in slash (c ∷ s))) [
  | inl ended ↦ rw ended ended
  | inr other ↦ rw (other, lt→ltb (length (c ∷ s) + 1) maxpathlen short) (ends_in-append (c ∷ s))
]

module _ (F : FileSystem) (disk : F.Disk) (nowhere : F.stat disk [] ≡ none)
    (somewhere : F.getcwd disk ≢ []) (short : length (F.getcwd disk) + 1 < maxpathlen) where
  ends_in-or_working :
      (path : Option (List ℕ)) → IsDirectory path → ends_in slash (or_working F disk path) ≡ true
  ends_in-or_working none d = ends_in-working_path (F.getcwd disk) somewhere short
  ends_in-or_working (some []) d =
      rw (nowhere, or_working) (ends_in-working_path (F.getcwd disk) somewhere short)
  ends_in-or_working (some (c ∷ s)) d = elim (Option-cases (F.stat disk (c ∷ s))) [
    | inl gone ↦ rw (gone, or_working) (ends_in-working_path (F.getcwd disk) somewhere short)
    | inr (st, there) ↦ rw (there, or_working) d
  ]

-- Whatever the settings are, f_init makes a base path that ends in a slash, so that f_addpath makes
-- paths in that directory: where stat fails for the empty path, and getcwd answers a path that is not
-- empty and leaves room for a slash.
pub ends_in-init :
    (F : FileSystem) (s : Files F)
    → F.stat s.disk [] ≡ none
    → F.getcwd s.disk ≢ []
    → length (F.getcwd s.disk) + 1 < maxpathlen
    → ends_in b'/' (init F s).base_path ≡ true
unfolding init
ends_in-init F s nowhere somewhere short =
    ends_in-or_working F s.disk nowhere somewhere short _ (configured_path-IsDirectory _ _)

-- ===== src/Config/Lines.antt =====
-- Lines that a printer of settings writes, and what the parser makes of each.
use hotwired.Config.{strip, is_section, section_name, split, unquote, last_quote, values, is_space}
use hotwired.Prelude.Texts.{contains, strchr, strchr-append, strchr-none, contains-append}
use hotwired.Prelude.{
  ◌⊎◌, Bool-cases, inl, inr, ==_iff, ℕ, ◌≡◌, refl, ap, sym, ◌∙◌, Bool, true, false, ◌||◌, some,
  List, [], ◌∷◌, ◌++◌, map, All, ◌==◌, arith,
}
use mathlib.Core.List.{append_assoc, append-nil}

-- A value in quotes.
abbrev pub quoted : List ℕ → List ℕ
quoted v = b'"' ∷ (v ++ b'"' ∷ [])

-- Behind a value, the others, each behind a comma.
unfoldable pub others : List (List ℕ) → List ℕ
others [] = []
others (v ∷ vs) = b',' ∷ (quoted v ++ others vs)

-- A header, or a variable with its values.
pub data Line : Type 0 where
  header : List ℕ → Line
  setting : List ℕ → List ℕ → List (List ℕ) → Line

-- A line, without its end.
unfoldable pub printed : Line → List ℕ
printed (header s) = b'[' ∷ (s ++ b']' ∷ [])
printed (setting name v vs) = name ++ b'=' ∷ (quoted v ++ others vs)

-- What a value may not contain: a quote, a comma, an end of line, a bracket, and a terminator.
unfoldable pub is_special : ℕ → Bool
is_special c = (c == 0 || c == b'\n') || ((c == b'"' || c == b',') || (c == b'[' || c == b']'))

-- What a name may not contain besides: a blank, the comment sign, and the equals sign.
unfoldable pub is_separator : ℕ → Bool
is_separator c = is_special c || (is_space c || (c == b'#' || c == b'='))

abbrev pub IsValue : List ℕ → Type 0
IsValue v = All (λ c. is_special c ≡ false) v

abbrev pub IsName : List ℕ → Type 0
IsName s = All (λ c. is_separator c ≡ false) s

abbrev pub IsPlain : Line → Type 0
IsPlain (header s) = IsName s
IsPlain (setting name v vs) = IsName name × IsValue v × All IsValue vs

-- A text whose characters fail a test lacks what passes it.
lacks :
    (p : ℕ → Bool) (c : ℕ) (v : List ℕ)
    → p c ≡ true
    → All (λ d. p d ≡ false) v
    → contains c v ≡ false
unfolding contains
lacks p c [] special h = refl
lacks p c (d ∷ v) special (h, t) = elim (Bool-cases (d == c)) [
  | inl same ↦ absurd (clash ((==_iff d c).0 same))
  | inr other ↦ rw other (lacks p c v special t)
]
  where
    clash : d ≡ c → ⊥
    clash e = cc

strip-name : (s t : List ℕ) → IsName s → strip false (s ++ t) ≡ s ++ strip false t
unfolding strip is_separator is_special
strip-name [] t h = refl
strip-name (c ∷ s) t (h, g) = ground (arith, h, strip-name s t g)

strip-value : (v t : List ℕ) → IsValue v → strip true (v ++ b'"' ∷ t) ≡ v ++ b'"' ∷ strip false t
unfolding strip is_special
strip-value [] t h = refl
strip-value (c ∷ v) t (h, g) = ground (arith, h, strip-value v t g)

strip-quoted : (v t : List ℕ) → IsValue v → strip false (quoted v ++ t) ≡ quoted v ++ strip false t
unfolding strip
strip-quoted v t h =
    rw (append_assoc v (b'"' ∷ []) t, append_assoc v (b'"' ∷ []) (strip false t))
      (ap (◌∷◌ b'"') (strip-value v t h))

strip-others :
    (vs : List (List ℕ)) (t : List ℕ)
    → All IsValue vs
    → strip false (others vs ++ t) ≡ others vs ++ strip false t
unfolding strip others
strip-others [] t h = refl
strip-others (v ∷ vs) t (h, g) =
    let apart = λ (r : List ℕ). append_assoc (quoted v) (others vs) r in
    ap (λ r. strip false (b',' ∷ r)) (apart t)
    ∙ ap (◌∷◌ b',') (
        strip-quoted v (others vs ++ t) h
        ∙ ap (λ r. quoted v ++ r) (strip-others vs t g)
        ∙ sym (apart (strip false t)))

last_quote-append : (v : List ℕ) → last_quote (v ++ b'"' ∷ []) ≡ v
unfolding last_quote
last_quote-append [] = refl
last_quote-append (c ∷ []) = refl
last_quote-append (c ∷ d ∷ v) = ap (◌∷◌ c) (last_quote-append (d ∷ v))

unquote-quoted : (v : List ℕ) → unquote (quoted v) ≡ v
unfolding unquote
unquote-quoted v = last_quote-append v

split-whole : (comma : ℕ) (s : List ℕ) → contains comma s ≡ false → split comma s ≡ s ∷ []
unfolding split contains
split-whole comma [] h = refl
split-whole comma (c ∷ s) h = ground (arith, split-whole comma s)

split-append :
    (comma : ℕ) (s t : List ℕ)
    → contains comma s ≡ false
    → split comma (s ++ comma ∷ t) ≡ s ∷ split comma t
unfolding split contains
split-append comma [] t h = ground arith
split-append comma (c ∷ s) t h = ground (arith, split-append comma s t)

quoted-lacks :
    (c : ℕ) (v : List ℕ)
    → is_special c ≡ true
    → (c == b'"') ≡ false
    → IsValue v
    → contains c (quoted v) ≡ false
unfolding contains
quoted-lacks c v special other h =
    rw (contains-append c v (b'"' ∷ []), lacks is_special c v special h) (ground (arith, other))

split-others :
    (v : List ℕ) (vs : List (List ℕ))
    → IsValue v
    → All IsValue vs
    → split b',' (quoted v ++ others vs) ≡ map quoted (v ∷ vs)
unfolding others is_special
split-others v [] h g =
    rw (append-nil (quoted v)) (split-whole b',' (quoted v) (quoted-lacks b',' v refl refl h))
split-others v (w ∷ vs) h (i, g) =
    split-append b',' (quoted v) (quoted w ++ others vs) (quoted-lacks b',' v refl refl h)
    ∙ ap (◌∷◌ (quoted v)) (split-others w vs i g)

unquote_all : (vs : List (List ℕ)) → map unquote (map quoted vs) ≡ vs
unquote_all [] = refl
unquote_all (v ∷ vs) = rw (unquote-quoted v, unquote_all vs) refl

-- The parser reads back the values.
pub values-others :
    (v : List ℕ) (vs : List (List ℕ))
    → IsValue v
    → All IsValue vs
    → values (quoted v ++ others vs) ≡ v ∷ vs
unfolding values
values-others v vs h g = ap (map unquote) (split-others v vs h g) ∙ unquote_all (v ∷ vs)

pub strip-printed :
    (l : Line) (t : List ℕ) → IsPlain l → strip false (printed l ++ t) ≡ printed l ++ strip false t
unfolding printed strip
strip-printed (header s) t h =
    let apart = λ (r : List ℕ). append_assoc s (b']' ∷ []) r in
    ap (λ r. strip false (b'[' ∷ r)) (apart t)
    ∙ ap (◌∷◌ b'[') (strip-name s (b']' ∷ t) h ∙ sym (apart (strip false t)))
strip-printed (setting name v vs) t (h, i, g) =
    let apart = λ (r : List ℕ). append_assoc name (b'=' ∷ (quoted v ++ others vs)) r in
    let apart_values = λ (r : List ℕ). append_assoc (quoted v) (others vs) r in
    ap (strip false) (apart t)
    ∙ strip-name name _ h
    ∙ ap (λ r. name ++ b'=' ∷ r)
        (ap (strip false) (apart_values t)
          ∙ strip-quoted v (others vs ++ t) i
          ∙ ap (λ r. quoted v ++ r) (strip-others vs t g)
          ∙ sym (apart_values (strip false t)))
    ∙ sym (apart (strip false t))

-- What none of the parts of a line contains.
others-lacks :
    (c : ℕ) (vs : List (List ℕ))
    → is_special c ≡ true
    → (c == b'"') ≡ false
    → (c == b',') ≡ false
    → All IsValue vs
    → contains c (others vs) ≡ false
unfolding contains others
others-lacks c [] special quote comma g = refl
others-lacks c (v ∷ vs) special quote comma (h, g) =
    rw (contains-append c (quoted v) (others vs), quoted-lacks c v special quote h)
      (ground (arith, others-lacks c vs special quote comma g))

name-lacks : (c : ℕ) (s : List ℕ) → is_special c ≡ true → IsName s → contains c s ≡ false
unfolding is_separator
name-lacks c s special h = lacks is_separator c s (rw special refl) h

setting-lacks :
    (c : ℕ) (name v : List ℕ) (vs : List (List ℕ))
    → is_special c ≡ true
    → (c == b'"') ≡ false
    → (c == b',') ≡ false
    → (c == b'=') ≡ false
    → IsPlain (setting name v vs)
    → contains c (printed (setting name v vs)) ≡ false
unfolding contains printed
setting-lacks c name v vs special quote comma equals (h, i, g) =
    rw (contains-append c name (b'=' ∷ (quoted v ++ others vs)), name-lacks c name special h)
      (let behind = contains-append c (quoted v) (others vs) in
        ground (
          arith,
          behind,
          quoted-lacks c v special quote i,
          others-lacks c vs special quote comma g,
        ))

-- No printed line has a terminator or an end of line.
pub printed-lacks :
    (c : ℕ) (l : Line) → (c ≡ 0) ⊎ (c ≡ b'\n') → IsPlain l → contains c (printed l) ≡ false
unfolding is_special contains printed
printed-lacks c (setting name v vs) (inl zeroed) h =
    setting-lacks c name v vs (ground arith) (ground arith) (ground arith) (ground arith) h
printed-lacks c (setting name v vs) (inr ended) h =
    setting-lacks c name v vs (ground arith) (ground arith) (ground arith) (ground arith) h
printed-lacks c (header s) e h = elim e [
  | inl zeroed ↦ header-lacks (ground arith) (ground arith) (ground arith)
  | inr ended ↦ header-lacks (ground arith) (ground arith) (ground arith)
]
  where
    header-lacks :
        is_special c ≡ true
        → (b'[' == c) ≡ false
        → (b']' == c) ≡ false
        → contains c (printed (header s)) ≡ false
    header-lacks special first last =
        rw (contains-append c s (b']' ∷ []), name-lacks c s special h) (ground (arith, first, last))

-- A header is one, with its name.
pub header-section :
    (s : List ℕ)
    → IsName s
    → (is_section (printed (header s)) ≡ true) × (section_name (printed (header s)) ≡ some s)
unfolding is_section section_name printed is_special strchr
header-section s h =
    let found = strchr-append s [] b']' (name-lacks b']' s refl h) in (rw found refl, rw found refl)

-- A setting is none, and its name ends at the equals sign.
pub setting-section :
    (name v : List ℕ) (vs : List (List ℕ))
    → IsPlain (setting name v vs)
    → (is_section (printed (setting name v vs)) ≡ false)
      × (strchr (printed (setting name v vs)) b'=' ≡ some (name, quoted v ++ others vs))
unfolding is_section is_special is_separator printed
setting-section name v vs h =
    let unopened =
      strchr-none (printed (setting name v vs)) b'['
        (setting-lacks b'[' name v vs refl refl refl refl h) in
    (
      rw unopened refl,
      strchr-append name (quoted v ++ others vs) b'=' (lacks is_separator b'=' name refl h.0),
    )

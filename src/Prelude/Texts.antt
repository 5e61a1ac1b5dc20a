-- ===== src/Prelude/Texts.antt =====
-- Texts of the C library: lists of bytes, with no terminator.
use Prim.Native.Char.{code}
use Prim.Native.String.{String}
use Prim.Native.Nat.{ℕ, zero, suc}
use mathlib.Core.Bool.{Bool, false, ◌||◌}
use Prim.Native.Nat.{◌≤◌}
use mathlib.Core.List.{List, [], ◌∷◌, ◌++◌, append_assoc}
use mathlib.Core.Option.{Option, none, some}
use mathlib.Core.Path.{◌≡◌, refl, ap, ◌∙◌}
use native.Mathlib.Omega.{arith}
use hotwired.Prelude.Lists.{length}
use hotwired.Prelude.Tests.{◌==◌, if◌then◌else◌}

-- The bytes of a literal.
abbrev pub codes : String → List ℕ
codes String.[] = []
codes (String.◌∷◌ c s) = code c ∷ codes s

-- The text that a pointer stands for: the memory up to the terminator.
unfoldable pub text_at : List ℕ → List ℕ
text_at [] = []
text_at (c ∷ s) = let rest = text_at s in if c == 0 then [] else c ∷ rest

abbrev after : ℕ → Option (List ℕ × List ℕ) → Option (List ℕ × List ℕ)
after c none = none
after c (some (before, behind)) = some (c ∷ before, behind)

-- `strchr`: what stands before the first such character, and behind it; `none` is NULL.
unfoldable pub strchr : List ℕ → ℕ → Option (List ℕ × List ℕ)
strchr [] c = none
strchr (d ∷ s) c = let rest = after d (strchr s c) in if d == c then some ([], s) else rest

unfoldable pub contains : ℕ → List ℕ → Bool
contains c [] = false
contains c (d ∷ s) = d == c || contains c s

-- A text without the character, the character, and what follows.
pub strchr-append :
    (s t : List ℕ) (c : ℕ) → contains c s ≡ false → strchr (s ++ c ∷ t) c ≡ some (s, t)
unfolding strchr contains
strchr-append [] t c h = ground arith
strchr-append (d ∷ s) t c h = ground (arith, strchr-append s t c)

pub strchr-none : (s : List ℕ) (c : ℕ) → contains c s ≡ false → strchr s c ≡ none
unfolding strchr contains
strchr-none [] c h = refl
strchr-none (d ∷ s) c h = ground (arith, strchr-none s c)

pub text_at-whole : (s : List ℕ) → contains 0 s ≡ false → text_at s ≡ s
unfolding text_at contains
text_at-whole [] h = refl
text_at-whole (c ∷ s) h = ground (arith, text_at-whole s)

pub contains-append : (c : ℕ) (s t : List ℕ) → contains c (s ++ t) ≡ (contains c s || contains c t)
unfolding contains
contains-append c [] t = refl
contains-append c (d ∷ s) t = ground (arith, contains-append c s t)

-- `fgets` until the end of the file: pieces of at most `size` + 1 bytes, which end where a line does.
-- Behind `line` the buffer has room for the next byte and for `room` more.
unfoldable pub lines_from : ℕ → ℕ → List ℕ → List ℕ → List (List ℕ)
lines_from size room [] [] = []
lines_from size room (c ∷ line) [] = (c ∷ line) ∷ []
lines_from size zero line (c ∷ s) = (line ++ c ∷ []) ∷ lines_from size size [] s
lines_from size (suc room) line (c ∷ s) =
    let ended = (line ++ c ∷ []) ∷ lines_from size size [] s in
    let longer = lines_from size room (line ++ c ∷ []) s in if c == b'\n' then ended else longer

pub or_false : (a b : Bool) → (a || b) ≡ false → (a ≡ false) × (b ≡ false)
or_false a b h = ground arith

-- A line that fits, with its end, comes as one piece.
pub lines_from-line :
    (size room : ℕ) (line s t : List ℕ)
    → contains b'\n' s ≡ false
    → length s ≤ room
    → lines_from size room line (s ++ b'\n' ∷ t)
      ≡ (line ++ (s ++ b'\n' ∷ [])) ∷ lines_from size size [] t
unfolding lines_from contains
lines_from-line size zero line [] t h f = refl
lines_from-line size (suc room) line [] t h f = refl
lines_from-line size zero line (c ∷ s) t h f = absurd (omega arith)
lines_from-line size (suc room) line (c ∷ s) t h f =
    let split = or_false (c == b'\n') (contains b'\n' s) h in
    rw (split.0, lines_from)
      (lines_from-line size room (line ++ c ∷ []) s t split.1 (omega arith)
        ∙ ap (λ x. x ∷ lines_from size size [] t) (append_assoc line (c ∷ []) (s ++ b'\n' ∷ [])))

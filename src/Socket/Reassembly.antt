-- ===== src/Socket/Reassembly.antt =====
-- The pieces in which the bytes arrive do not matter.
use mathlib.Core.List.{flatten}
use mathlib.Core.Path.{subst₂}
use hotwired.Prelude.{
  take-append_self, length-append, ◌∙◌, take_within, take_past, length-drop, ltb→lt, ℕ, zero, suc,
  ◌-◌, ◌≤◌, ◌<◌, ◌≡◌, refl, ap, sym, inl, inr, Bool-cases, Option, some, List, [], ◌∷◌, ◌++◌,
  length, take, drop, ltb, arith, All,
}
use hotwired.Socket.{Socket, before, read_all}

-- No `recv` returns 0.
abbrev pub IsOpen : Socket → Type 0
IsOpen = All (λ c. 0 < length c)

-- The read succeeds with `bs` and leaves `rest` to arrive.
abbrev pub Reads : Option (List ℕ × Socket) → List ℕ → List ℕ → Type 0
Reads r bs rest = (s : Socket) × (r ≡ some (bs, s)) × (flatten s ≡ rest) × IsOpen s

before-Reads :
    (c bs rest : List ℕ) (r : Option (List ℕ × Socket))
    → Reads r bs rest
    → Reads (before c r) (c ++ bs) rest
before-Reads c bs rest r (s, e, f, o) = (s, ap (before c) e, f, o)

-- `read_all` returns the first bytes to arrive, as many as it is asked for, and leaves the bytes
-- behind them, however the stream is cut into pieces.
pub read_all_lem :
    (n : ℕ) (s : Socket)
    → IsOpen s
    → n ≤ length (flatten s)
    → Reads (read_all n s) (take n (flatten s)) (drop n (flatten s))
unfolding read_all flatten
read_all_lem zero s o h = (s, refl, refl, o)
read_all_lem (suc n) [] o h = absurd (omega arith)
read_all_lem (suc n) ([] ∷ s) o h = absurd (omega arith)
read_all_lem (suc n) ((b ∷ bs) ∷ s) o h = elim (Bool-cases (ltb (suc n) (length (b ∷ bs)))) [
  | inl more ↦
      let (t, d) =
        take_within (suc n) (b ∷ bs) (flatten s)
          (omega (arith, ltb→lt (suc n) (length (b ∷ bs)) more)) in
      rw (more, read_all)
        (
          drop (suc n) (b ∷ bs) ∷ s,
          ap (λ x. some (x, drop (suc n) (b ∷ bs) ∷ s)) (sym t),
          sym d,
          (omega (arith, length-drop (suc n) (b ∷ bs), ltb→lt (suc n) (length (b ∷ bs)) more), o.1),
        )
  | inr all ↦
      let fits : length (b ∷ bs) ≤ suc n = ground arith in
      let (t, d) = take_past (suc n) (b ∷ bs) (flatten s) fits in
      let rest =
        read_all_lem (suc n - length (b ∷ bs)) s o.1
          (omega (arith, length-append (b ∷ bs) (flatten s))) in
      rw (all, read_all)
        (subst₂ (Reads (before (b ∷ bs) (read_all (suc n - length (b ∷ bs)) s))) (sym t) (sym d)
          (before-Reads (b ∷ bs) _ _ _ rest))
]

-- The same, said of bytes that are known to arrive first.
pub read_exact :
    (bs rest : List ℕ) (s : Socket)
    → IsOpen s
    → flatten s ≡ bs ++ rest
    → Reads (read_all (length bs) s) bs rest
read_exact bs rest s o e =
    let (t, d) = take-append_self bs rest in
    let r = read_all_lem (length bs) s o (omega (arith, ap length e, length-append bs rest)) in
    subst₂ (Reads (read_all (length bs) s)) (ap (take (length bs)) e ∙ t)
      (ap (drop (length bs)) e ∙ d) r

-- ===== src/Transaction/PathName/Safety.antt =====
-- What a path that is not refused consists of, and when the code leaves its buffers.
use hotwired.Prelude.{
  ℕ, zero, suc, ◌+◌, ◌-◌, ◌<◌, ◌≡◌, ◌≢◌, refl, ap, sym, ◌∙◌, inl, inr, Bool-cases, Option-cases,
  false, some, List, [], ◌∷◌, ◌++◌, length, take, drop, get_elem?, ltb, ltb→lt, arith, All,
}
use hotwired.Prelude.Bytes.{get16}
use hotwired.Prelude.Texts.{text_at}
use hotwired.Prelude.Int.{ℤ, pos, ◌+ℤ◌}
use hotwired.Transaction.{TransactionObject}
use hotwired.Transaction.PathName.{
  PathResult, null, fault, path, Check, refused, strayed, passed, has_slash, is_refused,
  check_names, prepend, copy_names, rounds, as_text, object_path,
}
use hotwired.Transaction.PathName.Offsets.{pos-+ℤ, drop-drop, get_elem?-drop, name_at-take}

-- The names with a slash behind each.
unfoldable pub join : List (List ℕ) → List ℕ
join [] = []
join (n ∷ ns) = n ++ b'/' ∷ join ns

-- No slash stands in the name, and it is not the name of the parent directory.
abbrev pub IsName : List ℕ → Type 0
IsName n = (has_slash n ≡ false) × (n ≢ b'.' ∷ b'.' ∷ [])

is_refused-IsName : (n : List ℕ) → is_refused n ≡ false → IsName n
is_refused-IsName n h = (ground arith, λ e. ground (arith, ap is_refused e))

-- One round of pass 1 that goes on, over a name of fewer than 128 bytes.
check_names-step :
    (i : ℕ) (bs : List ℕ) (size k b : ℕ) (r m : ℤ)
    → get_elem? bs (k + 2) ≡ some b
    → b < 128
    → check_names (suc i) bs size (pos k) r ≡ passed m
    → (is_refused (take b (drop (k + 3) bs)) ≡ false)
      × (check_names i bs size (pos (k + (b + 3))) (r +ℤ (pos b +ℤ pos 1)) ≡ passed m)
unfolding check_names
check_names-step i bs size k b r m at small h =
    ground (arith, pos-+ℤ k 2, pos-+ℤ k 3, pos-+ℤ b 3, pos-+ℤ k (b + 3), name_at-take bs (k + 3) b)

-- What a name in front of the rest of a path comes from.
prepend-path :
    (name p : List ℕ) (r : PathResult)
    → prepend name r ≡ path p
    → (q : List ℕ) × (r ≡ path q) × (p ≡ name ++ b'/' ∷ q)
prepend-path name p null h = cc
prepend-path name p fault h = cc
prepend-path name p (path q) h = (q, refl, cc)

-- One round of pass 2 that goes on.
record Copies (i : ℕ) (bs p : List ℕ) : Type 0 where
  b : ℕ
  q : List ℕ
  at : get_elem? bs 2 ≡ some b
  small : b < 128
  behind : copy_names i (drop (b + 3) bs) ≡ path q
  parts : p ≡ take b (drop 3 bs) ++ b'/' ∷ q

copy_names-step : (i : ℕ) (bs p : List ℕ) → copy_names (suc i) bs ≡ path p → Copies i bs p
unfolding copy_names
copy_names-step i bs p h = elim (Option-cases (get_elem? bs 2)) [
  | inl e ↦ absurd (ground arith)
  | inr (b, e) ↦ elim (Bool-cases (ltb b 128)) [
    | inl small ↦
        let (q, behind, parts) =
          prepend-path (take b (drop 3 bs)) p (copy_names i (drop (b + 3) bs)) (ground arith) in
        record { b = b; q = q; at = e; small = ltb→lt b 128 small; behind = behind; parts = parts }
    | inr large ↦ absurd (ground arith)
  ]
]

-- A path that both passes accept, from an offset on.
names_of :
    (i : ℕ) (bs p : List ℕ) (size k : ℕ) (r m : ℤ)
    → check_names i bs size (pos k) r ≡ passed m
    → copy_names i (drop k bs) ≡ path p
    → (ns : List (List ℕ)) × (length ns ≡ i) × (p ≡ join ns) × All IsName ns
unfolding join copy_names
names_of zero bs p size k r m h c = ([], refl, cc, tt)
names_of (suc i) bs p size k r m h c =
    let s = copy_names-step i (drop k bs) p c in
    let at : get_elem? bs (k + 2) ≡ some s.b = sym (get_elem?-drop k 2 bs) ∙ s.at in
    let (good, h') = check_names-step i bs size k s.b r m at s.small h in
    let behind : copy_names i (drop (k + (s.b + 3)) bs) ≡ path s.q =
      ap (copy_names i) (sym (drop-drop (s.b + 3) k bs)) ∙ s.behind in
    let (ns, many, joined, names) = names_of i bs s.q size (k + (s.b + 3)) _ m h' behind in
    let name = take s.b (drop (k + 3) bs) in
    (
      name ∷ ns,
      ap suc many,
      s.parts
          ∙ ap (λ n. take s.b n ++ b'/' ∷ s.q) (drop-drop 3 k bs)
          ∙ ap (λ q. name ++ b'/' ∷ q) joined,
      (is_refused-IsName name good, names),
    )

as_text-path :
    (r : PathResult) (p : List ℕ)
    → as_text r ≡ path p
    → (q : List ℕ) × (r ≡ path q) × (p ≡ text_at q)
as_text-path null p h = cc
as_text-path fault p h = cc
as_text-path (path q) p h = (q, refl, cc)

-- Whatever bytes a client sends, a path that transaction_object_path returns is what stands in front of
-- the first zero byte of a buffer, or all of it where it has none; and that consists of names with a
-- slash behind each, as many as the object announces, or none where it announces 2 ^ 15 or more, of
-- which none has a slash in it and none is made of the two bytes `..`.
pub object_path_safe :
    (o : TransactionObject) (p : List ℕ)
    → object_path o ≡ path p
    → (ns : List (List ℕ)) × (length ns ≡ rounds (get16 o.obj_data))
      × (p ≡ text_at (join ns))
      × All IsName ns
unfolding object_path
object_path_safe o p h =
    let n = rounds (get16 o.obj_data) in
    let bs = drop 2 o.obj_data in
    split n bs (check_names n bs (o.obj_len - 2) (pos 0) (pos 0)) refl (ground arith)
  where
    split :
        (n : ℕ) (bs : List ℕ) (c : Check)
        → check_names n bs (o.obj_len - 2) (pos 0) (pos 0) ≡ c
        → elim c [ refused ↦ null | strayed ↦ fault | passed m ↦ as_text (copy_names n bs) ]
          ≡ path p
        → (ns : List (List ℕ)) × (length ns ≡ n) × (p ≡ text_at (join ns)) × All IsName ns
    split n bs refused e h = cc
    split n bs strayed e h = cc
    split n bs (passed m) e h =
        let (q, copied, cut) = as_text-path (copy_names n bs) p h in
        let (ns, many, joined, names) = names_of n bs q (o.obj_len - 2) 0 (pos 0) m e copied in
        (ns, many, cut ∙ ap text_at joined, names)

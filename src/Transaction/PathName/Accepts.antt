-- ===== src/Transaction/PathName/Accepts.antt =====
-- Paths that are accepted, and objects that make the code leave its buffers.
use hotwired.Prelude.{
  ℕ, suc, ◌+◌, ◌-◌, ◌^◌, ◌≤◌, ◌<◌, ◌≡◌, refl, ap, sym, ◌∙◌, inl, inr, Bool-cases, false, some, List,
  [], ◌∷◌, ◌++◌, length, take, drop, get_elem?, ltb, lt→ltb, ◌==◌, arith, All, take-append_self,
  length-append,
}
use mathlib.Core.List.{append_assoc}
use native.Mathlib.Nat.{add_comm}
use hotwired.Prelude.Bytes.{be16, get16}
use hotwired.Prelude.Texts.{text_at, contains}
use hotwired.Prelude.Int.{ℤ, pos, negsuc, ◌+ℤ◌, ◌-ℤ◌, ltb_ℤ}
use hotwired.Transaction.{TransactionObject}
use hotwired.Transaction.PathName.{
  fault, path, passed, signed8, has_slash, is_dots, is_refused, check_names, copy_names, as_text,
  object_path,
}
use hotwired.Transaction.PathName.Offsets.{pos-+ℤ, drop-drop, get_elem?-drop, name_at-take}
use hotwired.Transaction.PathName.Safety.{join, IsName}

-- A name behind the two bytes that the code skips and its length, as a client sends it.
abbrev entry : List ℕ → List ℕ
entry n = 0 ∷ 0 ∷ length n ∷ n

unfoldable pub entries : List (List ℕ) → List ℕ
entries [] = []
entries (n ∷ ns) = entry n ++ entries ns

abbrev pub path_object : ℕ → List (List ℕ) → TransactionObject
path_object type ns =
    let bs = be16 (length ns) ++ entries ns in
    record { obj_id = type; obj_len = length bs; obj_data = bs }

fits-ltb_ℤ : (size k c : ℕ) → k + c ≤ size → ltb_ℤ (pos size -ℤ pos k) (pos c) ≡ false
unfolding ◌-ℤ◌
fits-ltb_ℤ size k c h = ground arith

IsName-is_refused : (n : List ℕ) → IsName n → is_refused n ≡ false
unfolding has_slash
IsName-is_refused [] h = refl
IsName-is_refused (a ∷ []) h = h.0
IsName-is_refused (a ∷ b ∷ []) h = elim (Bool-cases (is_dots (a ∷ b ∷ []))) [
  | inl e ↦ absurd (h.1 (ground arith))
  | inr e ↦ rw (e, is_refused) h.0
]
IsName-is_refused (a ∷ b ∷ c ∷ bs) h = h.0

check_names-next :
    (i : ℕ) (bs : List ℕ) (size k b : ℕ) (r : ℤ)
    → get_elem? bs (k + 2) ≡ some b
    → b < 128
    → k + (b + 3) ≤ size
    → is_refused (take b (drop (k + 3) bs)) ≡ false
    → check_names (suc i) bs size (pos k) r
      ≡ check_names i bs size (pos (k + (b + 3))) (r +ℤ (pos b +ℤ pos 1))
unfolding check_names
check_names-next i bs size k b r at small inside good = ground (
  arith,
  pos-+ℤ k 2,
  pos-+ℤ k 3,
  pos-+ℤ b 3,
  pos-+ℤ k (b + 3),
  name_at-take bs (k + 3) b,
  fits-ltb_ℤ size k 3,
  fits-ltb_ℤ size k (b + 3),
)

-- A name that a client may send: it also fits the length byte.
abbrev pub IsSent : List ℕ → Type 0
IsSent n = (length n < 128) × IsName n

drop-entry : (n rest : List ℕ) → drop (length n + 3) (entry n ++ rest) ≡ rest
drop-entry n rest =
    ap (λ k. drop k (entry n ++ rest)) (add_comm (length n) 3)
    ∙ sym (drop-drop (length n) 3 (entry n ++ rest))
    ∙ (take-append_self n rest).1

check_names-entries :
    (ns : List (List ℕ)) (bs : List ℕ) (size k : ℕ) (r : ℤ)
    → drop k bs ≡ entries ns
    → k + length (entries ns) ≤ size
    → All IsSent ns
    → (m : ℤ) × (check_names (length ns) bs size (pos k) r ≡ passed m)
unfolding entries
check_names-entries [] bs size k r e h a = (r, unfold check_names in refl)
check_names-entries (n ∷ ns) bs size k r e h a =
    let at : get_elem? bs (k + 2) ≡ some (length n) =
      sym (get_elem?-drop k 2 bs) ∙ ap (λ x. get_elem? x 2) e in
    let here : take (length n) (drop (k + 3) bs) ≡ n =
      ap (take (length n)) (sym (drop-drop 3 k bs) ∙ ap (drop 3) e)
      ∙ (take-append_self n (entries ns)).0 in
    let behind : drop (k + (length n + 3)) bs ≡ entries ns =
      sym (drop-drop (length n + 3) k bs)
      ∙ ap (drop (length n + 3)) e
      ∙ drop-entry n (entries ns) in
    let size_n = length-append n (entries ns) in
    let (m, rest) =
      check_names-entries ns bs size (k + (length n + 3)) _ behind (omega arith) a.1 in
    (
      m,
      check_names-next (length ns) bs size k (length n) r at a.0.0 (omega arith)
            (ap is_refused here ∙ IsName-is_refused n a.0.1)
          ∙ rest,
    )

copy_names-entries :
    (ns : List (List ℕ)) → All IsSent ns → copy_names (length ns) (entries ns) ≡ path (join ns)
unfolding entries copy_names join
copy_names-entries [] a = refl
copy_names-entries (n ∷ ns) a =
    rw
      (
        lt→ltb (length n) 128 a.0.0,
        (take-append_self n (entries ns)).0,
        drop-entry n (entries ns),
        copy_names-entries ns a.1,
      )
      refl

-- The path that a client sends as a list of names, of fewer than 128 bytes each, with no slash and
-- no `..`, is returned as these names with a slash behind each, of which a C string ends at the first
-- zero byte.
pub object_path-path_object :
    (type : ℕ) (n : List ℕ) (ns : List (List ℕ))
    → All IsSent (n ∷ ns)
    → length (n ∷ ns) < 2 ^ 15
    → object_path (path_object type (n ∷ ns)) ≡ path (text_at (join (n ∷ ns)))
unfolding object_path
object_path-path_object type n ns a few =
    let all = n ∷ ns in
    let count : get16 (be16 (length all)) ≡ length all = omega arith in
    let (m, checked) =
      check_names-entries all (entries all) (length (entries all)) 0 (pos 0) refl (omega arith) a in
    let size : suc (suc (length (entries all))) - 2 ≡ length (entries all) = omega arith in
    let enough : ltb (suc (suc (length (entries all)))) 2 ≡ false = ground arith in
    let some_name : length all == 0 ≡ false = ground arith in
    rw (enough, count, some_name, lt→ltb (length all) (2 ^ 15) few, size, checked)
      (rw (count, lt→ltb (length all) (2 ^ 15) few) (ap as_text (copy_names-entries all a)))

text_at-append : (s t : List ℕ) → contains 0 s ≡ false → text_at (s ++ t) ≡ s ++ text_at t
unfolding text_at contains
text_at-append [] t h = refl
text_at-append (c ∷ s) t h = ground (arith, text_at-append s t)

join-append : (ns : List (List ℕ)) (n : List ℕ) → join (ns ++ n ∷ []) ≡ join ns ++ (n ++ b'/' ∷ [])
unfolding join
join-append [] n = refl
join-append (m ∷ ns) n =
    ap (λ l. m ++ b'/' ∷ l) (join-append ns n)
    ∙ sym (append_assoc m (b'/' ∷ join ns) (n ++ b'/' ∷ []))

-- The name `..` with a zero byte behind it.
abbrev pub parent : List ℕ
parent = b'.' ∷ b'.' ∷ 0 ∷ []

-- Where a client sends a name of fewer than 128 bytes, with no slash, no zero byte and no `..`, and
-- behind it one that is `..` and a zero byte, the path that is returned is the first name, a slash
-- and `..`: transaction_object_path looks at the length of a name, and its callers at the zero byte.
pub object_path-parent :
    (type : ℕ) (n : List ℕ)
    → IsSent n
    → contains 0 (join (n ∷ [])) ≡ false
    → object_path (path_object type (n ∷ parent ∷ [])) ≡ path (join (n ∷ []) ++ b'.' ∷ b'.' ∷ [])
unfolding has_slash text_at
object_path-parent type n sent whole =
    object_path-path_object type n (parent ∷ []) (sent, ((omega arith, (refl, λ e. cc)), tt))
      (omega arith)
    ∙ ap (λ p. path (text_at p)) (join-append (n ∷ []) parent)
    ∙ ap path (text_at-append (join (n ∷ [])) (parent ++ b'/' ∷ []) whole)

signed8_large : (c : ℕ) → 128 ≤ c → signed8 c ≡ negsuc (255 - c)
signed8_large c h = ground arith

negative_fits :
    (size c : ℕ) → 3 ≤ size → ltb_ℤ (pos size -ℤ pos 0) (negsuc (255 - c) +ℤ pos 3) ≡ false
unfolding ◌-ℤ◌ ◌+ℤ◌
negative_fits size c h = ground arith

check_names_negative :
    (a b c size : ℕ) (rest : List ℕ)
    → 128 ≤ c
    → 3 ≤ size
    → check_names 1 (a ∷ b ∷ c ∷ rest) size (pos 0) (pos 0)
      ≡ passed (pos 0 +ℤ (negsuc (255 - c) +ℤ pos 1))
unfolding check_names has_slash
check_names_negative a b c size rest h k =
    ground
      (arith, pos-+ℤ 0 2, pos-+ℤ 0 3, fits-ltb_ℤ size 0 3, signed8_large c, negative_fits size c)

copy_names_negative :
    (a b c : ℕ) (rest : List ℕ) → 128 ≤ c → copy_names 1 (a ∷ b ∷ c ∷ rest) ≡ fault
unfolding copy_names
copy_names_negative a b c rest h = ground arith

-- The length byte of a name is an `int8_t`. An object of one name whose length byte is 128 or more
-- passes the first pass, with a length of the path that is not positive; the second pass, which is then
-- to copy a negative number of bytes, faults, and so does the whole.
pub negative_length_faults :
    (type a b c : ℕ) (rest : List ℕ)
    → 128 ≤ c
    → let bs = be16 1 ++ a ∷ b ∷ c ∷ rest in
      (check_names 1 (a ∷ b ∷ c ∷ rest) (length bs - 2) (pos 0) (pos 0)
        ≡ passed (pos 0 +ℤ (negsuc (255 - c) +ℤ pos 1)))
      × (copy_names 1 (a ∷ b ∷ c ∷ rest) ≡ fault)
      × (object_path (record { obj_id = type; obj_len = length bs; obj_data = bs }) ≡ fault)
unfolding object_path
negative_length_faults type a b c rest h =
    let n = length (a ∷ b ∷ c ∷ rest) in
    let size : suc (suc n) - 2 ≡ n = omega arith in
    let enough : ltb (suc (suc n)) 2 ≡ false = ground arith in
    let first =
      ap (λ k. check_names 1 (a ∷ b ∷ c ∷ rest) k (pos 0) (pos 0)) size
      ∙ check_names_negative a b c n rest h (omega arith) in
    (
      first,
      copy_names_negative a b c rest h,
      rw (enough, size, check_names_negative a b c n rest h (omega arith))
          (ap as_text (copy_names_negative a b c rest h)),
    )

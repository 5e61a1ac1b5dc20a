-- ===== src/Multiplexer/Entries.antt =====
-- Which descriptors are in the table of the multiplexer, whatever becomes of a round.
use hotwired.Multiplexer.{
  Mevent, PollFd, Multiplexer, is_ready, polled, begun, next_ready, reported, passed_over, scanned,
  multiplexer_add, multiplexer_remove, multiplexer_poll, with_revents, search, without, one_further,
  removed_at,
}
use hotwired.Prelude.Counts.{to_nat, count, erase, count-append}
use hotwired.Prelude.{
  ℕ, zero, suc, ◌+◌, ◌<◌, ◌≡◌, refl, sym, ap, ◌∙◌, true, false, Bool-cases, inl, inr, Option, none,
  some, List, [], ◌∷◌, ◌++◌, drop, ◌==◌, arith,
}
use mathlib.Core.Path.{subst}

abbrev pub descriptors : List PollFd → List ℕ
descriptors [] = []
descriptors (e ∷ l) = e.fd ∷ descriptors l

abbrev pub waiting : Multiplexer → List ℕ
waiting m = descriptors m.fdtbl

descriptors-append : (l r : List PollFd) → descriptors (l ++ r) ≡ descriptors l ++ descriptors r
descriptors-append [] r = refl
descriptors-append (e ∷ l) r = ap (λ d. e.fd ∷ d) (descriptors-append l r)

descriptors-with_revents :
    (l : List PollFd) (revents : List ℕ) → descriptors (with_revents l revents) ≡ descriptors l
descriptors-with_revents [] revents = refl
descriptors-with_revents (e ∷ l) [] = ap (λ d. e.fd ∷ d) (descriptors-with_revents l [])
descriptors-with_revents (e ∷ l) (r ∷ revents) =
    ap (λ d. e.fd ∷ d) (descriptors-with_revents l revents)

polled-waiting :
    (m : Multiplexer) (answer : Option (List ℕ)) → waiting (polled m answer) ≡ waiting m
polled-waiting m none = refl
polled-waiting m (some revents) = descriptors-with_revents m.fdtbl revents

begun-waiting : (m : Multiplexer) (answer : Option (List ℕ)) → waiting (begun m answer) ≡ waiting m
begun-waiting m answer = elim (Bool-cases m.pcomplete) [
  | inl going ↦ rw going refl
  | inr over ↦ rw over (polled-waiting m answer)
]

reported-waiting :
    (m : Multiplexer) (o : Option (ℕ × PollFd)) → waiting (reported m o).0 ≡ waiting m
reported-waiting m none = refl
reported-waiting m (some r) = refl

scanned-waiting : (m : Multiplexer) → waiting (scanned m).0 ≡ waiting m
scanned-waiting m = elim (Bool-cases (m.retfds == 0)) [
  | inl over ↦ rw over refl
  | inr going ↦ rw going (reported-waiting m (next_ready (drop m.curfd m.fdtbl)))
]

-- A call of multiplexer_poll leaves the same descriptors in the table.
pub multiplexer_poll-waiting :
    (answer : Option (List ℕ)) (m : Multiplexer) → waiting (multiplexer_poll answer m).0 ≡ waiting m
unfolding multiplexer_poll
multiplexer_poll-waiting answer m = scanned-waiting (begun m answer) ∙ begun-waiting m answer

-- What a report names is in the table.
abbrev IsIn : List PollFd → Option (ℕ × PollFd) → Type 0
IsIn l none = Unit
IsIn l (some (i, e)) = 0 < count e.fd (descriptors l)

passed_over-IsIn :
    (e : PollFd) (l : List PollFd) (o : Option (ℕ × PollFd))
    → IsIn l o
    → IsIn (e ∷ l) (passed_over o)
unfolding count
passed_over-IsIn e l none h = tt
passed_over-IsIn e l (some (i, d)) h = omega (arith, h)

next_ready-IsIn : (l : List PollFd) → IsIn l (next_ready l)
unfolding next_ready count
next_ready-IsIn [] = tt
next_ready-IsIn (e ∷ l) = elim (Bool-cases (is_ready e)) [
  | inl here ↦ rw here (ground arith)
  | inr away ↦ rw away (passed_over-IsIn e l (next_ready l) (next_ready-IsIn l))
]

drop-IsIn : (n : ℕ) (l : List PollFd) (o : Option (ℕ × PollFd)) → IsIn (drop n l) o → IsIn l o
unfolding count
drop-IsIn n l none h = tt
drop-IsIn zero l (some r) h = h
drop-IsIn (suc n) [] (some r) h = h
drop-IsIn (suc n) (e ∷ l) (some (i, d)) h = omega (arith, drop-IsIn n l (some (i, d)) h)

abbrev pub IsKnown : Multiplexer → Option (ℕ × Option Mevent) → Type 0
IsKnown m none = Unit
IsKnown m (some (fd, event)) = 0 < count fd (waiting m)

reported-IsKnown :
    (m : Multiplexer) (o : Option (ℕ × PollFd)) → IsIn m.fdtbl o → IsKnown m (reported m o).1
reported-IsKnown m none h = tt
reported-IsKnown m (some r) h = h

scanned-IsKnown : (m : Multiplexer) → IsKnown m (scanned m).1
scanned-IsKnown m = elim (Bool-cases (m.retfds == 0)) [
  | inl over ↦ rw over tt
  | inr going ↦
      let found = next_ready (drop m.curfd m.fdtbl) in
      rw going (
        reported-IsKnown m found
          (drop-IsIn m.curfd m.fdtbl found (next_ready-IsIn (drop m.curfd m.fdtbl))))
]

IsKnown-same :
    (m n : Multiplexer) (o : Option (ℕ × Option Mevent))
    → waiting m ≡ waiting n
    → IsKnown m o
    → IsKnown n o
IsKnown-same m n none e h = tt
IsKnown-same m n (some (fd, event)) e h = subst (λ l. 0 < count fd l) e h

-- What a call of multiplexer_poll reports is in the table.
pub multiplexer_poll-IsKnown :
    (answer : Option (List ℕ)) (m : Multiplexer)
    → IsKnown (multiplexer_poll answer m).0 (multiplexer_poll answer m).1
unfolding multiplexer_poll
multiplexer_poll-IsKnown answer m =
    let b = begun m answer in
    IsKnown-same b (scanned b).0 (scanned b).1 (sym (scanned-waiting b)) (scanned-IsKnown b)

-- The entry that multiplexer_remove deletes is the first of its descriptor.
abbrev Erased : ℕ → List PollFd → Option (ℕ × PollFd) → Type 0
Erased fd l none = descriptors l ≡ erase fd (descriptors l)
Erased fd l (some (i, e)) = descriptors (without i l) ≡ erase fd (descriptors l)

one_further-Erased :
    (fd : ℕ) (e : PollFd) (l : List PollFd) (o : Option (ℕ × PollFd))
    → (fd == e.fd) ≡ false
    → Erased fd l o
    → Erased fd (e ∷ l) (one_further o)
unfolding erase
one_further-Erased fd e l none other h = rw other (ap (λ d. e.fd ∷ d) h)
one_further-Erased fd e l (some (i, d)) other h = rw other (ap (λ d. e.fd ∷ d) h)

search-Erased : (fd : ℕ) (l : List PollFd) → Erased fd l (search fd l)
unfolding search erase
search-Erased fd [] = refl
search-Erased fd (e ∷ l) = elim (Bool-cases (e.fd == fd)) [
  | inl same ↦ let back : (fd == e.fd) ≡ true = ground arith in rw same (rw back refl)
  | inr other ↦
      let back : (fd == e.fd) ≡ false = ground arith in
      rw other (one_further-Erased fd e l (search fd l) back (search-Erased fd l))
]

removed_at-erase :
    (fd : ℕ) (m : Multiplexer) (o : Option (ℕ × PollFd))
    → Erased fd m.fdtbl o
    → waiting (removed_at m o) ≡ erase fd (waiting m)
removed_at-erase fd m none h = h
removed_at-erase fd m (some r) h = h

pub multiplexer_remove-erase :
    (m : Multiplexer) (fd : ℕ) → waiting (multiplexer_remove m fd) ≡ erase fd (waiting m)
unfolding multiplexer_remove
multiplexer_remove-erase m fd = removed_at-erase fd m (search fd m.fdtbl) (search-Erased fd m.fdtbl)

pub multiplexer_add-waiting :
    (m : Multiplexer) (fd : ℕ) (event : Mevent)
    → waiting (multiplexer_add m fd event) ≡ waiting m ++ fd ∷ []
unfolding multiplexer_add
multiplexer_add-waiting m fd event = descriptors-append m.fdtbl _

pub multiplexer_add-count :
    (m : Multiplexer) (fd : ℕ) (event : Mevent) (q : ℕ)
    → count q (waiting (multiplexer_add m fd event)) ≡ count q (waiting m) + to_nat (q == fd)
unfolding count
multiplexer_add-count m fd event q =
    ap (count q) (multiplexer_add-waiting m fd event)
    ∙ count-append q (waiting m) (fd ∷ [])
    ∙ omega arith

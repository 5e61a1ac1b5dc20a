-- ===== src/Multiplexer/Rounds.antt =====
-- What the calls of multiplexer_poll report behind one answer of `poll`.
use hotwired.Multiplexer.{
  Mevent, PollFd, Multiplexer, lowered, is_ready, ready, polled, begun, next_ready, event_of,
  round_over, reported, passed_over, scanned, multiplexer_poll, with_revents,
}
use mathlib.Core.Path.{subst}
use native.Mathlib.Nat.{zero-add, suc-add}
use hotwired.Prelude.{
  ◌⊎◌, ℕ, zero, suc, ◌+◌, ◌^◌, ◌<◌, ◌≡◌, refl, sym, ap, ◌∙◌, true, false, Bool-cases, inl, inr,
  Option, none, some, List, [], ◌∷◌, length, drop, ◌==◌, if◌then◌else◌, arith,
}

-- The entries that are still to be reported in this round.
abbrev pub pending : Multiplexer → List PollFd
pending m = if m.pcomplete then ready (drop m.curfd m.fdtbl) else []

-- Where a round is not over, `retfds` counts these, and there is one.
pub record IsCounted (m : Multiplexer) : Type 0 where
  pub counted : m.pcomplete ≡ true → m.retfds ≡ length (pending m)
  pub some_left : m.pcomplete ≡ true → 0 < length (pending m)
  pub bounded : length (pending m) < 2 ^ 32

abbrev pub report : PollFd → ℕ × Option Mevent
report e = (e.fd, event_of e.revents)

-- What the loop finds is the first entry that is ready, and the others lie behind it.
abbrev pub Found : List PollFd → List PollFd → Option (ℕ × PollFd) → Type 0
Found l [] o = o ≡ none
Found l (e ∷ es) o = (i : ℕ) × (o ≡ some (i, e)) × (ready (drop (suc i) l) ≡ es)

pub next_ready-Found : (l : List PollFd) → Found l (ready l) (next_ready l)
unfolding next_ready ready
next_ready-Found [] = refl
next_ready-Found (e ∷ l) = elim (Bool-cases (is_ready e)) [
  | inl here ↦ rw here (0, refl, refl)
  | inr away ↦ rw away (later (ready l) (next_ready-Found l))
]
  where
    later :
        (es : List PollFd)
        → Found l es (next_ready l)
        → Found (e ∷ l) es (passed_over (next_ready l))
    later [] f = rw f refl
    later (d ∷ es) (i, f, rest) = (suc i, rw f refl, rest)

-- The calls one after the other, with what `poll` would answer in each, and their answers.
unfoldable pub calls :
    List (Option (List ℕ)) → Multiplexer → Multiplexer × List (Option (ℕ × Option Mevent))
calls [] m = (m, [])
calls (answer ∷ answers) m =
    let r = multiplexer_poll answer m in let rest = calls answers r.0 in (rest.0, r.1 ∷ rest.1)

abbrev pub reports : List PollFd → List (Option (ℕ × Option Mevent))
reports [] = []
reports (e ∷ es) = some (report e) ∷ reports es

-- A call in a round that is not over reports the first entry that is left.
record Reports (m : Multiplexer) (e : PollFd) (es : List PollFd)
    (r : Multiplexer × Option (ℕ × Option Mevent)) : Type 0 where
  answer : r.1 ≡ some (report e)
  left : pending r.0 ≡ es
  valid : IsCounted r.0
  same_table : r.0.fdtbl ≡ m.fdtbl

drop_more : (a b : ℕ) (l : List PollFd) → drop (a + b) l ≡ drop b (drop a l)
drop_more zero b l = rw zero-add refl
drop_more (suc a) b [] = empty (suc a + b) ∙ sym (empty b)
  where
    empty : (n : ℕ) → drop {A = PollFd} n [] ≡ []
    empty zero = refl
    empty (suc n) = refl
drop_more (suc a) b (e ∷ l) = rw suc-add (drop_more a b l)

lowered-suc : (n : ℕ) → suc n < 2 ^ 32 → lowered (suc n) ≡ n
lowered-suc n h = omega arith

-- The state behind a report, which leaves `n` to be reported.
abbrev behind : Multiplexer → ℕ → ℕ → Multiplexer
behind m n i = record m {
  curfd = m.curfd + suc i;
  retfds = n;
  pcomplete = if n == 0 then false else m.pcomplete;
}

not_zero : (n k : ℕ) → n ≡ suc k → (n == 0) ≡ false
not_zero n k e = ground arith

behind-IsCounted :
    (m : Multiplexer) (es : List PollFd) (i : ℕ)
    → m.pcomplete ≡ true
    → ready (drop (m.curfd + suc i) m.fdtbl) ≡ es
    → length es < 2 ^ 32
    → (pending (behind m (length es) i) ≡ es) × IsCounted (behind m (length es) i)
behind-IsCounted m [] i going rest small =
    (refl, record { counted = λ e. cc; some_left = λ e. cc; bounded = omega arith })
behind-IsCounted m (d ∷ ds) i going rest small =
    let left : pending (behind m (length (d ∷ ds)) i) ≡ d ∷ ds =
      ap
        (λ b.
          if if b then false else m.pcomplete then ready (drop (m.curfd + suc i) m.fdtbl) else [])
        (not_zero (suc (length ds)) (length ds) refl)
      ∙ ap (λ b. if b then ready (drop (m.curfd + suc i) m.fdtbl) else []) going
      ∙ rest in
    (
      left,
      record {
        counted = λ e. sym (ap length left);
        some_left = λ e. subst (λ l. 0 < length l) (sym left) (omega arith);
        bounded = subst (λ l. length l < 2 ^ 32) (sym left) small;
      },
    )

reported-Reports :
    (m : Multiplexer) (e : PollFd) (es : List PollFd) (o : Option (ℕ × PollFd))
    → Found (drop m.curfd m.fdtbl) (e ∷ es) o
    → m.pcomplete ≡ true
    → lowered m.retfds ≡ length es
    → length es < 2 ^ 32
    → Reports m e es (reported m o)
reported-Reports m e es o (i, f, rest) going lower small =
    let at : ready (drop (m.curfd + suc i) m.fdtbl) ≡ es =
      ap ready (drop_more m.curfd (suc i) m.fdtbl) ∙ rest in
    let (left, valid) = behind-IsCounted m es i going at small in
    subst (λ r. Reports m e es (reported m r)) (sym f)
      (record {
        answer = refl;
        left = subst (λ n. pending (behind m n i) ≡ es) (sym lower) left;
        valid = subst (λ n. IsCounted (behind m n i)) (sym lower) valid;
        same_table = refl;
      })

multiplexer_poll-Reports :
    (answer : Option (List ℕ)) (m : Multiplexer) (e : PollFd) (es : List PollFd)
    → IsCounted m
    → pending m ≡ e ∷ es
    → Reports m e es (multiplexer_poll answer m)
unfolding multiplexer_poll
multiplexer_poll-Reports answer m e es c left = elim (Bool-cases m.pcomplete) [
  | inr over ↦
      absurd (clash (sym (ap (λ b. if b then ready (drop m.curfd m.fdtbl) else []) over) ∙ left))
  | inl going ↦
      let at : ready (drop m.curfd m.fdtbl) ≡ e ∷ es =
        sym (ap (λ b. if b then ready (drop m.curfd m.fdtbl) else []) going) ∙ left in
      let count : m.retfds ≡ suc (length es) = c.counted going ∙ ap length left in
      let small : suc (length es) < 2 ^ 32 = subst (λ l. length l < 2 ^ 32) left c.bounded in
      let lower : lowered m.retfds ≡ length es = ap lowered count ∙ lowered-suc (length es) small in
      let found =
        subst (λ l. Found (drop m.curfd m.fdtbl) l (next_ready (drop m.curfd m.fdtbl))) at
          (next_ready-Found (drop m.curfd m.fdtbl)) in
      let done =
        reported-Reports m e es (next_ready (drop m.curfd m.fdtbl)) found going lower
          (omega (arith, small)) in
      let started : begun m answer ≡ m = ap (λ b. if b then m else polled m answer) going in
      let scan : scanned m ≡ reported m (next_ready (drop m.curfd m.fdtbl)) =
        ap (λ b. if b then round_over m else reported m (next_ready (drop m.curfd m.fdtbl)))
          (not_zero m.retfds (length es) count) in
      subst (Reports m e es) (sym (ap scanned started ∙ scan)) done
]
  where
    clash : [] ≡ e ∷ es → ⊥
    clash q = cc

-- The calls of a round that has begun report what is left, in order, and end it.
calls-pending :
    (es : List PollFd) (answers : List (Option (List ℕ))) (m : Multiplexer)
    → IsCounted m
    → pending m ≡ es
    → length answers ≡ length es
    → ((calls answers m).1 ≡ reports es)
      × ((calls answers m).0.pcomplete ≡ false)
      × ((calls answers m).0.fdtbl ≡ m.fdtbl)
unfolding calls
calls-pending [] [] m c left same = (refl, over (Bool-cases m.pcomplete), refl)
  where
    over : (m.pcomplete ≡ true) ⊎ (m.pcomplete ≡ false) → m.pcomplete ≡ false
    over (inr done) = done
    over (inl going) = absurd (none_left (subst (λ l. 0 < length l) left (c.some_left going)))
      where
        none_left : 0 < 0 → ⊥
        none_left h = omega arith
calls-pending [] (a ∷ answers) m c left same = absurd (omega (arith, same))
calls-pending (e ∷ es) [] m c left same = absurd (omega (arith, same))
calls-pending (e ∷ es) (a ∷ answers) m c left same =
    let r = multiplexer_poll-Reports a m e es c left in
    let (answered, ended, table) =
      calls-pending es answers (multiplexer_poll a m).0 r.valid r.left (omega (arith, same)) in
    (rw (r.answer, answered) refl, ended, table ∙ r.same_table)

-- Where no round is under way and poll answers with some descriptors ready, as many calls of
-- multiplexer_poll as there are report each of them once, in the order of the table, whatever poll
-- would answer in between, and end the round, so that the call behind them asks poll again.
pub calls-round :
    (m : Multiplexer) (revents : List ℕ) (answers : List (Option (List ℕ)))
    → m.pcomplete ≡ false
    → length (ready (with_revents m.fdtbl revents)) < 2 ^ 32
    → suc (length answers) ≡ length (ready (with_revents m.fdtbl revents))
    → let r = calls (some revents ∷ answers) m in
      (r.1 ≡ reports (ready (with_revents m.fdtbl revents)))
      × (r.0.pcomplete ≡ false)
      × (r.0.fdtbl ≡ with_revents m.fdtbl revents)
unfolding calls multiplexer_poll
calls-round m revents answers waiting small many =
    let table = with_revents m.fdtbl revents in
    let started : begun m (some revents) ≡ polled m (some revents) =
      ap (λ b. if b then m else polled m (some revents)) waiting in
    let valid : IsCounted (polled m (some revents)) = record {
      counted = λ e. refl;
      some_left = λ e. omega (arith, many);
      bounded = small;
    } in
    let done =
      calls-pending (ready table) (some revents ∷ answers) (polled m (some revents)) valid refl
        many in
    let first : multiplexer_poll (some revents) m ≡ scanned (polled m (some revents)) =
      ap scanned started in
    let whole : calls (some revents ∷ answers) m
        ≡ calls (some revents ∷ answers) (polled m (some revents)) =
      ap (λ r. let rest = calls answers r.0 in (rest.0, r.1 ∷ rest.1)) first in
    subst (λ r. (r.1 ≡ reports (ready table)) × (r.0.pcomplete ≡ false) × (r.0.fdtbl ≡ table))
      (sym whole) done

-- ===== src/Multiplexer/Lapses.antt =====
-- Calls that report what is not so, or leave out what is.
use hotwired.Multiplexer.Rounds.{pending, IsCounted, report, Found, next_ready-Found}
use hotwired.Multiplexer.{
  Mevent, PollFd, Multiplexer, lowered, is_ready, ready, search, removed_at, multiplexer_remove,
  polled, begun, next_ready, reported, scanned, multiplexer_poll, round_over,
}
use hotwired.Prelude.{
  Bool-cases, inl, inr, drop, ℕ, ◌<◌, ◌≡◌, sym, ap, ◌∙◌, true, false, ◌&&◌, Option, none, some,
  List, [], ◌∷◌, length, ◌==◌, if◌then◌else◌,
}
use mathlib.Core.Path.{subst}

abbrev pub first_report : List PollFd → Option (ℕ × Option Mevent)
first_report [] = none
first_report (e ∷ es) = some (report e)

-- Where poll fails, as it does when multiplexer_add interrupts it by a signal, multiplexer_poll does
-- not answer -1 where an entry has events from an earlier round: it reports the first such entry.
pub multiplexer_poll-failed :
    (m : Multiplexer)
    → m.pcomplete ≡ false
    → (multiplexer_poll none m).1 ≡ first_report (ready m.fdtbl)
unfolding multiplexer_poll
multiplexer_poll-failed m waiting =
    let started : begun m none ≡ polled m none = ap (λ b. if b then m else polled m none) waiting in
    ap (λ s. (scanned s).1) started
    ∙ by_ready (ready m.fdtbl) (next_ready m.fdtbl) (next_ready-Found m.fdtbl)
  where
    by_ready :
        (es : List PollFd) (o : Option (ℕ × PollFd))
        → Found m.fdtbl es o
        → (reported (polled m none) o).1 ≡ first_report es
    by_ready [] o f = ap (λ r. (reported (polled m none) r).1) f
    by_ready (e ∷ es) o (i, f, rest) = ap (λ r. (reported (polled m none) r).1) f

-- A descriptor that a call of the round has reported, and that is then removed, takes the last one
-- that is left with it: the next call answers -1 and reports nothing, whatever poll would answer.
pub multiplexer_poll-remove :
    (answer : Option (List ℕ)) (m : Multiplexer) (fd i : ℕ) (e d : PollFd)
    → IsCounted m
    → pending m ≡ d ∷ []
    → search fd m.fdtbl ≡ some (i, e)
    → i < m.curfd
    → is_ready e ≡ true
    → (multiplexer_poll answer (multiplexer_remove m fd)).1 ≡ none
unfolding multiplexer_poll multiplexer_remove
multiplexer_poll-remove answer m fd i e d c left found passed here = elim (Bool-cases m.pcomplete) [
  | inr over ↦
      absurd (clash (sym (ap (λ b. if b then ready (drop m.curfd m.fdtbl) else []) over) ∙ left))
  | inl going ↦
      let count : m.retfds ≡ 1 = c.counted going ∙ ap length left in
      let less : (removed_at m (some (i, e))).retfds ≡ 0 =
        ap (λ b. if b && is_ready e then lowered m.retfds else m.retfds) going
        ∙ ap (λ b. if b then lowered m.retfds else m.retfds) here
        ∙ ap lowered count in
      subst (λ o. (scanned (begun (removed_at m o) answer)).1 ≡ none) (sym found)
        (none_left (removed_at m (some (i, e))) going less)
]
  where
    clash : [] ≡ d ∷ [] → ⊥
    clash q = cc

    none_left :
        (s : Multiplexer) → s.pcomplete ≡ true → s.retfds ≡ 0 → (scanned (begun s answer)).1 ≡ none
    none_left s going empty =
        ap (λ b. (scanned (if b then s else polled s answer)).1) going
        ∙ ap
            (λ n.
              (if n == 0 then round_over s else reported s (next_ready (drop s.curfd s.fdtbl))).1)
            empty

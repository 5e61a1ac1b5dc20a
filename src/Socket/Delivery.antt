-- ===== src/Socket/Delivery.antt =====
-- What `write_all` has sent, and the words of `read_int16` and `read_int32`.
use mathlib.Core.List.{append_assoc}
use hotwired.Prelude.{
  ℕ, zero, suc, ◌+◌, ◌≤◌, ◌<◌, ◌≡◌, refl, ap, ◌∙◌, Bool, true, List, [], ◌∷◌, ◌++◌, length, take,
  drop, take-append-drop, arith, All, length-drop,
}
use hotwired.Socket.{sent_before, write_all}

abbrev pub sum : List ℕ → ℕ
sum [] = 0
sum (n ∷ ns) = n + sum ns

-- What was sent is the front of the buffer, and all of it where the answer is 0.
pub record Sends (buf : List ℕ) (r : List ℕ × Bool) : Type 0 where
  pub unsent : List ℕ
  pub front : r.0 ++ unsent ≡ buf
  pub complete : r.1 ≡ true → unsent ≡ []

sent_before-Sends :
    (n : ℕ) (buf : List ℕ) (r : List ℕ × Bool)
    → Sends (drop n buf) r
    → Sends buf (sent_before (take n buf) r)
sent_before-Sends n buf (bs, done) s = record {
  unsent = s.unsent;
  front =
      append_assoc (take n buf) bs s.unsent
      ∙ ap (λ x. take n buf ++ x) s.front
      ∙ take-append-drop n buf;
  complete = s.complete;
}

write_all-Sends : (buf answers : List ℕ) → Sends buf (write_all buf answers)
unfolding write_all
write_all-Sends [] answers = record { unsent = []; front = refl; complete = λ h. refl }
write_all-Sends (b ∷ bs) [] = record { unsent = b ∷ bs; front = refl; complete = λ h. cc }
write_all-Sends (b ∷ bs) (zero ∷ answers) = record {
  unsent = b ∷ bs;
  front = refl;
  complete = λ h. cc;
}
write_all-Sends (b ∷ bs) (suc c ∷ answers) =
    sent_before-Sends (suc c) (b ∷ bs) (write_all (drop (suc c) (b ∷ bs)) answers)
      (write_all-Sends (drop (suc c) (b ∷ bs)) answers)

write_all_complete :
    (buf answers : List ℕ)
    → All (λ n. 0 < n) answers
    → length buf ≤ sum answers
    → (write_all buf answers).1 ≡ true
unfolding write_all
write_all_complete [] answers p h = refl
write_all_complete (b ∷ bs) [] p h = absurd (omega arith)
write_all_complete (b ∷ bs) (zero ∷ answers) p h = absurd (omega (arith, p.0))
write_all_complete (b ∷ bs) (suc c ∷ answers) p h =
    write_all_complete (drop (suc c) (b ∷ bs)) answers p.1
      (omega (arith, h, length-drop (suc c) (b ∷ bs)))

-- write_all always sends a front part of the buffer; it answers 0 only where that is all of the
-- buffer, and does so where every send takes a byte or more and the sends take as many in all as the
-- buffer has.
pub write_all_lem :
    (buf answers : List ℕ)
    → Sends buf (write_all buf answers)
      × (All (λ n. 0 < n) answers → length buf ≤ sum answers → (write_all buf answers).1 ≡ true)
write_all_lem buf answers = (write_all-Sends buf answers, write_all_complete buf answers)

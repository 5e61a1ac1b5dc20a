-- ===== src/TransferManager/Removal.antt =====
-- `tfm_remove` and `tfm_register` and the queue.
use hotwired.Collection
use hotwired.Collection.Keys.{collection_key}
use hotwired.Prelude.{
  ℕ, zero, suc, ◌-◌, ◌<◌, ◌≡◌, refl, sym, ap, ◌∙◌, Bool-cases, inl, inr, Option, none, some, List,
  [], ◌∷◌, All, length, ◌==◌, if◌then◌else◌, arith,
}
use mathlib.Core.Path.{subst}
use hotwired.TransferManager.Calls.{release_slot-IsQueued}
use hotwired.TransferManager.Queue.{IsPlaced, IsQueued}
use hotwired.TransferManager.Waiting.{
  head_of, unlink_after, behind_head, unqueue, demoted, notify_behind, destroyed, is_queued, remove,
  remove_found, remove_waiting, remove_queued, remove_behind, remove_sequestered,
}
use hotwired.TransferManager.{Transfer, TransferManager, notice, destroy, release_slot}

-- Only a queue of one transfer leaves the cursor at no node.
unqueue-last : (p : ℕ) (l m : List ℕ) → unqueue p l ≡ some (m, none) → (m ≡ []) × (length l ≡ 1)
unfolding unqueue
unqueue-last p [] m e = cc
unqueue-last p (a ∷ l) m e = elim (Bool-cases (a == p)) [
  | inl hit ↦ at_end l (ground (arith, e, hit))
  | inr miss ↦ absurd (goes_on (unlink_after p a l) (ground (arith, e, miss)))
]
  where
    at_end :
        (l : List ℕ)
        → (let o : Option (List ℕ × Option ℕ) = some (l, head_of l) in o ≡ some (m, none))
        → (m ≡ []) × (suc (length l) ≡ 1)
    at_end [] h = (cc, omega arith)
    at_end (b ∷ l) h = cc

    goes_on : (r : Option (List ℕ × ℕ)) → behind_head a r ≡ some (m, none) → ⊥
    goes_on none h = cc
    goes_on (some (k, c)) h = cc

-- The cursor is never moved.
notify_behind-endless :
    (rounds : ℕ) (s : TransferManager) (c : ℕ) → notify_behind rounds s (some c) ≡ none
unfolding notify_behind
notify_behind-endless zero s c = refl
notify_behind-endless (suc rounds) s c = notify_behind-endless rounds (demoted s c) c

remove_queued-endless :
    (rounds : ℕ) (s : TransferManager) (t : Transfer) (m : List ℕ) (c : ℕ)
    → remove_queued rounds s t (some (m, some c)) ≡ none
remove_queued-endless rounds s t m c =
    ap (destroyed t)
      (notify_behind-endless rounds (record s { queue = m; queue_size = s.queue_size - 1 }) c)

notify_behind-none : (rounds : ℕ) (s : TransferManager) → notify_behind rounds s none ≡ some s
unfolding notify_behind
notify_behind-none zero s = refl
notify_behind-none (suc rounds) s = refl

remove_queued-IsQueued :
    (rounds : ℕ) (s r : TransferManager) (t : Transfer) (p : ℕ) (u : Option (List ℕ × Option ℕ))
    → IsQueued s
    → unqueue p s.queue ≡ u
    → remove_queued rounds s t u ≡ some r
    → IsQueued r
unfolding destroy notice
remove_queued-IsQueued rounds s r t p none c e h =
    let same : destroy s t ≡ r = cc in
    subst IsQueued same (record { placed = c.placed; sized = c.sized; below = c.below })
remove_queued-IsQueued rounds s r t p (some (m, some b)) c e h =
    absurd (no_answer (sym (remove_queued-endless rounds s t m b) ∙ h))
  where
    no_answer : (let o : Option TransferManager = none in o ≡ some r) → ⊥
    no_answer e = cc
remove_queued-IsQueued rounds s r t p (some (m, none)) c e h =
    let left = record s { queue = m; queue_size = s.queue_size - 1 } in
    let (nothing, one) = unqueue-last p s.queue m e in
    let done : some (destroy left t) ≡ some r =
      sym (ap (destroyed t) (notify_behind-none rounds left)) ∙ h in
    let same : destroy left t ≡ r = cc in
    subst IsQueued same (record {
      placed = subst (λ l. IsPlaced s.heap l 0) (sym nothing) tt;
      sized = omega (arith, c.sized, one, ap length nothing);
      below = subst (All (λ q. q < s.fresh)) (sym nothing) tt;
    })

remove_behind-IsQueued :
    (now : ℕ) (s : TransferManager) (t : Transfer) (u : Option (List ℕ))
    → IsQueued s
    → IsQueued (remove_behind now s t u)
unfolding destroy notice
remove_behind-IsQueued now s t none c = record {
  placed = c.placed;
  sized = c.sized;
  below = c.below;
}
remove_behind-IsQueued now s t (some l) c =
    let ok =
      release_slot-IsQueued now (record s { sequester = l }) t.type
        (record { placed = c.placed; sized = c.sized; below = c.below }) in
    record { placed = ok.placed; sized = ok.sized; below = ok.below }

remove_sequestered-IsQueued :
    (now : ℕ) (s : TransferManager) (p : ℕ) (l : List ℕ)
    → IsQueued s
    → IsQueued (remove_sequestered now s p l)
unfolding destroy notice
remove_sequestered-IsQueued now s p [] c = record {
  placed = c.placed;
  sized = c.sized;
  below = c.below;
}
remove_sequestered-IsQueued now s p (first ∷ l) c = elim (Bool-cases (first == p)) [
  | inl e ↦ rw e c
  | inr e ↦ rw e (remove_behind-IsQueued now s (s.heap p) _ c)
]

-- Where the queue is sound and tfm_remove returns, it leaves a sound queue.
pub remove-IsQueued :
    (rounds now : ℕ) (s r : TransferManager) (tid : ℕ)
    → IsQueued s
    → remove rounds now s tid ≡ some r
    → IsQueued r
unfolding remove
remove-IsQueued rounds now s r tid c e =
    found (record s { ttbl = (Collection.remove s.ttbl tid).0 }) (Collection.remove s.ttbl tid).1
      (record { placed = c.placed; sized = c.sized; below = c.below }) e
  where
    waiting :
        (t : TransferManager) (p : ℕ) (thread : Option ℕ)
        → IsQueued t
        → remove_waiting rounds now t p thread ≡ some r
        → IsQueued r
    waiting t p (some thread) k h =
        let same : destroy (release_slot now t (t.heap p).type) (t.heap p) ≡ r = cc in
        let ok = release_slot-IsQueued now t (t.heap p).type k in
        subst IsQueued same (
          unfold destroy notice in
          record { placed = ok.placed; sized = ok.sized; below = ok.below })
    waiting t p none k h = elim (Bool-cases (is_queued (t.heap p).type (t.heap p).position)) [
      | inl q ↦ remove_queued-IsQueued rounds t r (t.heap p) p (unqueue p t.queue) k refl (
          sym (
            ap
              (λ b.
                if b
                then remove_queued rounds t (t.heap p) (unqueue p t.queue)
                else some (remove_sequestered now t p t.sequester))
              q)
          ∙ h)
      | inr q ↦
          let same : remove_sequestered now t p t.sequester ≡ r =
            ap (λ o. or_self o)
              (sym (
                  ap
                    (λ b.
                      if b
                      then remove_queued rounds t (t.heap p) (unqueue p t.queue)
                      else some (remove_sequestered now t p t.sequester))
                    q)
                ∙ h) in
          subst IsQueued same (remove_sequestered-IsQueued now t p t.sequester k)
    ]
      where
        or_self : Option TransferManager → TransferManager
        or_self none = t
        or_self (some x) = x

    found :
        (t : TransferManager) (o : Option ℕ)
        → IsQueued t
        → remove_found rounds now t o ≡ some r
        → IsQueued r
    found t none k h = let same : t ≡ r = cc in subst IsQueued same k
    found t (some p) k h = waiting t p (t.heap p).thread k h

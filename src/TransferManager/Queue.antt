-- ===== src/TransferManager/Queue.antt =====
-- The places in the queue of downloads.
use hotwired.Collection.Keys.{collection_key}
use hotwired.Prelude.{
  ℕ, suc, ◌+◌, ◌-◌, ◌<◌, ◌≡◌, ◌↔◌, refl, ap, ◌∙◌, false, Option, none, some, List, [], ◌∷◌, ◌++◌,
  All, length, ◌==◌, ==_iff, arith,
}
use hotwired.TransferManager.{
  Transfer, TransferManager, store, notice, activate, advance_one, advance, monitor_add,
  monitor_add_from_queue, from_queue, dequeued, behind_first,
}

-- No node of the list is at the address.
abbrev pub IsAbsent : ℕ → List ℕ → Type 0
IsAbsent p l = All (λ q. (q == p) ≡ false) l

-- The transfers have the positions behind `k`, in their order, and stand at different addresses.
abbrev pub IsPlaced : (ℕ → Transfer) → List ℕ → ℕ → Type 0
IsPlaced heap [] k = Unit
IsPlaced heap (p ∷ l) k = ((heap p).position ≡ suc k) × IsAbsent p l × IsPlaced heap l (suc k)

pub record IsQueued (s : TransferManager) : Type 0 where
  pub placed : IsPlaced s.heap s.queue 0
  pub sized : s.queue_size ≡ length s.queue
  pub below : All (λ p. p < s.fresh) s.queue

store-other :
    (heap : ℕ → Transfer) (p : ℕ) (t : Transfer) (q : ℕ)
    → (q == p) ≡ false
    → store heap p t q ≡ heap q
store-other heap p t q h = rw h refl

pub store-IsPlaced :
    (heap : ℕ → Transfer) (p : ℕ) (t : Transfer) (l : List ℕ) (k : ℕ)
    → IsAbsent p l
    → IsPlaced heap l k
    → IsPlaced (store heap p t) l k
store-IsPlaced heap p t [] k a h = tt
store-IsPlaced heap p t (q ∷ l) k a h = (
  ap (λ x. x.position) (store-other heap p t q a.0) ∙ h.0,
  h.1,
  store-IsPlaced heap p t l (suc k) a.1 h.2,
)

pub below-IsAbsent : (p : ℕ) (l : List ℕ) → All (λ q. q < p) l → IsAbsent p l
below-IsAbsent p [] h = tt
below-IsAbsent p (q ∷ l) h = (ground (arith, h.0), below-IsAbsent p l h.1)

-- What the loop over the queue leaves alone.
advance-other :
    (s : TransferManager) (l : List ℕ) (p : ℕ) → IsAbsent p l → (advance s l).heap p ≡ s.heap p
unfolding advance advance_one notice
advance-other s [] p a = refl
advance-other s (q ∷ l) p a =
    advance-other (advance_one s q) l p a.1 ∙ store-other s.heap q _ p (ground (arith, a.0))

advance-fresh : (s : TransferManager) (l : List ℕ) → (advance s l).fresh ≡ s.fresh
unfolding advance advance_one notice
advance-fresh s [] = refl
advance-fresh s (p ∷ l) = advance-fresh (advance_one s p) l

-- Each transfer goes one place forward.
advance-IsPlaced :
    (s : TransferManager) (l : List ℕ) (k : ℕ)
    → IsPlaced s.heap l (suc k)
    → IsPlaced (advance s l).heap l k
unfolding advance advance_one notice
advance-IsPlaced s [] k h = tt
advance-IsPlaced s (p ∷ l) k h =
    let own : store s.heap p (record (s.heap p) { position = (s.heap p).position - 1 }) p
        ≡ record (s.heap p) { position = (s.heap p).position - 1 } =
      rw ((==_iff p p).1 refl) refl in
    (
      ap (λ t. t.position) (advance-other (advance_one s p) l p h.1 ∙ own) ∙ omega (arith, h.0),
      h.1,
      advance-IsPlaced (advance_one s p) l (suc k)
          (store-IsPlaced s.heap p _ l (suc (suc k)) h.1 h.2),
    )

-- The transfers behind the first one.
moved-IsPlaced :
    (s : TransferManager) (p : ℕ) (l : List ℕ) (k : ℕ)
    → IsPlaced s.heap (p ∷ l) k
    → IsPlaced (advance s (p ∷ l)).heap l k
unfolding advance advance_one notice
moved-IsPlaced s p l k h =
    advance-IsPlaced (advance_one s p) l k (store-IsPlaced s.heap p _ l (suc k) h.1 h.2)

-- The first transfer of the queue gets a slot.
dequeued-IsQueued :
    (now : ℕ) (s : TransferManager) (p : ℕ) (thread : Option ℕ)
    → IsAbsent p s.queue
    → IsQueued s
    → IsQueued (dequeued now s p thread) × ((dequeued now s p thread).queue ≡ s.queue)
unfolding monitor_add activate notice
dequeued-IsQueued now s p (some thread) a c =
    (record { placed = c.placed; sized = c.sized; below = c.below }, refl)
dequeued-IsQueued now s p none a c = (
  record {
    placed = store-IsPlaced s.heap p _ s.queue 0 a c.placed;
    sized = c.sized;
    below = c.below;
  },
  refl,
)

-- The positions of a queue with a transfer at its end.
pub IsPlaced-append :
    (heap : ℕ → Transfer) (l : List ℕ) (p k : ℕ)
    → IsPlaced heap l k
    → All (λ q. q < p) l
    → (heap p).position ≡ suc (k + length l)
    → IsPlaced heap (l ++ p ∷ []) k
IsPlaced-append heap [] p k h b e = (omega (arith, e), tt, tt)
IsPlaced-append heap (q ∷ l) p k h b e =
    (h.0, absent l h.1, IsPlaced-append heap l p (suc k) h.2 b.1 (omega (arith, e)))
  where
    absent : (m : List ℕ) → IsAbsent q m → IsAbsent q (m ++ p ∷ [])
    absent [] a = (ground (arith, b.0), tt)
    absent (r ∷ m) a = (a.0, absent m a.1)

pub All-append_end : (l : List ℕ) (p : ℕ) → All (λ q. q < p) l → All (λ q. q < p + 1) (l ++ p ∷ [])
All-append_end [] p h = omega arith
All-append_end (q ∷ l) p h = (omega (arith, h.0), All-append_end l p h.1)

-- Where the queue is sound, that is, its transfers have the positions 1, 2 and so on in their order
-- and queue_size is its length, monitor_add_from_queue leaves a sound queue: the queue without its
-- first transfer, in which every other one has moved one place forward; it answers -1 exactly
-- where the queue is empty.
pub monitor_add_from_queue-IsQueued :
    (now : ℕ) (s : TransferManager)
    → IsQueued s
    → let r = monitor_add_from_queue now s in
      IsQueued r.0 × (r.0.queue ≡ behind_first s.queue) × ((r.1 ≡ false) ↔ (s.queue ≡ []))
unfolding monitor_add_from_queue
monitor_add_from_queue-IsQueued now s c = from s.queue c.placed c.sized c.below refl
  where
    from :
        (l : List ℕ)
        → IsPlaced s.heap l 0
        → s.queue_size ≡ length l
        → All (λ p. p < s.fresh) l
        → s.queue ≡ l
        → IsQueued (from_queue now s l).0
          × ((from_queue now s l).0.queue ≡ behind_first l)
          × (((from_queue now s l).1 ≡ false) ↔ (l ≡ []))
    from [] h n b e = (c, e, (λ f. refl, λ f. refl))
    from (p ∷ l) h n b e =
        let left = record (advance s (p ∷ l)) { queue = l; queue_size = s.queue_size - 1 } in
        let (ok, same) = dequeued-IsQueued now left p _ h.1 (record {
          placed = moved-IsPlaced s p l 0 h;
          sized = omega (arith, n);
          below = rw (advance-fresh s (p ∷ l)) b.1;
        }) in
        (ok, same, (λ f. cc, λ f. cc))

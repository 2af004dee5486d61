-- ===== src/Queue/Laws.antt =====
-- What pkg/queue promises: each item once, first in first out, and a shutdown that drains.
use mathlib.Core.List.{append-nil, append_assoc}
use flintlock.Prelude.{
  ◌≡◌, ◌≢◌, refl, ap, sym, ◌↔◌, ◌∙◌, Bool, false, ◌||◌, List, [], ◌∷◌, ◌++◌, any, arith, Bool-cases,
  inl, inr, if◌then◌else◌,
}
use flintlock.Queue.{
  Queue, Dequeued, waits, item, closed, exists, enqueue, dequeue, dequeue_items, shutdown,
}

module _ {A : Type 0} (equal : A → A → Bool) where
  -- No item of the list equals a later one.
  abbrev pub IsDistinct : List A → Type 0
  IsDistinct [] = Unit
  IsDistinct (a ∷ rest) = (any (λ b. equal b a) rest ≡ false) × IsDistinct rest

  any-append : (p : A → Bool) (xs ys : List A) → any p (xs ++ ys) ≡ (any p xs || any p ys)
  any-append p [] ys = refl
  any-append p (x ∷ xs) ys = ground (arith, any-append p xs ys)

  module _ (symmetric : (a b : A) → equal a b ≡ equal b a) where
    IsDistinct-snoc :
        (xs : List A) (a : A)
        → any (λ b. equal b a) xs ≡ false
        → IsDistinct xs
        → IsDistinct (xs ++ a ∷ [])
    IsDistinct-snoc [] a h d = (refl, tt)
    IsDistinct-snoc (x ∷ xs) a h d =
        (rw any-append (ground (arith, symmetric a x)), IsDistinct-snoc xs a (ground arith) d.1)

    -- If no two items of a queue are equal, then none are after an item was enqueued, provided that
    -- equality is symmetric.
    pub enqueue-IsDistinct :
        (a : A) (q : Queue A) → IsDistinct q.items → IsDistinct (enqueue equal a q).items
    unfolding enqueue
    enqueue-IsDistinct a q d = elim (Bool-cases q.shutting_down) [
      | inl down ↦ rw (down, enqueue) d
      | inr up ↦ elim (Bool-cases (exists equal a q)) [
        | inl old ↦ rw (up, old, enqueue) d
        | inr new ↦ rw (up, new, enqueue) (IsDistinct-snoc q.items a new d)
      ]
    ]

module _ {A : Type 0} where
  abbrev returned : Dequeued A → List A
  returned (item a) = a ∷ []
  returned _ = []

  dequeue-items : (q : Queue A) → returned (dequeue q).0 ++ (dequeue q).1.items ≡ q.items
  unfolding dequeue
  dequeue-items q = go q.items refl
    where
      go :
          (xs : List A)
          → q.items ≡ xs
          → returned (dequeue_items xs q).0 ++ (dequeue_items xs q).1.items ≡ xs
      go [] e = ground arith
      go (x ∷ xs) e = refl

  -- On a queue that was shut down, Dequeue never waits, and it reports the shutdown exactly when no
  -- items are left.
  pub dequeue-shutdown :
      (q : Queue A)
      → ((dequeue (shutdown q)).0 ≢ waits) × (((dequeue (shutdown q)).0 ≡ closed) ↔ (q.items ≡ []))
  unfolding dequeue shutdown
  dequeue-shutdown q = go q.items
    where
      go :
          (xs : List A)
          → ((dequeue_items xs (shutdown q)).0 ≢ waits)
            × (((dequeue_items xs (shutdown q)).0 ≡ closed) ↔ (xs ≡ []))
      go [] = ((λ e. cc), ((λ e. refl), (λ e. refl)))
      go (x ∷ xs) = ((λ e. cc), ((λ e. cc), (λ e. cc)))

pub data Call (A : Type 0) : Type 0 where
  enqueues : A → Call A
  dequeues shuts_down : Call A

module _ {A : Type 0} (equal : A → A → Bool) where
  -- one call: the items that it hands out, and the queue after it
  call : Call A → Queue A → List A × Queue A
  unfolding enqueue dequeue shutdown
  call (enqueues a) q = ([], enqueue equal a q)
  call dequeues q = let (r, q') = dequeue q in (returned r, q')
  call shuts_down q = ([], shutdown q)

  -- the items that a history of calls hands out, in order, and the queue after it
  pub history : List (Call A) → Queue A → List A × Queue A
  unfolding call
  history [] q = ([], q)
  history (c ∷ cs) q =
      let (out, q') = call c q in let (rest, last) = history cs q' in (out ++ rest, last)

  -- the items that a history of calls takes in: those not ignored
  pub accepted : List (Call A) → Queue A → List A
  unfolding call exists
  accepted [] q = []
  accepted (enqueues a ∷ cs) q =
      let rest = accepted cs (enqueue equal a q) in
      if q.shutting_down || exists equal a q then rest else a ∷ rest
  accepted (dequeues ∷ cs) q = accepted cs (dequeue q).1
  accepted (shuts_down ∷ cs) q = accepted cs (shutdown q)

  enqueue-items :
      (a : A) (q : Queue A)
      → (enqueue equal a q).items
        ≡ q.items ++ (if q.shutting_down || exists equal a q then [] else a ∷ [])
  unfolding enqueue
  enqueue-items a q = ground (arith, append-nil q.items)

  -- First in, first out, for any sequence of calls: the items handed out, followed by those left in
  -- the queue, are the items that were there followed by those that the calls took in, in this
  -- order; shutting down loses none.
  pub history-fifo :
      (cs : List (Call A)) (q : Queue A)
      → (history cs q).0 ++ (history cs q).1.items ≡ q.items ++ accepted cs q
  unfolding history accepted
  history-fifo [] q = rw append-nil refl
  history-fifo (enqueues a ∷ cs) q =
      rw (history-fifo cs (enqueue equal a q), enqueue-items a q)
        (ground (
          arith,
          append_assoc q.items (a ∷ []) (accepted cs (enqueue equal a q)),
          append-nil q.items,
        ))
  history-fifo (dequeues ∷ cs) q =
      append_assoc (returned (dequeue q).0) (history cs (dequeue q).1).0
        (history cs (dequeue q).1).1.items
      ∙ ap (◌++◌ (returned (dequeue q).0)) (history-fifo cs (dequeue q).1)
      ∙ sym (append_assoc (returned (dequeue q).0) (dequeue q).1.items (accepted cs (dequeue q).1))
      ∙ ap (λ x. x ++ accepted cs (dequeue q).1) (dequeue-items q)
  history-fifo (shuts_down ∷ cs) q = unfold shutdown in history-fifo cs (shutdown q)

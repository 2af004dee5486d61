-- ===== src/Controller/Running/Outstanding.antt =====
-- infrastructure/controllers/microvm_controller.go: what becomes of a queued identifier during Run.
use native.Mathlib.Decide.{ℕ_discrete}
use flintlock.Prelude.{
  ◌≡◌, ◌≢◌, refl, sym, subst, ap, ◌∙◌, ℕ, ◌<◌, String, Bool, true, false, List, ◌∷◌, ◌⊎◌, any,
  arith, inl, inr, str_eq, eq_of-str_eq, eq_refl, Bool-cases,
}
use flintlock.Prelude.Family.{update, update-same, update-other}
use flintlock.Queue.{Queue, exists, shutdown}
use flintlock.Controller.{enqueue_id}
use flintlock.Controller.Work.{IsQueued, enqueue-IsQueued, enqueue-keeps}
use flintlock.Controller.Running.Moves.{
  MaybePut, dequeue-item, dequeue-closed, other-effect, enqueue-down, Step-down,
}
use flintlock.Controller.Running.{
  Act, other, skips, succeeds, Worker, reconciling, idle, finished, Running, Step, take, skip,
  close, succeed, retry, Run, here, next,
}

-- The identifier waits in the queue, or one of the workers reconciles it.
abbrev pub IsOutstanding : ℕ → String → Running → Type 0
IsOutstanding n id s = IsQueued id s.queue ⊎ ((i : ℕ) × (i < n) × (s.worker i ≡ reconciling id))

-- A worker has reconciled the identifier without error, or found that it is none.
abbrev ends : String → Act → Bool
ends id (succeeds x) = str_eq x id
ends id (skips x) = str_eq x id
ends id _ = false

abbrev pub IsEnded : String → List Act → Type 0
IsEnded id acts = any (ends id) acts ≡ true

still_up :
    {n : ℕ} {a : Act} {s t : Running}
    → Step n s a t
    → t.queue.shutting_down ≡ false
    → s.queue.shutting_down ≡ false
still_up {s = s} st h = elim (Bool-cases s.queue.shutting_down) [
  | inl down ↦ let later = Step-down st down in cc
  | inr up ↦ up
]

module _ (n : ℕ) (id : String) where
  -- the queue gets an identifier, or not
  put-kept :
      (s t : Running)
      → MaybePut s.queue t.queue
      → t.worker ≡ s.worker
      → IsOutstanding n id s
      → IsOutstanding n id t
  put-kept s t m w (inl h) = elim m [
    | inl e ↦ inl (rw e h)
    | inr p ↦ inl (rw p.1 (enqueue-keeps id p.0 s.queue h))
  ]
  put-kept s t m w (inr (i, lt, h)) = inr (i, lt, ap (λ f. f i) w ∙ h)

  dequeue-kept :
      (q q' : Queue String) (x : String)
      → q.items ≡ x ∷ q'.items
      → IsQueued id q
      → (x ≡ id) ⊎ IsQueued id q'
  unfolding exists
  dequeue-kept q q' x e h = elim (Bool-cases (str_eq x id)) [
    | inl same ↦ inl (eq_of-str_eq x id same)
    | inr differ ↦ inr (ground (arith, subst (λ l. any (λ y. str_eq y id) l ≡ true) e h))
  ]

  -- another worker's move leaves a worker that reconciles
  move-kept :
      (f : ℕ → Worker) (i : ℕ) (w : Worker)
      → f i ≢ reconciling id
      → (j : ℕ) × (j < n) × (f j ≡ reconciling id)
      → (j : ℕ) × (j < n) × (update f i w j ≡ reconciling id)
  move-kept f i w h (j, lt, r) = elim (ℕ_discrete i j) [
    | yes same ↦ absurd (h (ap f same ∙ r))
    | no differ ↦ (j, lt, update-other f i j w differ ∙ r)
  ]

  other-item :
      (s : Running) (i : ℕ) (x : String)
      → s.worker i ≡ reconciling x
      → str_eq x id ≡ false
      → s.worker i ≢ reconciling id
  other-item s i x r differ e = ground (arith, eq_refl id)

  -- the step of a worker that handles an item keeps the identifier, or ends it
  Step-kept :
      {a : Act} {s t : Running}
      → Step n s a t
      → t.queue.shutting_down ≡ false
      → IsOutstanding n id s
      → IsOutstanding n id t ⊎ (ends id a ≡ true)
  unfolding shutdown
  Step-kept {a = other} {s} {t} st h o = elim (other-effect st).1 [
    | inl m ↦ inl (put-kept s t m (other-effect st).0 o)
    | inr e ↦ let down : true ≡ false = sym (ap (λ x. x.shutting_down) e) ∙ h in cc
  ]
  Step-kept {s = s} (take i {id = x} {q} lt started rest d p) h (inl queued) =
      elim (dequeue-kept s.queue q x (dequeue-item s.queue q x d).0 queued) [
        | inl same ↦ inl (inr (i, lt, update-same s.worker i (reconciling x) ∙ ap reconciling same))
        | inr left ↦ inl (inl left)
      ]
  Step-kept {s = s} (take i {id = x} lt started rest d p) h (inr busy) =
      inl (inr (move-kept s.worker i (reconciling x) (λ e. cc) busy))
  Step-kept {s = s} (skip i {id = x} {q} lt started rest d p) h (inl queued) =
      elim (dequeue-kept s.queue q x (dequeue-item s.queue q x d).0 queued) [
        | inl same ↦ inr (rw same (eq_refl id))
        | inr left ↦ inl (inl left)
      ]
  Step-kept (skip i lt started rest d p) h (inr busy) = inl (inr busy)
  Step-kept {s = s} (close i {q} lt started rest d) h (inl queued) =
      let e = dequeue-closed s.queue q d in inl (inl (rw e.0 queued))
  Step-kept {s = s} (close i {q} lt started rest d) h (inr busy) =
      inl (inr (move-kept s.worker i finished (λ e. cc) busy))
  Step-kept (succeed i lt r) h (inl queued) = inl (inl queued)
  Step-kept {s = s} (succeed i {id = x} lt r) h (inr busy) = elim (Bool-cases (str_eq x id)) [
    | inl same ↦ inr same
    | inr differ ↦ inl (inr (move-kept s.worker i idle (other-item s i x r differ) busy))
  ]
  Step-kept {s = s} (retry i {id = x} lt r) h (inl queued) =
      inl (inl (enqueue-keeps id x s.queue queued))
  Step-kept {s = s} (retry i {id = x} lt r) h (inr busy) = elim (Bool-cases (str_eq x id)) [
    | inl same ↦ inl (
        inl (
          subst (λ y. IsQueued id (enqueue_id y s.queue)) (sym (eq_of-str_eq x id same))
            (enqueue-IsQueued id s.queue (sym (enqueue-down x s.queue) ∙ h))))
    | inr differ ↦ inl (inr (move-kept s.worker i idle (other-item s i x r differ) busy))
  ]

  -- No work is lost: as long as the queue is not shut down, an identifier that was queued or being
  -- reconciled still is, or in the meantime a worker has reconciled it without error or found that
  -- it is no identifier; whatever events, resyncs, errors and other workers come in between.
  pub Run-IsOutstanding :
      {s : Running} {acts : List Act} {t : Running}
      → Run n s acts t
      → t.queue.shutting_down ≡ false
      → IsOutstanding n id s
      → IsOutstanding n id t ⊎ IsEnded id acts
  Run-IsOutstanding here h o = inl o
  Run-IsOutstanding (next {t = u} r st) h o = elim (Run-IsOutstanding r (still_up st h) o) [
    | inl kept ↦ elim (Step-kept st h kept) [ inl o' ↦ inl o' | inr e ↦ inr (rw e refl) ]
    | inr ended ↦ inr (ground (arith, ended))
  ]

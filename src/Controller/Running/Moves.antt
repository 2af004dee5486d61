-- ===== src/Controller/Running/Moves.antt =====
-- infrastructure/controllers/microvm_controller.go: how a step of Run changes the shared queue.
use flintlock.Prelude.{
  ◌≡◌, ◌∙◌, ℕ, refl, ap, String, true, false, List, [], ◌∷◌, arith, ◌⊎◌, inl, inr,
}
use flintlock.Outcome.{Outcome, ok, fail, panic, no_fuel}
use flintlock.Queue.{Queue, waits, item, closed, enqueue, dequeue, dequeue_items, shutdown}
use flintlock.Models.Vmid.{Vmid, to_string, new_vmid}
use flintlock.Ports.{Event, spec_created, spec_updated, spec_deleted, other_event}
use flintlock.Controller.Running.{
  Act, other, Running, Step, cancel, close_channel, shut, start_next, start_done, event, nil_event,
  tick, resync_next, resync_done, return_listener, take, skip, close, succeed, retry,
}
use flintlock.Controller.{enqueue_id, handle_event, enqueue_event, enqueue_vmid}

-- The queue after an identifier was put into it, or not.
abbrev pub MaybePut : Queue String → Queue String → Type 0
MaybePut q q' = (q' ≡ q) ⊎ ((id : String) × (q' ≡ enqueue_id id q))

enqueue_vmid-MaybePut : (r : Outcome Vmid) (q : Queue String) → MaybePut q (enqueue_vmid r q).1
unfolding enqueue_vmid
enqueue_vmid-MaybePut (ok vmid) q = inr (to_string vmid, refl)
enqueue_vmid-MaybePut (fail e) q = inl refl
enqueue_vmid-MaybePut (panic f) q = inl refl
enqueue_vmid-MaybePut no_fuel q = inl refl

-- An event puts at most one identifier into the queue.
pub handle_event-MaybePut : (e : Event) (q : Queue String) → MaybePut q (handle_event e q).1
unfolding handle_event enqueue_event
handle_event-MaybePut (spec_created e) q = enqueue_vmid-MaybePut (new_vmid e.id e.namespace e.uid) q
handle_event-MaybePut (spec_updated e) q = enqueue_vmid-MaybePut (new_vmid e.id e.namespace e.uid) q
handle_event-MaybePut (spec_deleted e) q = inl refl
handle_event-MaybePut other_event q = inl refl

-- What is handed out was the first item.
pub dequeue-item :
    (q q' : Queue String) (id : String)
    → dequeue q ≡ (item id, q')
    → (q.items ≡ id ∷ q'.items) × (q'.shutting_down ≡ q.shutting_down)
unfolding dequeue
dequeue-item q q' id = go q.items refl
  where
    go :
        (xs : List String)
        → q.items ≡ xs
        → dequeue_items xs q ≡ (item id, q')
        → (q.items ≡ id ∷ q'.items) × (q'.shutting_down ≡ q.shutting_down)
    go [] e h = ground arith
    go (x ∷ xs) e h = ground arith

-- The shutdown is reported when no item is left.
pub dequeue-closed :
    (q q' : Queue String)
    → dequeue q ≡ (closed, q')
    → (q' ≡ q) × (q.shutting_down ≡ true) × (q.items ≡ [])
unfolding dequeue
dequeue-closed q q' = go q.items refl
  where
    go :
        (xs : List String)
        → q.items ≡ xs
        → dequeue_items xs q ≡ (closed, q')
        → (q' ≡ q) × (q.shutting_down ≡ true) × (q.items ≡ [])
    go [] e h = ground arith
    go (x ∷ xs) e h = ground arith

-- After the shutdown nothing is put into the queue.
pub enqueue-shut : (id : String) (q : Queue String) → q.shutting_down ≡ true → enqueue_id id q ≡ q
unfolding enqueue
enqueue-shut id q h = rw h refl

pub enqueue-down :
    (id : String) (q : Queue String) → (enqueue_id id q).shutting_down ≡ q.shutting_down
unfolding enqueue
enqueue-down id q = ground arith

-- A step that is no worker's moves no worker; it puts an identifier into the queue, or shuts it
-- down, or leaves it.
pub other-effect :
    {n : ℕ} {s t : Running}
    → Step n s other t
    → (t.worker ≡ s.worker) × (MaybePut s.queue t.queue ⊎ (t.queue ≡ shutdown s.queue))
other-effect cancel = (refl, inl (inl refl))
other-effect (close_channel h) = (refl, inl (inl refl))
other-effect (shut h) = (refl, inr refl)
other-effect (start_next {spec} h) = (refl, inl (inr (to_string spec.id, refl)))
other-effect (start_done h) = (refl, inl (inl refl))
other-effect {s = s} (event e h) = (refl, inl (handle_event-MaybePut e s.queue))
other-effect (nil_event h c) = (refl, inl (inl refl))
other-effect (tick specs h) = (refl, inl (inl refl))
other-effect (resync_next {spec} h) = (refl, inl (inr (to_string spec.id, refl)))
other-effect (resync_done h) = (refl, inl (inl refl))
other-effect (return_listener h c) = (refl, inl (inl refl))

MaybePut-down : (q q' : Queue String) → MaybePut q q' → q'.shutting_down ≡ q.shutting_down
MaybePut-down q q' (inl e) = ap (λ x. x.shutting_down) e
MaybePut-down q q' (inr (id, e)) = ap (λ x. x.shutting_down) e ∙ enqueue-down id q

-- A queue that was shut down stays so.
pub Step-down :
    {n : ℕ} {a : Act} {s t : Running}
    → Step n s a t
    → s.queue.shutting_down ≡ true
    → t.queue.shutting_down ≡ true
unfolding shutdown
Step-down {a = other} {s} {t} st h = elim (other-effect st).1 [
  | inl m ↦ MaybePut-down s.queue t.queue m ∙ h
  | inr e ↦ ap (λ x. x.shutting_down) e
]
Step-down {s = s} (take i {id} {q} lt started idle d p) h = (dequeue-item s.queue q id d).1 ∙ h
Step-down {s = s} (skip i {id} {q} lt started idle d p) h = (dequeue-item s.queue q id d).1 ∙ h
Step-down {s = s} (close i {q} lt started idle d) h =
    ap (λ x. x.shutting_down) (dequeue-closed s.queue q d).0 ∙ h
Step-down (succeed i lt r) h = h
Step-down {s = s} (retry i {id} lt r) h = enqueue-down id s.queue ∙ h

-- Dequeue waits only while the queue is not shut down.
pub dequeue-waits : (q q' : Queue String) → dequeue q ≡ (waits, q') → q.shutting_down ≡ false
unfolding dequeue
dequeue-waits q q' = go q.items
  where
    go : (xs : List String) → dequeue_items xs q ≡ (waits, q') → q.shutting_down ≡ false
    go [] h = ground arith
    go (x ∷ xs) h = ground arith

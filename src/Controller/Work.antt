-- ===== src/Controller/Work.antt =====
-- infrastructure/controllers/microvm_controller.go: work between the listener, the queue and the
-- workers.
use flintlock.Prelude.{
  ◌≡◌, refl, String, Bool, true, false, ◌||◌, List, [], ◌∷◌, ◌++◌, ◌∙◌, any, All, arith, Bool-cases,
  inl, inr, eq_refl, str_eq, is_empty,
}
use flintlock.Outcome.{Outcome, Error, ok, fail, panic, no_fuel}
use flintlock.Io.{Io}
use flintlock.Queue.{Queue, exists, enqueue, dequeue, dequeue_items, new_simple_sync_queue}
use flintlock.Models.Vmid.{Vmid, new_vmid, new_vmid_from_string, to_string}
use flintlock.Models.Vmid.RoundTrip.{IsPrintable, is_empty-of_ne, from_string-to_string}
use flintlock.Models.Microvm.{Microvm}
use flintlock.Ports.{SpecEvent, spec_created, spec_updated}
use flintlock.Controller.{
  enqueue_id, handle_event, enqueue_specs, Controller, goes_on, resync_specs, process_queue_item,
  reconciled,
}

-- The item is in the queue.
abbrev pub IsQueued : String → Queue String → Type 0
IsQueued id q = exists str_eq id q ≡ true

any-snoc :
    (p : String → Bool) (xs : List String) (x : String) → any p (xs ++ x ∷ []) ≡ (any p xs || p x)
any-snoc p [] x = ground arith
any-snoc p (y ∷ xs) x = ground (arith, any-snoc p xs x)

-- An item is there once it was enqueued, unless the queue is shut down.
pub enqueue-IsQueued :
    (id : String) (q : Queue String) → q.shutting_down ≡ false → IsQueued id (enqueue_id id q)
unfolding enqueue exists
enqueue-IsQueued id q h = elim (Bool-cases (exists str_eq id q)) [
  | inl e ↦ rw (h, e, enqueue) e
  | inr e ↦ rw (h, e, enqueue, any-snoc) (ground (arith, eq_refl id))
]

-- What is queued stays so when another item is.
pub enqueue-keeps :
    (id other : String) (q : Queue String) → IsQueued id q → IsQueued id (enqueue_id other q)
unfolding enqueue exists
enqueue-keeps id other q h = ground (arith, any-snoc (λ x. str_eq x id) q.items other)

enqueue-shutting_down :
    (id : String) (q : Queue String) → (enqueue_id id q).shutting_down ≡ q.shutting_down
unfolding enqueue
enqueue-shutting_down id q = ground arith

enqueue_specs-keeps :
    (id : String) (specs : List Microvm) (q : Queue String)
    → IsQueued id q
    → IsQueued id (enqueue_specs specs q)
unfolding enqueue_specs
enqueue_specs-keeps id [] q h = h
enqueue_specs-keeps id (spec ∷ specs) q h =
    enqueue_specs-keeps id specs (enqueue_id (to_string spec.id) q)
      (enqueue-keeps id (to_string spec.id) q h)

enqueue_specs-IsQueued :
    (specs : List Microvm) (q : Queue String)
    → q.shutting_down ≡ false
    → All (λ spec. IsQueued (to_string spec.id) (enqueue_specs specs q)) specs
unfolding enqueue_specs
enqueue_specs-IsQueued [] q h = tt
enqueue_specs-IsQueued (spec ∷ specs) q h =
    let q' = enqueue_id (to_string spec.id) q in
    (
      enqueue_specs-keeps (to_string spec.id) specs q' (enqueue-IsQueued (to_string spec.id) q h),
      enqueue_specs-IsQueued specs q' (enqueue-shutting_down (to_string spec.id) q ∙ h),
    )

-- After the event that a microvm was created, and after the one that it was updated, its identifier
-- is in the queue, unless the queue is shut down or the event has no name or no namespace.
pub handle_event-IsQueued :
    (e : SpecEvent) (q : Queue String)
    → q.shutting_down ≡ false
    → is_empty e.id ≡ false
    → is_empty e.namespace ≡ false
    → let id = to_string (record { name = e.id; namespace = e.namespace; uid = e.uid }) in
      IsQueued id (handle_event (spec_created e) q).1
      × IsQueued id (handle_event (spec_updated e) q).1
unfolding handle_event new_vmid
handle_event-IsQueued e q h n m =
    let id = to_string (record { name = e.id; namespace = e.namespace; uid = e.uid }) in
    let done : IsQueued id (handle_event (spec_created e) q).1 =
      rw (n, m) (enqueue-IsQueued id q h) in
    (done, done)

module _ {W : Type 0} where
  -- After a resync, if the stored microvms could be read and the queue is not shut down, the
  -- identifier of every one of them is in the queue.
  pub resync_specs-IsQueued :
      (get_all : List (String × String) → Io W (List Microvm)) (c : Controller W)
      (specs : List Microvm)
      → (get_all (("Namespace", "") ∷ []) c.world).0 ≡ ok specs
      → c.queue.shutting_down ≡ false
      → All (λ spec. IsQueued (to_string spec.id) (resync_specs get_all c).1.queue) specs
  unfolding resync_specs
  resync_specs-IsQueued get_all c specs e h = rw e (enqueue_specs-IsQueued specs c.queue h)

  -- No work is lost by an error: when a worker takes an item that is an identifier and its
  -- reconciliation fails, the worker goes on and the item is in the queue again, unless the queue
  -- is shut down.
  pub process_queue_item-retries :
      (reconcile : Vmid → Io W (Unit {0})) (c : Controller W) (id : String) (rest : List String)
      (vmid : Vmid) (x : Error)
      → c.queue.items ≡ id ∷ rest
      → c.queue.shutting_down ≡ false
      → new_vmid_from_string id ≡ ok vmid
      → (reconcile vmid c.world).0 ≡ fail x
      → ((process_queue_item reconcile c).0 ≡ ok goes_on)
        × IsQueued id (process_queue_item reconcile c).1.queue
  unfolding process_queue_item dequeue dequeue_items
  process_queue_item-retries reconcile c id rest vmid x e h p f =
      rw (e, p, f) (refl, enqueue-IsQueued id (record c.queue { items = rest }) h)

  reconciled-world :
      (id : String) (q : Queue String) (r : Outcome (Unit {0}) × W)
      → (reconciled id q r).1.world ≡ r.1
  unfolding reconciled
  reconciled-world id q (ok u, w) = refl
  reconciled-world id q (fail e, w) = refl
  reconciled-world id q (panic f, w) = refl
  reconciled-world id q (no_fuel, w) = refl

  -- From the event to the use case: when the queue was new and the event that a microvm was created
  -- names an identifier whose parts are neither empty nor contain a slash, the next item that a
  -- worker processes is reconciled as exactly that identifier, and what the use case leaves of the
  -- world is what the worker leaves.
  pub event-process_queue_item :
      (reconcile : Vmid → Io W (Unit {0})) (v : Vmid) (w : W)
      → IsPrintable v
      → let e : SpecEvent = record { id = v.name; namespace = v.namespace; uid = v.uid } in
        let queue = (handle_event (spec_created e) new_simple_sync_queue).1 in
        (process_queue_item reconcile (record { queue = queue; world = w })).1.world
        ≡ (reconcile v w).1
  unfolding handle_event new_vmid process_queue_item dequeue dequeue_items enqueue exists
      new_simple_sync_queue
  event-process_queue_item reconcile v w p =
      rw
        (
          is_empty-of_ne v.name p.name_set,
          is_empty-of_ne v.namespace p.namespace_set,
          from_string-to_string v p,
        )
        (reconciled-world (to_string v) _ (reconcile v w))

-- ===== src/Controller.antt =====
-- infrastructure/controllers/microvm_controller.go: the event listener and the workers. The items
-- of the queue are printed identifiers, compared as texts; that an item is no text cannot happen.
pub mod Work
pub mod Listening
pub mod Running
use flintlock.Prelude.{String, List, [], ◌∷◌, str_eq}
use flintlock.Outcome.{Outcome, ok, fail, panic, no_fuel}
use flintlock.Io.{Io}
use flintlock.Queue.{Queue, Dequeued, waits, item, closed, enqueue, dequeue}
use flintlock.Models.Vmid.{Vmid, new_vmid, new_vmid_from_string, to_string}
use flintlock.Models.Microvm.{Microvm, ListMicrovmQuery}
use flintlock.Ports.{SpecEvent, Event, spec_created, spec_updated, spec_deleted, other_event}

-- r.queue.Enqueue
abbrev pub enqueue_id : String → Queue String → Queue String
enqueue_id = enqueue str_eq

enqueue_vmid : Outcome Vmid → Io (Queue String) (Unit {0})
enqueue_vmid (ok vmid) q = (ok tt, enqueue_id (to_string vmid) q)
enqueue_vmid (fail e) q = (fail e, q)
enqueue_vmid (panic f) q = (panic f, q)
enqueue_vmid no_fuel q = (no_fuel, q)

-- the end of handleEvent, for the events that are not skipped
enqueue_event : SpecEvent → Io (Queue String) (Unit {0})
unfolding enqueue_vmid
enqueue_event e = enqueue_vmid (new_vmid e.id e.namespace e.uid)

-- handleEvent
unfoldable pub handle_event : Event → Io (Queue String) (Unit {0})
unfolding enqueue_event
handle_event (spec_created e) q = enqueue_event e q
handle_event (spec_updated e) q = enqueue_event e q
handle_event (spec_deleted e) q = (ok tt, q)
handle_event other_event q = (ok tt, q)

-- the loop of resyncSpecs
unfoldable pub enqueue_specs : List Microvm → Queue String → Queue String
enqueue_specs [] q = q
enqueue_specs (spec ∷ specs) q = enqueue_specs specs (enqueue_id (to_string spec.id) q)

-- The queue that the workers and the listener share, and the world of the use cases.
pub record Controller (W : Type 0) : Type 0 where
  pub queue : Queue String
  pub world : W

-- What one call of processQueueItem comes to: the worker goes on, or ends, or is waiting.
pub data Worked : Type 0 where
  goes_on ends is_waiting : Worked

module _ {W : Type 0} where
  resynced : Queue String → Outcome (List Microvm) × W → Outcome (Unit {0}) × Controller W
  unfolding enqueue_specs
  resynced q (ok specs, w) = (ok tt, record { queue = enqueue_specs specs q; world = w })
  resynced q (fail e, w) = (fail e, record { queue = q; world = w })
  resynced q (panic f, w) = (panic f, record { queue = q; world = w })
  resynced q (no_fuel, w) = (no_fuel, record { queue = q; world = w })

  -- resyncSpecs, over the use case GetAllMicroVM
  unfoldable pub resync_specs :
      (ListMicrovmQuery → Io W (List Microvm)) → Io (Controller W) (Unit {0})
  unfolding resynced
  resync_specs get_all c = resynced c.queue (get_all (("Namespace", "") ∷ []) c.world)

  -- An error of the reconciliation puts the item back; a panic ends the program.
  unfoldable pub reconciled :
      String → Queue String → Outcome (Unit {0}) × W → Outcome Worked × Controller W
  reconciled id q (ok u, w) = (ok goes_on, record { queue = q; world = w })
  reconciled id q (fail e, w) = (ok goes_on, record { queue = enqueue_id id q; world = w })
  reconciled id q (panic f, w) = (panic f, record { queue = q; world = w })
  reconciled id q (no_fuel, w) = (no_fuel, record { queue = q; world = w })

  unfoldable pub work_on :
      (Vmid → Io W (Unit {0}))
      → String
      → Outcome Vmid
      → Controller W
      → Outcome Worked × Controller W
  unfolding reconciled
  work_on reconcile id (ok vmid) c = reconciled id c.queue (reconcile vmid c.world)
  work_on reconcile id (fail e) c = (ok goes_on, c)
  work_on reconcile id (panic f) c = (panic f, c)
  work_on reconcile id no_fuel c = (no_fuel, c)

  -- processQueueItem after its Dequeue
  abbrev handle_item :
      (Vmid → Io W (Unit {0}))
      → Dequeued String
      → Queue String
      → Controller W
      → Outcome Worked × Controller W
  handle_item reconcile waits q c = (ok is_waiting, c)
  handle_item reconcile closed q c = (ok ends, c)
  handle_item reconcile (item id) q c =
      work_on reconcile id (new_vmid_from_string id) (record c { queue = q })

  -- processQueueItem, over the use case ReconcileMicroVM, without another goroutine in between
  unfoldable pub process_queue_item : (Vmid → Io W (Unit {0})) → Io (Controller W) Worked
  unfolding work_on
  process_queue_item reconcile c =
      let (taken, q) = dequeue c.queue in handle_item reconcile taken q c

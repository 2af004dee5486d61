-- ===== src/Controller/Running/Worked.antt =====
-- infrastructure/controllers/microvm_controller.go: processQueueItem as steps of Run.
use flintlock.Prelude.{◌≡◌, ◌≢◌, refl, sym, ◌∙◌, ℕ, ◌<◌, String, true, List, [], ◌∷◌}
use flintlock.Prelude.Family.{update, update-same, update-other}
use flintlock.Outcome.{Outcome, ok, fail, panic, no_fuel}
use flintlock.Io.{Io}
use flintlock.Queue.{Queue, Dequeued, waits, item, closed, dequeue}
use flintlock.Models.Vmid.{Vmid, new_vmid_from_string}
use flintlock.Controller.{
  Controller, Worked, goes_on, ends, is_waiting, handle_item, process_queue_item, work_on,
  reconciled, enqueue_id,
}
use flintlock.Controller.Running.Moves.{dequeue-closed}
use flintlock.Controller.Running.{
  Act, takes, skips, succeeds, fails, closes, Worker, idle, finished, reconciling, has_started,
  Running, take, skip, close, succeed, retry, Run, here, next,
}

-- where a worker is after the call
abbrev pub worker_after : Worked → Worker
worker_after goes_on = idle
worker_after ends = finished
worker_after is_waiting = idle

-- What a worker does with an item, by what ReconcileMicroVM comes to.
abbrev pub acts_of_result : String → Outcome (Unit {0}) → List Act
acts_of_result id (ok u) = succeeds id ∷ takes id ∷ []
acts_of_result id (fail e) = fails id ∷ takes id ∷ []
acts_of_result id _ = takes id ∷ []

module _ {W : Type 0} (reconcile : Vmid → Io W (Unit {0})) (world : W) where
  abbrev pub acts_of_item : String → Outcome Vmid → List Act
  acts_of_item id (ok vmid) = acts_of_result id (reconcile vmid world).0
  acts_of_item id _ = skips id ∷ []

  -- By what Dequeue gives.
  abbrev pub acts_of : Dequeued String → List Act
  acts_of waits = []
  acts_of closed = closes ∷ []
  acts_of (item id) = acts_of_item id (new_vmid_from_string id)

-- Nothing but the queue and one worker has moved.
pub record SameElse (i : ℕ) (s t : Running) : Type 0 where
  pub same_listener : t.listener ≡ s.listener
  pub same_cancelled : t.is_cancelled ≡ s.is_cancelled
  pub same_closed : t.is_closed ≡ s.is_closed
  pub others : (j : ℕ) → i ≢ j → t.worker j ≡ s.worker j

-- a run with just these acts of one worker that leaves this queue and this worker
abbrev pub Reaches : ℕ → Running → ℕ → List Act → Queue String → Worker → Type 0
Reaches n s i acts q w =
    (t : Running) × Run n s acts t × (t.queue ≡ q) × (t.worker i ≡ w) × SameElse i s t

module _ {W : Type 0} (reconcile : Vmid → Io W (Unit {0})) (n : ℕ) (s : Running) (i : ℕ)
    (lt : i < n) (started : has_started s.listener ≡ true) (rest : s.worker i ≡ idle) where
  nothing_moved : SameElse i s s
  nothing_moved = record {
    same_listener = refl;
    same_cancelled = refl;
    same_closed = refl;
    others = λ j ne. refl;
  }

  -- the worker has taken an item and is idle again
  back :
      (q : Queue String) (id : String)
      → SameElse i s
          (record s { queue = q; worker = update (update s.worker i (reconciling id)) i idle })
  back q id = record {
    same_listener = refl;
    same_cancelled = refl;
    same_closed = refl;
    others = λ j ne.
        update-other (update s.worker i (reconciling id)) i j idle ne
        ∙ update-other s.worker i j (reconciling id) ne;
  }

  after_reconciling :
      (id : String) (q : Queue String) (vmid : Vmid)
      → dequeue s.queue ≡ (item id, q)
      → new_vmid_from_string id ≡ ok vmid
      → (r : Outcome (Unit {0}) × W) (w : Worked) → (reconciled id q r).0 ≡ ok w
      → Reaches n s i (acts_of_result id r.0) (reconciled id q r).1.queue (worker_after w)
  unfolding reconciled
  after_reconciling id q vmid e p (ok u, world) goes_on h = (
    _,
    next (next here (take i lt started rest e p))
        (succeed i lt (update-same s.worker i (reconciling id))),
    refl,
    update-same (update s.worker i (reconciling id)) i idle,
    back q id,
  )
  after_reconciling id q vmid e p (fail x, world) goes_on h = (
    _,
    next (next here (take i lt started rest e p))
        (retry i lt (update-same s.worker i (reconciling id))),
    refl,
    update-same (update s.worker i (reconciling id)) i idle,
    back (enqueue_id id q) id,
  )
  after_reconciling id q vmid e p (ok u, world) ends h = cc
  after_reconciling id q vmid e p (ok u, world) is_waiting h = cc
  after_reconciling id q vmid e p (fail x, world) ends h = cc
  after_reconciling id q vmid e p (fail x, world) is_waiting h = cc
  after_reconciling id q vmid e p (panic f, world) w h = cc
  after_reconciling id q vmid e p (no_fuel, world) w h = cc

  after_taking :
      (c : Controller W) (id : String) (q : Queue String)
      → dequeue s.queue ≡ (item id, q)
      → (v : Outcome Vmid) → new_vmid_from_string id ≡ v
      → (w : Worked) → (work_on reconcile id v (record c { queue = q })).0 ≡ ok w
      → Reaches n s i
          (acts_of_item reconcile c.world id v)
          (work_on reconcile id v (record c { queue = q })).1.queue
          (worker_after w)
  unfolding work_on
  after_taking c id q e (ok vmid) p w h =
      after_reconciling id q vmid e p (reconcile vmid c.world) w h
  after_taking c id q e (fail x) p goes_on h = (
    _,
    next here (skip i lt started rest e p),
    refl,
    rest,
    record {
      same_listener = refl;
      same_cancelled = refl;
      same_closed = refl;
      others = λ j ne. refl;
    },
  )
  after_taking c id q e (fail x) p ends h = cc
  after_taking c id q e (fail x) p is_waiting h = cc
  after_taking c id q e (panic f) p w h = cc
  after_taking c id q e no_fuel p w h = cc

  after_dequeue :
      (c : Controller W)
      → c.queue ≡ s.queue
      → (d : Dequeued String) (q : Queue String) → dequeue s.queue ≡ (d, q)
      → (w : Worked) → (handle_item reconcile d q c).0 ≡ ok w
      → Reaches n s i
          (acts_of reconcile c.world d)
          (handle_item reconcile d q c).1.queue
          (worker_after w)
  after_dequeue c same waits q e is_waiting h = (s, here, sym same, rest, nothing_moved)
  after_dequeue c same waits q e goes_on h = cc
  after_dequeue c same waits q e ends h = cc
  after_dequeue c same closed q e ends h = (
    _,
    next here (close i lt started rest e),
    (dequeue-closed s.queue q e).0 ∙ sym same,
    update-same s.worker i finished,
    record {
      same_listener = refl;
      same_cancelled = refl;
      same_closed = refl;
      others = λ j ne. update-other s.worker i j finished ne;
    },
  )
  after_dequeue c same closed q e goes_on h = cc
  after_dequeue c same closed q e is_waiting h = cc
  after_dequeue c same (item id) q e w h = after_taking c id q e (new_vmid_from_string id) refl w h

  -- The steps of the workers are those of the code: when a call of processQueueItem does not panic,
  -- then one of the started workers that is idle makes a run whose acts are told by what Dequeue
  -- gives, by whether the item is an identifier and by whether ReconcileMicroVM fails, in which
  -- nothing else moves, and which leaves the queue as the call does, and the worker at the end of
  -- its loop when the call says so and idle otherwise.
  pub process_queue_item-Reaches :
      (world : W) (w : Worked)
      → (process_queue_item reconcile (record { queue = s.queue; world = world })).0 ≡ ok w
      → Reaches n s i
          (acts_of reconcile world (dequeue s.queue).0)
          (process_queue_item reconcile (record { queue = s.queue; world = world })).1.queue
          (worker_after w)
  unfolding process_queue_item
  process_queue_item-Reaches world w h =
      after_dequeue (record { queue = s.queue; world = world }) refl (dequeue s.queue).0
        (dequeue s.queue).1 refl w h

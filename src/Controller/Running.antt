-- ===== src/Controller/Running.antt =====
-- infrastructure/controllers/microvm_controller.go: Run, with its workers, the event listener and
-- the goroutine that waits for the end of the context, interleaved in any order. A step is one use
-- of the shared queue, one choice of the listener's select, or the end of a reconciliation, whose
-- result is left open.
mod Moves
pub mod Invariants
pub mod Outstanding
pub mod Drain
pub mod Worked
use flintlock.Prelude.{◌≡◌, ℕ, ◌<◌, String, Bool, true, false, List, [], ◌∷◌}
use flintlock.Prelude.Family.{update}
use flintlock.Outcome.{Error, ok, fail}
use flintlock.Queue.{Queue, item, closed, dequeue, shutdown, new_simple_sync_queue}
use flintlock.Models.Vmid.{Vmid, new_vmid_from_string, to_string}
use flintlock.Models.Microvm.{Microvm}
use flintlock.Ports.{Event}
use flintlock.Controller.{enqueue_id, handle_event}

-- Where a worker is: before Dequeue, in ReconcileMicroVM, or at the end of its loop.
pub data Worker : Type 0 where
  idle finished : Worker
  reconciling : String → Worker

-- Where the listener is. `on_start` and `resyncing` hold the microvms that resyncSpecs has still to
-- enqueue; the first is the resync of Run itself, before any goroutine but one is started.
pub data Listener : Type 0 where
  on_start resyncing : List Microvm → Listener
  selecting returned panicked : Listener

-- `is_cancelled` is the context's, and `is_closed` that of the channel of events, which the event
-- service closes once the context is done.
pub record Running : Type 0 where
  pub queue : Queue String
  pub listener : Listener
  pub worker : ℕ → Worker
  pub is_cancelled : Bool
  pub is_closed : Bool

-- The workers are started after the listener.
abbrev pub has_started : Listener → Bool
has_started (on_start specs) = false
has_started _ = true

-- Run is called; `specs` are what the resync on start has read, and none without it or on its error.
abbrev pub initial : List Microvm → Running
initial specs = record {
  queue = new_simple_sync_queue;
  listener = on_start specs;
  worker = λ i. idle;
  is_cancelled = false;
  is_closed = false;
}

-- What a step does to an item that a worker has taken.
pub data Act : Type 0 where
  other : Act
  takes skips succeeds fails : String → Act
  closes : Act

-- One step with `n` workers. A panic of the listener ends the program; that the workers may still go
-- on here only adds to what is possible.
pub data Step (n : ℕ) (s : Running) : Act → Running → Type 0 where
  cancel : Step n s other (record s { is_cancelled = true })
  close_channel : s.is_cancelled ≡ true → Step n s other (record s { is_closed = true })
  shut : s.is_cancelled ≡ true → Step n s other (record s { queue = shutdown s.queue })
  start_next :
      {spec : Microvm} {specs : List Microvm}
      → s.listener ≡ on_start (spec ∷ specs)
      → Step n s other
          (record s { queue = enqueue_id (to_string spec.id) s.queue; listener = on_start specs })
  start_done : s.listener ≡ on_start [] → Step n s other (record s { listener = selecting })
  event :
      (e : Event)
      → s.listener ≡ selecting
      → Step n s other (record s { queue = (handle_event e s.queue).1 })
  nil_event :
      s.listener ≡ selecting
      → s.is_closed ≡ true
      → Step n s other (record s { listener = panicked })
  tick :
      (specs : List Microvm)
      → s.listener ≡ selecting
      → Step n s other (record s { listener = resyncing specs })
  resync_next :
      {spec : Microvm} {specs : List Microvm}
      → s.listener ≡ resyncing (spec ∷ specs)
      → Step n s other
          (record s { queue = enqueue_id (to_string spec.id) s.queue; listener = resyncing specs })
  resync_done : s.listener ≡ resyncing [] → Step n s other (record s { listener = selecting })
  return_listener :
      s.listener ≡ selecting
      → s.is_cancelled ≡ true
      → Step n s other (record s { listener = returned })
  take :
      (i : ℕ) {id : String} {q : Queue String} {vmid : Vmid}
      → i < n
      → has_started s.listener ≡ true
      → s.worker i ≡ idle
      → dequeue s.queue ≡ (item id, q)
      → new_vmid_from_string id ≡ ok vmid
      → Step n s (takes id) (record s { queue = q; worker = update s.worker i (reconciling id) })
  skip :
      (i : ℕ) {id : String} {q : Queue String} {e : Error}
      → i < n
      → has_started s.listener ≡ true
      → s.worker i ≡ idle
      → dequeue s.queue ≡ (item id, q)
      → new_vmid_from_string id ≡ fail e
      → Step n s (skips id) (record s { queue = q })
  close :
      (i : ℕ) {q : Queue String}
      → i < n
      → has_started s.listener ≡ true
      → s.worker i ≡ idle
      → dequeue s.queue ≡ (closed, q)
      → Step n s closes (record s { queue = q; worker = update s.worker i finished })
  succeed :
      (i : ℕ) {id : String}
      → i < n
      → s.worker i ≡ reconciling id
      → Step n s (succeeds id) (record s { worker = update s.worker i idle })
  retry :
      (i : ℕ) {id : String}
      → i < n
      → s.worker i ≡ reconciling id
      → Step n s
          (fails id)
          (record s { queue = enqueue_id id s.queue; worker = update s.worker i idle })

-- A run from one state to another, with what its steps did, the last one first.
pub data Run (n : ℕ) (s : Running) : List Act → Running → Type 0 where
  here : Run n s [] s
  next :
      {acts : List Act} {a : Act} {t u : Running}
      → Run n s acts t
      → Step n t a u
      → Run n s (a ∷ acts) u

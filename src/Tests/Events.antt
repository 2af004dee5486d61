-- ===== src/Tests/Events.antt =====
-- Containerd's events on their way to the queue, and the locks of the repository.
use flintlock.Prelude.{◌≡◌, ◌≢◌, refl, String, [], ◌∷◌, ◌++◌, some, str_eq, if◌then◌else◌}
use flintlock.Outcome.{Outcome, ok, fail, panic, nil_dereference, external}
use flintlock.Models.Microvm.{Microvm, pending}
use flintlock.Ports.{Event, RepositoryGetOptions, spec_created}
use flintlock.Controller.Listening.{listen}
use flintlock.Containerd.Events.{CtrEnvelope, ctr_event, forward}
use flintlock.Containerd.Events.Delivered.{handle_all, received, forward-listen}
use flintlock.Containerd.Locks.{
  no_locks, get_mutexes, save_mutex, get_options_mutex, exists_mutex, delete_mutex,
  release_lease_mutex, readers-NotExcluded,
}
use flintlock.Tests.Host.{microvm_with}
use flintlock.Tests.Workers.{event, one_item}

abbrev unmarshal : String → Outcome Event
unmarshal text = if str_eq text "created" then ok (spec_created event) else fail (external 1)

abbrev carried : String → CtrEnvelope String
carried text = record { timestamp = 1; namespace = "ns"; topic = "/microvm"; event = text }

forward-listen_example :
    (listen (forward unmarshal (received (carried "created" ∷ []))) one_item
      ≡ (ok tt, handle_all (spec_created event ∷ []) one_item))
    × (listen
          (forward unmarshal
            (received (carried "created" ∷ []) ++ ctr_event (some (carried "garbled")) ∷ []))
          one_item
        ≡ (panic nil_dereference, handle_all (spec_created event ∷ []) one_item))
forward-listen_example =
    forward-listen unmarshal (carried "created" ∷ []) (spec_created event ∷ []) (carried "garbled")
      (external 1) [] one_item (refl, tt) refl

abbrev stored : Microvm
stored = microvm_with pending 0 0 0

abbrev options : RepositoryGetOptions
options = record { name = "one"; namespace = "ns"; version = ""; uid = "01ABC" }

readers-NotExcluded_example :
    let writer = save_mutex stored (get_mutexes ("other" ∷ []) no_locks) in
    ((get_options_mutex options (get_mutexes ("one" ∷ []) writer.1)).0 ≢ writer.0)
    × ((exists_mutex stored.id (get_mutexes ("one" ∷ []) writer.1)).0 ≢ writer.0)
    × ((delete_mutex stored (get_mutexes ("one" ∷ []) writer.1)).0 ≡ writer.0)
    × ((release_lease_mutex stored (get_mutexes ("one" ∷ []) writer.1)).0 ≡ writer.0)
readers-NotExcluded_example = readers-NotExcluded ("other" ∷ []) ("one" ∷ []) stored options refl

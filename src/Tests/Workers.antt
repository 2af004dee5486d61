-- ===== src/Tests/Workers.antt =====
-- The controller on small queues.
use flintlock.Prelude.{◌≡◌, refl, String, false, List, [], ◌∷◌, some, arith, eq_iff}
use flintlock.Outcome.{ok, fail, external}
use flintlock.Io.{Io}
use flintlock.Queue.{Queue, new_simple_sync_queue}
use flintlock.Models.Vmid.{Vmid}
use flintlock.Models.Vmid.RoundTrip.{IsPrintable}
use flintlock.Models.Microvm.{Microvm, pending}
use flintlock.Ports.{SpecEvent, spec_created}
use flintlock.Controller.{Controller, handle_event, process_queue_item}
use flintlock.Controller.Work.{event-process_queue_item}
use flintlock.Tests.Host.{Host, empty_host, microvm_with}

abbrev pub event : SpecEvent
event = record { id = "one"; namespace = "ns"; uid = "01ABC" }

abbrev pub one_item : Queue String
one_item = record { items = "ns/one/01ABC" ∷ []; shutting_down = false }

abbrev pub specs : List Microvm
specs = microvm_with pending 0 0 0 ∷ []

abbrev stored_specs : List (String × String) → Io Host (List Microvm)
stored_specs query w = (ok specs, w)

abbrev controller : Controller Host
controller = record { queue = one_item; world = empty_host }

abbrev pub failing : Vmid → Io Host (Unit {0})
failing vmid w = (fail (external 1), w)

abbrev pub one : Vmid
one = record { name = "one"; namespace = "ns"; uid = "01ABC" }

pub one-IsPrintable : IsPrintable one
one-IsPrintable = record {
  namespace_set = ground (arith, eq_iff "ns" "");
  name_set = ground (arith, eq_iff "one" "");
  uid_set = ground (arith, eq_iff "01ABC" "");
  namespace_plain = (refl, (refl, tt));
  name_plain = (refl, (refl, (refl, tt)));
  uid_plain = (refl, (refl, (refl, (refl, (refl, tt)))));
}

abbrev storing : Vmid → Io Host (Unit {0})
storing vmid w =
    (ok tt, record w { stored = some (record (microvm_with pending 0 0 0) { id = vmid }) })

event-process_queue_item_example :
    (process_queue_item storing (record {
      queue = (handle_event (spec_created event) new_simple_sync_queue).1;
      world = empty_host;
    })).1.world
    ≡ record empty_host { stored = some (microvm_with pending 0 0 0) }
event-process_queue_item_example = event-process_queue_item storing one empty_host one-IsPrintable

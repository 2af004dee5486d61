-- ===== src/Tests/UseCases.antt =====
-- The use cases on the small host.
use flintlock.Prelude.{◌≡◌, refl, true, false, some, arith, is_empty, [], ◌∷◌}
use flintlock.Outcome.{ok, is_spec_not_found}
use flintlock.Io.{Io}
use flintlock.Planner.{
  react, execute_plan, round, run_step, should_do_next, do_next, verify_next, conclude, and_then,
}
use flintlock.Models.Microvm.{Microvm, pending, deleting}
use flintlock.Ports.{Session, MicrovmService, running, unknown}
use flintlock.Steps.Status.{with_status}
use flintlock.Steps.Step.{procedures, should_do, do_step, verify}
use flintlock.Steps.Process.{delete_should_do, delete_do, publish_do}
use flintlock.Steps.Network.{delete_interface_should_do}
use flintlock.Steps.Runtime.{repo_release_should_do, delete_directory_should_do}
use flintlock.Models.Vmid.{is_empty_vmid}
use flintlock.Models.Capability.{has}
use flintlock.Prelude.Dict.{lookup, insert}
use flintlock.Plans.{add_step}
use flintlock.Plans.Delete
use flintlock.App.Reconcile.{reconcile, reschedule, execute, create_of}
use flintlock.App.Reconcile.Backoff.{reschedule-then_waits}
use flintlock.App.Reconcile.Execution.{execute-done}
use flintlock.App.Commands
use flintlock.App.Commands.{add_metadata_interface}
use flintlock.App.Commands.Provider.{IsStored, create_microvm-IsStored}
use flintlock.App.Commands.Deletion.{IsMarked, delete_microvm-IsMarked}
use flintlock.Tests.Host.{
  Host, ports, enc, instance_enc, config, join, empty_host, microvm_with, session,
}

-- more retries than the ten that are allowed
abbrev exhausted : Session Host
exhausted = session (microvm_with pending 11 0 0)

-- one retry so far, and 20 seconds to go at the host's time 100
abbrev waiting : Session Host
waiting = session (microvm_with pending 1 120 0)

abbrev fresh : Session Host
fresh = session (microvm_with pending 0 0 0)

abbrev later_host : Host
later_host = record empty_host { now = 119 }

reschedule-then_waits_example :
    reconcile config enc ports join 5
      (record { vm = (reschedule config enc ports join fresh).1.vm; world = later_host })
    ≡ (ok tt, record { vm = (reschedule config enc ports join fresh).1.vm; world = later_host })
reschedule-then_waits_example =
    reschedule-then_waits config enc ports join 5 100 119 fresh later_host (omega arith) refl refl
      (omega arith)

abbrev given : Microvm
given = microvm_with pending 3 0 0

abbrev accept : Microvm → Io Host (Unit {0})
accept vm w = (ok tt, w)

-- what is stored of it: the metadata service's interface in front, the instance's metadata, the date
abbrev stored : Microvm
stored = Commands.add_metadata_interface (
    with_status (λ t. record t { state = pending; retry = 0 })
      (Commands.with_spec
        (λ s. record s {
          metadata = some (("meta-data", "instance_id: 01ABC") ∷ []);
          created_at = 100;
        })
        given))

create_microvm-IsStored_example :
    (p : MicrovmService Host) × (vm : Microvm) × IsStored config instance_enc accept ports p vm
      stored
unfolding Commands.create_microvm Commands.create_given Commands.ensure_vmid
    Commands.choose_provider Commands.find_provider Commands.find_existing
    Commands.complete_and_save Commands.check_provider_capabilities Commands.add_instance_data
    Commands.existing_data Commands.set_instance_id Commands.store_data
    Commands.add_metadata_interface Commands.metadata_interface is_spec_not_found is_empty_vmid has
    lookup insert
create_microvm-IsStored_example =
    create_microvm-IsStored config instance_enc accept ports (some given) empty_host stored refl

abbrev host_with_given : Host
host_with_given = record empty_host { stored = some given }

delete_microvm-IsMarked_example :
    (is_empty "01ABC" ≡ false)
    × ((found : Microvm) × (marked : Microvm) × IsMarked ports "01ABC" found marked)
unfolding Commands.delete_microvm Commands.delete_found
delete_microvm-IsMarked_example = delete_microvm-IsMarked ports "01ABC" host_with_given refl

abbrev deleted : Microvm
deleted = microvm_with deleting 0 0 90

-- The host runs the process of the microvm, and nothing else of it.
abbrev running_host : Host
running_host = record empty_host { process = running }

abbrev stopped : Session Host
stopped = record { vm = deleted; world = record empty_host { process = unknown } }

execute-done_example :
    (u : Session Host) × (create_of config enc ports join true deleted u ≡ (ok [], stopped))
unfolding execute create_of execute_plan round react run_step should_do_next do_next verify_next
    conclude and_then Delete.create Delete.delete_steps Delete.add_network_steps
    Delete.publish_deleted add_step procedures should_do do_step verify delete_should_do delete_do
    publish_do repo_release_should_do delete_interface_should_do delete_directory_should_do has
    lookup
execute-done_example =
    execute-done config enc ports join 5 2 true deleted
      (record { vm = deleted; world = running_host }) stopped refl

-- ===== src/Plans/Delete.antt =====
-- core/plans/microvm_delete.go
pub mod Order
use flintlock.Prelude.{String, not, ◌&&◌, ◌==◌, List, [], ◌∷◌, none, some, if◌then◌else◌}
use flintlock.Outcome.{provider_not_available}
use flintlock.Io.{Io, ◌>>=◌, pure, throw, gets}
use flintlock.Ports.{Session, Collection, MicrovmService, spec_deleted}
use flintlock.Models.Vmid.{to_string}
use flintlock.Models.Capability.{has, virtiofs_capability}
use flintlock.Models.Volumes.{Volume, is_some}
use flintlock.Models.Network.{NetworkInterface}
use flintlock.Models.Microvm.{Microvm, MicrovmState}
use flintlock.Steps.Status.{volume_status, is_unmounted}
use flintlock.Steps.Runtime.{status_mount}
use flintlock.Steps.CloudInit.{Encoding}
use flintlock.Steps.Step.{
  Step, delete_microvm, virtiofs_delete, repo_release, delete_interface, delete_directory,
  publish_event,
}
use flintlock.Plans.{add_step}

abbrev pub topic_microvm_events : String
topic_microvm_events = "/microvm"

module _ {W : Type 0} (enc : Encoding) (ports : Collection W) where
  abbrev Steps : Type 0
  Steps = List (Step W)

  -- addNetworkSteps
  unfoldable pub add_network_steps : List NetworkInterface → Steps → Io (Session W) Steps
  add_network_steps [] steps = pure steps
  add_network_steps (iface ∷ rest) steps =
      let next = add_network_steps rest in
      do more ← add_step enc ports steps (delete_interface iface.guest_device_name); next more

  -- addVirtioFSSteps
  unfoldable pub add_virtiofs_steps : List Volume → Steps → Io (Session W) Steps
  add_virtiofs_steps [] steps = pure steps
  add_virtiofs_steps (vol ∷ rest) steps =
      let next = add_virtiofs_steps rest in
      do
        status ← volume_status vol.id
        if is_some vol.source.virtiofs && not (is_unmounted (status_mount status))
            then (do more ← add_step enc ports steps (virtiofs_delete vol); next more)
            else next steps

  -- the event that ends a plan with something to do
  unfoldable pub publish_deleted : Microvm → Step W
  publish_deleted vm =
      publish_event topic_microvm_events
        (spec_deleted (record { id = ""; namespace = ""; uid = vm.id.uid }))

  abbrev add_publish : Microvm → Steps → Io (Session W) Steps
  add_publish vm [] = pure []
  add_publish vm (p ∷ steps) = add_step enc ports (p ∷ steps) (publish_deleted vm)

  -- Create, once the provider is known and the microvm is marked as deleted
  unfoldable pub delete_steps : String → MicrovmService W → Io (Session W) Steps
  unfolding add_virtiofs_steps add_network_steps publish_deleted
  delete_steps state_dir provider = do
    vm ← gets (λ s. s.vm)
    steps1 ← add_step enc ports [] (delete_microvm provider)
    steps2 ←
        if has provider.capabilities virtiofs_capability
        then add_virtiofs_steps vm.spec.additional_volumes steps1
        else pure steps1
    steps3 ← add_step enc ports steps2 repo_release
    steps4 ← add_network_steps vm.spec.network_interfaces steps3
    steps5 ← add_step enc ports steps4 (delete_directory state_dir)
    add_publish vm steps5

  -- Create; the ports are in the context that `reconcile` passes
  unfoldable pub create : String → Io (Session W) Steps
  unfolding delete_steps
  create state_dir = do
    vm ← gets (λ s. s.vm)
    elim (ports.microvm_providers vm.spec.provider) [
      | none ↦ throw (provider_not_available vm.spec.provider)
      | some provider ↦ if vm.spec.deleted_at == 0 then pure [] else delete_steps state_dir provider
    ]

-- the directory of MicroVMDeletePlan, where `join` is path.Join of three parts
unfoldable pub state_dir_of : (String → String → String → String) → String → Microvm → String
state_dir_of join root vm = join root "vm" (to_string vm.id)

-- Finalise: nothing
unfoldable pub finalise : MicrovmState → Microvm → Microvm
finalise state vm = vm

-- ===== src/Plans/CreateUpdate.antt =====
-- core/plans/microvm_create_update.go
pub mod Order
use flintlock.Prelude.{
  ℕ, String, Bool, true, false, not, ◌==◌, List, [], ◌∷◌, Option, none, some, is_empty,
  if◌then◌else◌,
}
use flintlock.Outcome.{provider_not_available}
use flintlock.Io.{Io, ◌>>=◌, ◌>>◌, pure, throw, gets}
use flintlock.Ports.{Session, Collection, MicrovmService}
use flintlock.Models.Capability.{has, virtiofs_capability, auto_start_capability}
use flintlock.Models.Volumes.{Volume, is_some, zero_volume_status}
use flintlock.Models.Network.{NetworkInterface, zero_interface_status}
use flintlock.Models.Microvm.{Microvm, MicrovmState, pending}
use flintlock.Steps.Status.{
  volume_status, interface_status, put_volume_status, put_interface_status, update_vm, with_status,
}
use flintlock.Steps.CloudInit.{Encoding}
use flintlock.Steps.Step.{
  Step, create_directory, virtiofs_mount, volume_mount, kernel_mount, initrd_mount, disk_mount,
  create_interface, create_microvm, start_microvm,
}
use flintlock.Plans.{add_step}

abbrev pub data_dir_perm : ℕ
data_dir_perm = 0o755

abbrev map_or_new : {A : Type 0} → Option (List A) → Option (List A)
map_or_new none = some []
map_or_new (some m) = some m

abbrev is_nil : {A : Type 0} → List A → Bool
is_nil [] = true
is_nil (a ∷ rest) = false

module _ {W : Type 0} where
  -- ensureStatus
  unfoldable pub ensure_status : Io (Session W) (Unit {0})
  ensure_status = update_vm (
      with_status λ t. record t {
        volumes = map_or_new t.volumes;
        network_interfaces = map_or_new t.network_interfaces;
        state = pending;
      })

  -- `if !ok { status = &VolumeStatus{}; vm.Status.Volumes[id] = status }`
  unfoldable pub ensure_volume_status : String → Io (Session W) (Unit {0})
  ensure_volume_status id = do
    status ← volume_status id
    if is_some status then pure tt else put_volume_status id zero_volume_status

  unfoldable pub ensure_interface_status : String → Io (Session W) (Unit {0})
  ensure_interface_status name = do
    status ← interface_status name
    if is_some status then pure tt else put_interface_status name zero_interface_status

module _ {W : Type 0} (enc : Encoding) (ports : Collection W) where
  abbrev Steps : Type 0
  Steps = List (Step W)

  -- `if c { addStep }`
  abbrev add_if : Bool → Step W → Steps → Io (Session W) Steps
  add_if c step steps = if c then add_step enc ports steps step else pure steps

  -- addVirtioFSSteps
  unfoldable pub add_virtiofs_steps : List Volume → Steps → Io (Session W) Steps
  unfolding ensure_volume_status
  add_virtiofs_steps [] steps = pure steps
  add_virtiofs_steps (vol ∷ rest) steps =
      let next = add_virtiofs_steps rest in
      if is_some vol.source.virtiofs
      then (do
        ensure_volume_status vol.id
        more ← add_step enc ports steps (virtiofs_mount vol)
        next more)
      else next steps

  -- the loop of addImageSteps
  unfoldable pub add_volume_steps : List Volume → Steps → Io (Session W) Steps
  unfolding ensure_volume_status
  add_volume_steps [] steps = pure steps
  add_volume_steps (vol ∷ rest) steps =
      let next = add_volume_steps rest in
      if is_some vol.source.container
      then (do
        ensure_volume_status vol.id
        more ← add_step enc ports steps (volume_mount vol)
        next more)
      else next steps

  -- addImageSteps
  unfoldable pub add_image_steps : Steps → Io (Session W) Steps
  unfolding add_volume_steps ensure_volume_status
  add_image_steps steps = do
    vm ← gets (λ s. s.vm)
    let root = vm.spec.root_volume
    ensure_volume_status root.id
    steps1 ← add_if (is_some root.source.container) (volume_mount root) steps
    steps2 ← add_volume_steps vm.spec.additional_volumes steps1
    steps3 ← add_if (not (is_empty vm.spec.kernel.image)) kernel_mount steps2
    add_if (is_some vm.spec.initrd) initrd_mount steps3

  -- addNetworkSteps
  unfoldable pub add_network_steps : List NetworkInterface → Steps → Io (Session W) Steps
  unfolding ensure_interface_status
  add_network_steps [] steps = pure steps
  add_network_steps (iface ∷ rest) steps =
      let next = add_network_steps rest in
      do
        ensure_interface_status iface.guest_device_name
        more ← add_step enc ports steps (create_interface iface)
        next more

  -- Create, once the provider is known and the microvm is not deleted
  unfoldable pub create_steps : String → MicrovmService W → Io (Session W) Steps
  unfolding ensure_status add_virtiofs_steps add_image_steps add_network_steps
  create_steps state_dir provider = do
    ensure_status
    vm ← gets (λ s. s.vm)
    steps1 ← add_step enc ports [] (create_directory state_dir data_dir_perm)
    steps2 ←
        if has provider.capabilities virtiofs_capability
        then add_virtiofs_steps vm.spec.additional_volumes steps1
        else pure steps1
    steps3 ← add_image_steps steps2
    steps4 ← add_if (not (is_nil vm.spec.additional_volumes)) disk_mount steps3
    steps5 ← add_network_steps vm.spec.network_interfaces steps4
    steps6 ← add_step enc ports steps5 (create_microvm provider)
    add_if (not (has provider.capabilities auto_start_capability)) (start_microvm provider) steps6

  -- Create; the ports are in the context that `reconcile` passes
  unfoldable pub create : String → Io (Session W) Steps
  unfolding create_steps
  create state_dir = do
    vm ← gets (λ s. s.vm)
    elim (ports.microvm_providers vm.spec.provider) [
      | none ↦ throw (provider_not_available vm.spec.provider)
      | some provider ↦
          if not (vm.spec.deleted_at == 0) then pure [] else create_steps state_dir provider
    ]

-- Finalise
unfoldable pub finalise : MicrovmState → Microvm → Microvm
finalise state vm = record vm { status = record vm.status { state = state } }

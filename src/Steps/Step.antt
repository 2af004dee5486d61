-- ===== src/Steps/Step.antt =====
-- The procedures of core/steps as one type, with the three operations that the actuator calls.
-- A step holds what its constructor was given: the volume or interface of the specification, the
-- service of the provider, the key of its status.
use flintlock.Prelude.{ℕ, String, Bool, true, []}
use flintlock.Io.{Io, ◌>>◌, pure}
use flintlock.Ports.{Session, Collection, MicrovmService, Event}
use flintlock.Models.Volumes.{Volume}
use flintlock.Models.Network.{NetworkInterface}
use flintlock.Planner.{Procedures}
use flintlock.Steps.Runtime.{
  volume_mount_should_do, volume_mount_do, kernel_mount_should_do, kernel_mount_do,
  initrd_mount_should_do, initrd_mount_do, virtiofs_mount_should_do, virtiofs_mount_do,
  virtiofs_delete_should_do, virtiofs_delete_do, create_directory_should_do, create_directory_do,
  delete_directory_should_do, delete_directory_do, repo_release_should_do, repo_release_do,
}
use flintlock.Steps.Process.{
  create_should_do, create_do, start_should_do, start_do, start_verify, delete_should_do, delete_do,
  publish_do,
}
use flintlock.Steps.Network.{
  create_interface_should_do, create_interface_do, delete_interface_should_do, delete_interface_do,
}
use flintlock.Steps.CloudInit.{Encoding, disk_mount_should_do, disk_mount_do}

pub data Step (W : Type 0) : Type 0 where
  create_directory : String → ℕ → Step W
  virtiofs_mount volume_mount : Volume → Step W
  kernel_mount initrd_mount disk_mount : Step W
  create_interface : NetworkInterface → Step W
  create_microvm start_microvm delete_microvm : MicrovmService W → Step W
  virtiofs_delete : Volume → Step W
  repo_release : Step W
  delete_interface : String → Step W
  delete_directory : String → Step W
  publish_event : String → Event → Step W

module _ {W : Type 0} (enc : Encoding) (ports : Collection W) where
  -- ShouldDo
  unfoldable pub should_do : Step W → Io (Session W) Bool
  should_do (create_directory dir mode) = create_directory_should_do ports.file_system dir mode
  should_do (virtiofs_mount volume) = virtiofs_mount_should_do ports.virtiofs_service volume
  should_do (volume_mount volume) = volume_mount_should_do ports.image_service volume
  should_do kernel_mount = kernel_mount_should_do ports.image_service
  should_do initrd_mount = initrd_mount_should_do ports.image_service
  should_do disk_mount = disk_mount_should_do enc
  should_do (create_interface iface) = create_interface_should_do ports iface
  should_do (create_microvm provider) = create_should_do provider
  should_do (start_microvm provider) = start_should_do provider
  should_do (delete_microvm provider) = delete_should_do provider
  should_do (virtiofs_delete volume) = virtiofs_delete_should_do ports.virtiofs_service
  should_do repo_release = repo_release_should_do ports.repo
  should_do (delete_interface guest) = delete_interface_should_do ports guest
  should_do (delete_directory dir) = delete_directory_should_do ports.file_system dir
  should_do (publish_event topic event) = pure true

  -- Do
  unfoldable pub do_step : Step W → Io (Session W) (Unit {0})
  do_step (create_directory dir mode) = create_directory_do ports.file_system dir mode
  do_step (virtiofs_mount volume) = virtiofs_mount_do ports.virtiofs_service volume
  do_step (volume_mount volume) = volume_mount_do ports.image_service volume
  do_step kernel_mount = kernel_mount_do ports.image_service
  do_step initrd_mount = initrd_mount_do ports.image_service
  do_step disk_mount = disk_mount_do enc
  do_step (create_interface iface) = create_interface_do ports iface
  do_step (create_microvm provider) = create_do provider
  do_step (start_microvm provider) = start_do provider
  do_step (delete_microvm provider) = delete_do provider
  do_step (virtiofs_delete volume) = virtiofs_delete_do ports.virtiofs_service volume
  do_step repo_release = repo_release_do ports.repo
  do_step (delete_interface guest) = delete_interface_do ports guest
  do_step (delete_directory dir) = delete_directory_do ports.file_system dir
  do_step (publish_event topic event) = publish_do ports topic event

  -- Verify
  unfoldable pub verify : Step W → Io (Session W) (Unit {0})
  verify (start_microvm provider) = start_verify provider
  verify _ = pure tt

  -- What the actuator is given: no step returns child steps.
  unfoldable pub procedures : Procedures (Session W) (Step W)
  unfolding should_do do_step verify
  procedures = record {
    should_do = should_do;
    perform = λ p. do_step p >> pure [];
    verify = verify;
    context_error = λ s. ports.context_error s.world;
  }

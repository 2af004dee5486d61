-- ===== src/Steps/Frame.antt =====
-- What no step of a plan changes: all of a microvm but the status of its parts, the state, the
-- cloud-init metadata and the path of its socket.
use flintlock.Prelude.{ℕ, suc, is_empty, ◌≡◌, String, List, [], ◌∷◌, none, arith}
use flintlock.Io.{
  Io, Keeps, Keeps-bind, Keeps-pure, Keeps-gets, Keeps-modify, Keeps-if, Keeps-lift, lift, gets,
}
use flintlock.Ports.{
  Session, on_world, Collection, ImageService, VirtioFsService, FileSystem, MicrovmService,
}
use flintlock.Models.Volumes.{Volume, VolumeStatus}
use flintlock.Models.Network.{NetworkInterface, NetworkInterfaceStatus}
use flintlock.Models.Microvm.{Microvm}
use flintlock.Steps.Status.{put_volume_status, put_interface_status}
use flintlock.Steps.Runtime.{
  volume_mount_do, kernel_mount_do, initrd_mount_do, virtiofs_mount_do, virtiofs_delete_do,
  create_directory_do, delete_directory_do, repo_release_do,
}
use flintlock.Steps.CloudInit.{Encoding, UserData, user_data_or_empty, add_mounts, disk_mount_do}
use flintlock.Steps.Step.{
  Step, create_directory, virtiofs_mount, volume_mount, kernel_mount, initrd_mount, disk_mount,
  create_interface, create_microvm, start_microvm, delete_microvm, virtiofs_delete, repo_release,
  delete_interface, delete_directory, publish_event, do_step,
}
use flintlock.Steps.Network.{
  create_interface_do, delete_interface_do, record_details, ensure_host_name,
}
use flintlock.Steps.Process.{create_do, start_do, delete_do, publish_do}

-- The same but for the parts that a plan may write.
pub record SameFrame (a b : Microvm) : Type 0 where
  pub same_id : b.id ≡ a.id
  pub same_version : b.version ≡ a.version
  pub same_spec : record b.spec { metadata = none } ≡ record a.spec { metadata = none }
  pub same_retry : b.status.retry ≡ a.status.retry
  pub same_not_before : b.status.not_before ≡ a.status.not_before

abbrev pub Framed : {W : Type 0} → Microvm → Session W → Type 0
Framed vm s = SameFrame vm s.vm

module _ {W : Type 0} (vm : Microvm) where
  pub Framed-on_world : {A : Type 0} (m : Io W A) → Keeps (Framed {W = W} vm) (on_world m)
  Framed-on_world m = record { at = λ s h. h }

  pub Framed-put_volume_status :
      (id : String) (status : VolumeStatus)
      → Keeps (Framed {W = W} vm) (put_volume_status id status)
  unfolding put_volume_status
  Framed-put_volume_status id status = record { at = λ s h. ground arith }

  pub Framed-put_interface_status :
      (name : String) (status : NetworkInterfaceStatus)
      → Keeps (Framed {W = W} vm) (put_interface_status name status)
  unfolding put_interface_status
  Framed-put_interface_status name status = record { at = λ s h. ground arith }

  Framed-volume_mount :
      (images : ImageService W) (volume : Volume)
      → Keeps (Framed {W = W} vm) (volume_mount_do images volume)
  unfolding volume_mount_do put_volume_status
  Framed-volume_mount images volume = record { at = λ s h. ground arith }

  Framed-kernel_mount :
      (images : ImageService W) → Keeps (Framed {W = W} vm) (kernel_mount_do images)
  unfolding kernel_mount_do
  Framed-kernel_mount images = record { at = λ s h. ground arith }

  Framed-initrd_mount :
      (images : ImageService W) → Keeps (Framed {W = W} vm) (initrd_mount_do images)
  unfolding initrd_mount_do
  Framed-initrd_mount images = record { at = λ s h. ground arith }

  Framed-virtiofs_mount :
      (virtiofs : VirtioFsService W) (volume : Volume)
      → Keeps (Framed {W = W} vm) (virtiofs_mount_do virtiofs volume)
  unfolding virtiofs_mount_do put_volume_status
  Framed-virtiofs_mount virtiofs volume = record { at = λ s h. ground arith }

  Framed-virtiofs_delete :
      (virtiofs : VirtioFsService W) (volume : Volume)
      → Keeps (Framed {W = W} vm) (virtiofs_delete_do virtiofs volume)
  unfolding virtiofs_delete_do
  Framed-virtiofs_delete virtiofs volume = record { at = λ s h. ground arith }

  Framed-create_directory :
      (fs : FileSystem W) (dir : String) (mode : ℕ)
      → Keeps (Framed {W = W} vm) (create_directory_do fs dir mode)
  unfolding create_directory_do
  Framed-create_directory fs dir mode = record { at = λ s h. ground arith }

  Framed-delete_directory :
      (fs : FileSystem W) (dir : String) → Keeps (Framed {W = W} vm) (delete_directory_do fs dir)
  unfolding delete_directory_do
  Framed-delete_directory fs dir = record { at = λ s h. ground arith }

  Framed-create_interface :
      (ports : Collection W) (iface : NetworkInterface)
      → Keeps (Framed {W = W} vm) (create_interface_do ports iface)
  unfolding create_interface_do record_details ensure_host_name put_interface_status
  Framed-create_interface ports iface = record { at = λ s h. ground arith }

  Framed-delete_interface :
      (ports : Collection W) (guest : String)
      → Keeps (Framed {W = W} vm) (delete_interface_do ports guest)
  unfolding delete_interface_do
  Framed-delete_interface ports guest = record { at = λ s h. ground arith }

  Framed-add_mounts :
      (enc : Encoding) (i : ℕ) (volumes : List Volume) (data_now : UserData)
      → Keeps (Framed {W = W} vm) (add_mounts enc i volumes data_now)
  unfolding add_mounts
  Framed-add_mounts enc i [] data_now = Keeps-pure data_now
  Framed-add_mounts enc i (vol ∷ rest) data_now =
      Keeps-if (is_empty vol.mount_point) _ _ (Framed-add_mounts enc (suc i) rest data_now)
        (Keeps-bind (lift _) _ (Keeps-lift _) λ found. Framed-add_mounts enc (suc i) rest _)

  Framed-disk_mount : (enc : Encoding) → Keeps (Framed {W = W} vm) (disk_mount_do enc)
  unfolding disk_mount_do
  Framed-disk_mount enc = Keeps-bind (gets λ s. s.vm) _ (Keeps-gets λ s. s.vm) λ now.
      Keeps-bind (lift _) _ (Keeps-lift _) λ vendor_data.
        Keeps-bind (add_mounts enc 0 now.spec.additional_volumes (user_data_or_empty vendor_data)) _
          (Framed-add_mounts enc 0 now.spec.additional_volumes _)
          λ filled.
            Keeps-bind (lift _) _ (Keeps-lift _) λ text. Keeps-modify _ (λ s h. ground arith)

-- What a provider may write to the microvm when it creates or starts it.
pub record KeepsFrame {W : Type 0} (svc : MicrovmService W) : Type 0 where
  pub create_keeps : (vm : Microvm) → Keeps (Framed vm) svc.create
  pub start_keeps : (vm : Microvm) → Keeps (Framed vm) svc.start

-- Only the steps that start the hypervisor's process leave the microvm to a provider.
abbrev pub HasTameProvider : {W : Type 0} → Step W → Type 0
HasTameProvider (create_microvm provider) = KeepsFrame provider
HasTameProvider (start_microvm provider) = KeepsFrame provider
HasTameProvider _ = Unit

module _ {W : Type 0} (enc : Encoding) (ports : Collection W) (vm : Microvm) where
  -- No step changes the identity of a microvm, its version, its specification (but for the
  -- cloud-init metadata), its count of retries, or the time before which it is left alone, whether
  -- the step succeeds or not; where a step calls the provider to create or start the process, this
  -- is so if the provider does not change them.
  pub do_step-Framed :
      (p : Step W) (s : Session W)
      → HasTameProvider p
      → SameFrame vm s.vm
      → SameFrame vm (do_step enc ports p s).1.vm
  unfolding do_step create_do start_do delete_do publish_do repo_release_do
  do_step-Framed (create_directory dir mode) s c h =
      (Framed-create_directory vm ports.file_system dir mode).at s h
  do_step-Framed (virtiofs_mount volume) s c h =
      (Framed-virtiofs_mount vm ports.virtiofs_service volume).at s h
  do_step-Framed (volume_mount volume) s c h =
      (Framed-volume_mount vm ports.image_service volume).at s h
  do_step-Framed kernel_mount s c h = (Framed-kernel_mount vm ports.image_service).at s h
  do_step-Framed initrd_mount s c h = (Framed-initrd_mount vm ports.image_service).at s h
  do_step-Framed disk_mount s c h = (Framed-disk_mount vm enc).at s h
  do_step-Framed (create_interface iface) s c h = (Framed-create_interface vm ports iface).at s h
  do_step-Framed (create_microvm provider) s c h = (c.create_keeps vm).at s h
  do_step-Framed (start_microvm provider) s c h = (c.start_keeps vm).at s h
  do_step-Framed (delete_microvm provider) s c h = h
  do_step-Framed (virtiofs_delete volume) s c h =
      (Framed-virtiofs_delete vm ports.virtiofs_service volume).at s h
  do_step-Framed repo_release s c h = h
  do_step-Framed (delete_interface guest) s c h = (Framed-delete_interface vm ports guest).at s h
  do_step-Framed (delete_directory dir) s c h =
      (Framed-delete_directory vm ports.file_system dir).at s h
  do_step-Framed (publish_event topic event) s c h = h

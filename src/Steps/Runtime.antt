-- ===== src/Steps/Runtime.antt =====
-- core/steps/runtime: mounts of volumes, kernel and initrd, virtiofs shares, directories, leases.
-- `Do` returns no child steps in any of them, so that it is modelled as returning nothing.
use flintlock.Prelude.{
  ℕ, String, Bool, true, false, not, List, [], ◌∷◌, Option, none, some, is_empty, str_eq,
  if◌then◌else◌,
}
use flintlock.Outcome.{
  Outcome, ok, fail, panic, nil_dereference, missing_status_info, no_mount, no_volume_mount,
  kernel_image_required,
}
use flintlock.Io.{Io, ◌>>=◌, ◌>>◌, pure, throw, gets, lift}
use flintlock.Ports.{
  Session, on_world, ImageService, ImageMountSpec, VirtioFsService, FileSystem, MicrovmRepository,
}
use flintlock.Models.Vmid.{Vmid, to_string}
use flintlock.Models.Volumes.{
  Volume, VolumeStatus, Mount, is_some, volume_use, kernel_use, initrd_use,
}
use flintlock.Models.Microvm.{Microvm}
use flintlock.Steps.Status.{volume_status, put_volume_status, update_vm, with_status, is_unmounted}

-- x.f through a pointer that may be nil
abbrev pub deref : {A : Type 0} → Option A → Outcome A
deref none = panic nil_dereference
deref (some a) = ok a

-- mounts[0], after the test of its length
abbrev pub first_mount : {A : Type 0} → Outcome A → List A → Outcome A
first_mount missing [] = missing
first_mount missing (m ∷ rest) = ok m

-- volumeMount.getMountSpec
unfoldable pub volume_mount_spec : Vmid → Volume → Outcome ImageMountSpec
volume_mount_spec vmid volume = elim volume.source.container [
  | none ↦ panic nil_dereference
  | some container ↦ ok (record {
    image_name = container.image;
    owner = to_string vmid;
    use_for = volume_use;
    owner_usage_id = volume.id;
  })
]

-- kernelMount.getMountSpec
unfoldable pub kernel_mount_spec : Microvm → ImageMountSpec
kernel_mount_spec vm = record {
  image_name = vm.spec.kernel.image;
  owner = to_string vm.id;
  use_for = kernel_use;
  owner_usage_id = "kernel";
}

-- initrdMount.getMountSpec
unfoldable pub initrd_mount_spec : Microvm → Outcome ImageMountSpec
initrd_mount_spec vm = elim vm.spec.initrd [
  | none ↦ panic nil_dereference
  | some initrd ↦ ok (record {
    image_name = initrd.image;
    owner = to_string vm.id;
    use_for = initrd_use;
    owner_usage_id = "initrd";
  })
]

abbrev pub status_mount : Option VolumeStatus → Option Mount
status_mount none = none
status_mount (some status) = some status.mount

module _ {W : Type 0} (images : ImageService W) where
  -- Is the image of this description not mounted?
  abbrev not_mounted : ImageMountSpec → Io (Session W) Bool
  not_mounted input = do mounted ← on_world (images.is_mounted input); pure (not mounted)

  -- volumeMount.ShouldDo
  unfoldable pub volume_mount_should_do : Volume → Io (Session W) Bool
  unfolding volume_mount_spec
  volume_mount_should_do volume = do
    status ← volume_status volume.id
    if is_unmounted (status_mount status) then pure true else do
      vm ← gets (λ s. s.vm)
      input ← lift (volume_mount_spec vm.id volume)
      not_mounted input

  -- volumeMount.Do, once the status is known
  volume_mount_with : Volume → Option VolumeStatus → Io (Session W) (Unit {0})
  unfolding volume_mount_spec put_volume_status
  volume_mount_with volume none = throw missing_status_info
  volume_mount_with volume (some status) = do
    vm ← gets (λ s. s.vm)
    input ← lift (volume_mount_spec vm.id volume)
    mounts ← on_world (images.pull_and_mount input)
    mount ← lift (first_mount (fail no_volume_mount) mounts)
    put_volume_status volume.id (record status { mount = mount })

  unfoldable pub volume_mount_do : Volume → Io (Session W) (Unit {0})
  unfolding volume_mount_with
  volume_mount_do volume = do status ← volume_status volume.id; volume_mount_with volume status

  -- kernelMount.ShouldDo; the microvm is not a nil pointer in a plan
  unfoldable pub kernel_mount_should_do : Io (Session W) Bool
  unfolding kernel_mount_spec
  kernel_mount_should_do = do
    vm ← gets (λ s. s.vm)
    if is_unmounted vm.status.kernel_mount then pure true else not_mounted (kernel_mount_spec vm)

  -- kernelMount.Do
  unfoldable pub kernel_mount_do : Io (Session W) (Unit {0})
  unfolding kernel_mount_spec
  kernel_mount_do = do
    vm ← gets (λ s. s.vm)
    if is_empty vm.spec.kernel.image then throw kernel_image_required else do
      mounts ← on_world (images.pull_and_mount (kernel_mount_spec vm))
      mount ← lift (first_mount (fail no_mount) mounts)
      update_vm (with_status λ t. record t { kernel_mount = some mount })

  -- initrdMount.ShouldDo
  unfoldable pub initrd_mount_should_do : Io (Session W) Bool
  unfolding initrd_mount_spec
  initrd_mount_should_do = do
    vm ← gets (λ s. s.vm)
    if not (is_some vm.spec.initrd) then pure false else do
      if is_unmounted vm.status.initrd_mount
          then pure true
          else do input ← lift (initrd_mount_spec vm); not_mounted input

  -- initrdMount.Do
  unfoldable pub initrd_mount_do : Io (Session W) (Unit {0})
  unfolding initrd_mount_spec
  initrd_mount_do = do
    vm ← gets (λ s. s.vm)
    input ← lift (initrd_mount_spec vm)
    mounts ← on_world (images.pull_and_mount input)
    mount ← lift (first_mount (fail no_mount) mounts)
    update_vm (with_status λ t. record t { initrd_mount = some mount })

module _ {W : Type 0} (virtiofs : VirtioFsService W) where
  -- volumeVirtioFSMount.ShouldDo
  unfoldable pub virtiofs_mount_should_do : Volume → Io (Session W) Bool
  virtiofs_mount_should_do volume = do
    status ← volume_status volume.id
    pure (is_unmounted (status_mount status))

  -- `if mount != nil { s.status.Mount = *mount }`
  store_mount : String → VolumeStatus → Option Mount → Io (Session W) (Unit {0})
  unfolding put_volume_status
  store_mount id status none = pure tt
  store_mount id status (some mount) = put_volume_status id (record status { mount = mount })

  -- volumeVirtioFSMount.Do, once the status is known
  virtiofs_mount_with : Volume → Option VolumeStatus → Io (Session W) (Unit {0})
  unfolding store_mount
  virtiofs_mount_with volume none = throw missing_status_info
  virtiofs_mount_with volume (some status) = do
    source ← lift (deref volume.source.virtiofs)
    vm ← gets (λ s. s.vm)
    mount ← on_world (virtiofs.create vm.id source.path)
    store_mount volume.id status mount

  unfoldable pub virtiofs_mount_do : Volume → Io (Session W) (Unit {0})
  unfolding virtiofs_mount_with
  virtiofs_mount_do volume = do status ← volume_status volume.id; virtiofs_mount_with volume status

  -- deleteVolumeVirtioFSMount.ShouldDo
  unfoldable pub virtiofs_delete_should_do : Io (Session W) Bool
  virtiofs_delete_should_do = do
    vm ← gets (λ s. s.vm)
    on_world (virtiofs.has_virtiofsd_process vm.id)

  -- deleteVolumeVirtioFSMount.Do
  unfoldable pub virtiofs_delete_do : Volume → Io (Session W) (Unit {0})
  virtiofs_delete_do volume = do
    status ← volume_status volume.id
    if not (is_some status)
        then throw missing_status_info
        else do vm ← gets (λ s. s.vm); on_world (virtiofs.delete vm.id)

module _ {W : Type 0} (fs : FileSystem W) where
  -- createDirectory.ShouldDo
  unfoldable pub create_directory_should_do : String → ℕ → Io (Session W) Bool
  create_directory_should_do dir mode = do
    exists ← on_world (fs.dir_exists dir)
    if not exists then pure true else do
      found ← on_world (fs.stat_mode dir)
      pure (not (str_eq (fs.dir_mode_string mode) found))

  -- `if !exists { Mkdir }`
  make_if_missing : String → ℕ → Bool → Io (Session W) (Unit {0})
  make_if_missing dir mode exists = if exists then pure tt else on_world (fs.mkdir dir mode)

  -- createDirectory.Do
  unfoldable pub create_directory_do : String → ℕ → Io (Session W) (Unit {0})
  unfolding make_if_missing
  create_directory_do dir mode = do
    exists ← on_world (fs.dir_exists dir)
    make_if_missing dir mode exists
    on_world (fs.chmod dir mode)

  -- deleteDirectory.ShouldDo
  unfoldable pub delete_directory_should_do : String → Io (Session W) Bool
  delete_directory_should_do dir = on_world (fs.exists dir)

  -- deleteDirectory.Do
  unfoldable pub delete_directory_do : String → Io (Session W) (Unit {0})
  delete_directory_do dir = do
    exists ← on_world (fs.exists dir)
    if exists then on_world (fs.remove_all dir) else pure tt

module _ {W : Type 0} (repo : MicrovmRepository W) where
  -- repoRelease.ShouldDo
  unfoldable pub repo_release_should_do : Io (Session W) Bool
  repo_release_should_do = do vm ← gets (λ s. s.vm); on_world (repo.exists vm.id)

  -- repoRelease.Do
  unfoldable pub repo_release_do : Io (Session W) (Unit {0})
  repo_release_do = do vm ← gets (λ s. s.vm); on_world (repo.release_lease vm)

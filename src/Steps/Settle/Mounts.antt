-- ===== src/Steps/Settle/Mounts.antt =====
-- The mounts of volumes, kernel and initrd, and the virtiofs shares, are done once.
use flintlock.Prelude.{◌≡◌, refl, false, Option, none, some, arith}
use flintlock.Prelude.Dict.{Dict, lookup-insert_self}
use flintlock.Outcome.{ok}
use flintlock.Ports.{Session, ImageService, VirtioFsService}
use flintlock.Models.Volumes.{Volume, VolumeStatus, ContainerVolumeSource}
use flintlock.Models.Microvm.{Initrd}
use flintlock.Steps.Status.{put_volume_status}
use flintlock.Steps.Runtime.{
  kernel_mount_spec, kernel_mount_should_do, kernel_mount_do, initrd_mount_spec,
  initrd_mount_should_do, initrd_mount_do, volume_mount_spec, volume_mount_should_do,
  volume_mount_do, virtiofs_mount_should_do, virtiofs_mount_do,
}
use flintlock.Steps.Settle.{MountsImages, SharesDirectories}

module _ {W : Type 0} (images : ImageService W) (law : MountsImages images) where
  pub kernel_mount_settles :
      (s t : Session W)
      → kernel_mount_do images s ≡ (ok tt, t)
      → (kernel_mount_should_do images t).0 ≡ ok false
  unfolding kernel_mount_do kernel_mount_should_do kernel_mount_spec
  kernel_mount_settles s t h = grind (
    arith,
    law.mounted (kernel_mount_spec s.vm) s.world,
    law.has_source (kernel_mount_spec s.vm) s.world,
  )

  initrd_settles :
      (initrd : Option Initrd) (s t : Session W)
      → s.vm.spec.initrd ≡ initrd
      → initrd_mount_do images s ≡ (ok tt, t)
      → (initrd_mount_should_do images t).0 ≡ ok false
  unfolding initrd_mount_do initrd_mount_should_do initrd_mount_spec
  initrd_settles none s t e h = grind arith
  initrd_settles (some initrd) s t e h = grind (arith, law.mounted, law.has_source)

  volume_settles :
      (volume : Volume) (container : Option ContainerVolumeSource)
      (volumes : Option (Dict VolumeStatus)) (s t : Session W)
      → volume.source.container ≡ container
      → s.vm.status.volumes ≡ volumes
      → volume_mount_do images volume s ≡ (ok tt, t)
      → (volume_mount_should_do images volume t).0 ≡ ok false
  unfolding volume_mount_do volume_mount_should_do volume_mount_spec put_volume_status
  volume_settles volume container none s t e d h = grind arith
  volume_settles volume none (some m) s t e d h = grind arith
  volume_settles volume (some container) (some m) s t e d h =
      grind (arith, law.mounted, law.has_source, lookup-insert_self)

  pub volume_mount_settles :
      (volume : Volume) (s t : Session W)
      → volume_mount_do images volume s ≡ (ok tt, t)
      → (volume_mount_should_do images volume t).0 ≡ ok false
  volume_mount_settles volume s t h =
      volume_settles volume volume.source.container s.vm.status.volumes s t refl refl h

  pub initrd_mount_settles :
      (s t : Session W)
      → initrd_mount_do images s ≡ (ok tt, t)
      → (initrd_mount_should_do images t).0 ≡ ok false
  initrd_mount_settles s t h = initrd_settles s.vm.spec.initrd s t refl h

module _ {W : Type 0} (virtiofs : VirtioFsService W) (law : SharesDirectories virtiofs) where
  virtiofs_settles :
      (volume : Volume) (volumes : Option (Dict VolumeStatus)) (s t : Session W)
      → s.vm.status.volumes ≡ volumes
      → virtiofs_mount_do virtiofs volume s ≡ (ok tt, t)
      → (virtiofs_mount_should_do virtiofs volume t).0 ≡ ok false
  unfolding virtiofs_mount_do virtiofs_mount_should_do put_volume_status
  virtiofs_settles volume none s t d h = grind arith
  virtiofs_settles volume (some m) s t d h =
      grind (arith, law.shared, law.has_source, lookup-insert_self)

  pub virtiofs_mount_settles :
      (volume : Volume) (s t : Session W)
      → virtiofs_mount_do virtiofs volume s ≡ (ok tt, t)
      → (virtiofs_mount_should_do virtiofs volume t).0 ≡ ok false
  virtiofs_mount_settles volume s t h = virtiofs_settles volume s.vm.status.volumes s t refl h

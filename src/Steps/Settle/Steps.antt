-- ===== src/Steps/Settle/Steps.antt =====
-- The statement for the procedures of core/steps on directories, mounts, shares and interfaces.
use flintlock.Prelude.{◌<◌, ◌≡◌, ap, subst, false}
use flintlock.Outcome.{Outcome, ok}
use flintlock.Ports.{Session, Collection}
use flintlock.Steps.CloudInit.{Encoding}
use flintlock.Steps.Step.{
  Step, create_directory, virtiofs_mount, volume_mount, kernel_mount, initrd_mount, disk_mount,
  create_interface, create_microvm, start_microvm, delete_microvm, virtiofs_delete, repo_release,
  delete_interface, delete_directory, publish_event, should_do, do_step, verify,
}
use flintlock.Steps.Settle.{MountsImages, SharesDirectories, KeepsDirectories, HasInterfaces}
use flintlock.Steps.Settle.Mounts.{
  kernel_mount_settles, initrd_mount_settles, volume_mount_settles, virtiofs_mount_settles,
}
use flintlock.Steps.Settle.Host.{
  create_directory_settles, delete_directory_settles, create_interface_settles,
  delete_interface_settles,
}

-- What the services of the collection promise.
pub record KeepsPromises {W : Type 0} (ports : Collection W) : Type 0 where
  pub images : MountsImages ports.image_service
  pub shares : SharesDirectories ports.virtiofs_service
  pub directories : KeepsDirectories ports.file_system
  pub interfaces : HasInterfaces ports

-- The steps on directories, mounts, shares and interfaces. A mode consists of permission bits only.
abbrev pub CanSettle : {W : Type 0} → Step W → Type 0
CanSettle (create_directory dir mode) = mode < 0o1000
CanSettle (delete_directory dir) = Unit
CanSettle (virtiofs_mount volume) = Unit
CanSettle (volume_mount volume) = Unit
CanSettle kernel_mount = Unit
CanSettle initrd_mount = Unit
CanSettle (create_interface iface) = Unit
CanSettle (delete_interface guest) = Unit
CanSettle _ = ⊥

module _ {W : Type 0} (enc : Encoding) (ports : Collection W) (law : KeepsPromises ports) where
  -- A verification that does nothing leaves the session as it was.
  unchanged :
      (p : Step W) (t u : Session W)
      → ◌≡◌ {A = Outcome (Unit {0}) × Session W} (ok tt, t) (ok tt, u)
      → (should_do enc ports p t).0 ≡ ok false
      → (should_do enc ports p u).0 ≡ ok false
  unchanged p t u v h =
      subst (λ (x : Session W). (should_do enc ports p x).0 ≡ ok false)
        (ap (λ (r : Outcome (Unit {0}) × Session W). r.1) v) h

  -- The steps on directories (with a mode of permission bits), mounts, shares and interfaces are
  -- idempotent: once such a step was done and verified without error, it says that it need not be
  -- done again. The provisos are the promises of the image service, the virtiofs service and the
  -- network service, and that a directory that was made and whose mode was set is found so, and one
  -- that was removed is not found.
  pub step_settles :
      (p : Step W) (s t u : Session W)
      → CanSettle p
      → do_step enc ports p s ≡ (ok tt, t)
      → verify enc ports p t ≡ (ok tt, u)
      → (should_do enc ports p u).0 ≡ ok false
  unfolding do_step should_do verify
  step_settles (create_directory dir mode) s t u c h v =
      unchanged (create_directory dir mode) t u v
        (create_directory_settles ports.file_system law.directories dir mode s t c h)
  step_settles (virtiofs_mount volume) s t u c h v =
      unchanged (virtiofs_mount volume) t u v
        (virtiofs_mount_settles ports.virtiofs_service law.shares volume s t h)
  step_settles (volume_mount volume) s t u c h v =
      unchanged (volume_mount volume) t u v
        (volume_mount_settles ports.image_service law.images volume s t h)
  step_settles kernel_mount s t u c h v =
      unchanged kernel_mount t u v (kernel_mount_settles ports.image_service law.images s t h)
  step_settles initrd_mount s t u c h v =
      unchanged initrd_mount t u v (initrd_mount_settles ports.image_service law.images s t h)
  step_settles disk_mount s t u c h v = absurd c
  step_settles (create_interface iface) s t u c h v =
      unchanged (create_interface iface) t u v
        (create_interface_settles ports law.interfaces iface s t h)
  step_settles (create_microvm provider) s t u c h v = absurd c
  step_settles (start_microvm provider) s t u c h v = absurd c
  step_settles (delete_microvm provider) s t u c h v = absurd c
  step_settles (virtiofs_delete volume) s t u c h v = absurd c
  step_settles repo_release s t u c h v = absurd c
  step_settles (delete_interface guest) s t u c h v =
      unchanged (delete_interface guest) t u v
        (delete_interface_settles ports law.interfaces guest s t h)
  step_settles (delete_directory dir) s t u c h v =
      unchanged (delete_directory dir) t u v
        (delete_directory_settles ports.file_system law.directories dir s t h)
  step_settles (publish_event topic event) s t u c h v = absurd c

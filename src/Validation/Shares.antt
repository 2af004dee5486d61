-- ===== src/Validation/Shares.antt =====
-- pkg/validation/validate.go: the rule on shares, and the disks of cloud-hypervisor.
use Prim.Native.String.{◌++◌ as ◌+++◌}
use flintlock.Prelude.{
  ◌≡◌, sym, ap, ◌∙◌, ◌+◌, String, Bool, true, false, List, [], ◌∷◌, ◌++◌, arith,
}
use flintlock.Outcome.{Outcome, ◌>>=◌, ok, >>=-eq-ok}
use flintlock.Models.Volumes.{Volume, VolumeStatus, is_some}
use flintlock.Models.Microvm.{Microvm}
use flintlock.Hypervisor.Firecracker.{volume_status_of}
use flintlock.Hypervisor.CloudHypervisor.{path_arg, cloud_init_image, disk_args}
use flintlock.Hypervisor.CloudHypervisor.Disks.{disk_values, disks_before_share, disk_args-values}
use flintlock.Validation.{virtiofs_count, custom_only_one_virtiofs_validator}

virtiofs_count-append :
    (xs ys : List Volume) → virtiofs_count (xs ++ ys) ≡ virtiofs_count xs + virtiofs_count ys
unfolding virtiofs_count
virtiofs_count-append [] ys = omega arith
virtiofs_count-append (v ∷ xs) ys = ground (arith, virtiofs_count-append xs ys)

-- The arguments with the paths of all these volumes, if every one has a status.
unfoldable pub paths : Microvm → List Volume → Outcome (List String)
paths vm [] = ok []
paths vm (v ∷ vs) =
    let more = paths vm vs in
    do status ← volume_status_of v vm; sources ← more; ok (path_arg status.mount.source ∷ sources)

-- Before the only share, every volume is a disk.
disks-paths :
    (vm : Microvm) (xs : List Volume) (share : Volume) (ys : List Volume) (d : List String)
    → virtiofs_count xs ≡ 0
    → is_some share.source.virtiofs ≡ true
    → disks_before_share vm (xs ++ share ∷ ys) ≡ ok d
    → paths vm xs ≡ ok d
unfolding disks_before_share virtiofs_count paths
disks-paths vm [] share ys d none_yet is_share h =
    let (status, here, h1) = >>=-eq-ok (volume_status_of share vm) _ d h in
    let (sources, more, h2) = >>=-eq-ok (disks_before_share vm ys) _ d h1 in rw is_share at h2
disks-paths vm (v ∷ xs) share ys d none_yet is_share h =
    let (status, here, h1) = >>=-eq-ok (volume_status_of v vm) _ d h in
    let (sources, more, h2) = >>=-eq-ok (disks_before_share vm (xs ++ share ∷ ys)) _ d h1 in
    let ih = disks-paths vm xs share ys sources (ground arith) is_share more in
    let plain : is_some v.source.virtiofs ≡ false = ground arith in rw (here, ih) (rw plain at h2)

-- When a microvm passes the rule on shares and the arguments for its disks can be made for
-- cloud-hypervisor, then of additional volumes with a share among them, the disks after the root
-- volume and the image of cloud-init are exactly the volumes before the share; neither before nor
-- after it is there another share, so that every volume after it is lost, although it is a disk.
pub validated-disks :
    (state_root : String) (vm : Microvm) (xs : List Volume) (share : Volume) (ys : List Volume)
    (args : List String × Bool)
    → custom_only_one_virtiofs_validator vm.spec.additional_volumes ≡ true
    → vm.spec.additional_volumes ≡ xs ++ share ∷ ys
    → is_some share.source.virtiofs ≡ true
    → disk_args state_root vm ≡ ok args
    → (root_status : VolumeStatus) × (sources : List String) × (volume_status_of vm.spec.root_volume
          vm
        ≡ ok root_status)
      × (paths vm xs ≡ ok sources)
      × (disk_values false args.0
          ≡ path_arg root_status.mount.source
            ∷ path_arg (cloud_init_image state_root +++ ",readonly=on")
            ∷ sources)
      × (virtiofs_count xs ≡ 0)
      × (virtiofs_count ys ≡ 0)
unfolding custom_only_one_virtiofs_validator virtiofs_count
validated-disks state_root vm xs share ys args valid volumes is_share made =
    let sum = virtiofs_count-append xs (share ∷ ys) in
    let few : custom_only_one_virtiofs_validator (xs ++ share ∷ ys) ≡ true = rw volumes at valid in
    let before : virtiofs_count xs ≡ 0 = ground (arith, sum, few) in
    let after : virtiofs_count ys ≡ 0 = ground (arith, sum, few) in
    let (root_status, sources, mounted, disks, values) = disk_args-values state_root vm args made in
    (
      root_status,
      sources,
      mounted,
      disks-paths vm xs share ys sources before is_share
          (sym (ap (disks_before_share vm) volumes) ∙ disks),
      values,
      before,
      after,
    )

-- ===== src/Hypervisor/CloudHypervisor/Disks.antt =====
-- infrastructure/microvm/cloudhypervisor/create.go: what cloud-hypervisor is given as disks.
use Prim.Native.String.{◌++◌ as ◌+++◌}
use text.Mathlib.TextLemmas.{cons-append}
use Prim.Native.Char.{Char, code}
use flintlock.Prelude.{
  ◌==◌, ◌&&◌, ◌≡◌, refl, sym, ap, subst, ◌∙◌, String, Bool, true, false, List, [], ◌∷◌, str_eq,
  if◌then◌else◌,
}
use flintlock.Outcome.{Outcome, ok, ◌>>=◌, >>=-eq-ok, ok-injective}
use flintlock.Models.Volumes.{Volume, VolumeStatus, is_some}
use flintlock.Models.Microvm.{Microvm}
use flintlock.Hypervisor.Firecracker.{volume_status_of}
use flintlock.Hypervisor.CloudHypervisor.{
  path_arg, fs_arg, volume_args, with_volume, disk_args, cloud_init_image,
}

-- An argument that starts with two dashes names an option; the arguments up to the next one are its
-- values.
abbrev is_dash : Char → Bool
is_dash c = code c == b'-'

abbrev pub is_option : String → Bool
is_option (String.◌∷◌ c (String.◌∷◌ d s)) = is_dash c && is_dash d
is_option _ = false

-- The values of `--disk` among the arguments; `on` says whether that option is the last one so far.
unfoldable pub disk_values : Bool → List String → List String
disk_values on [] = []
disk_values on (arg ∷ args) =
    let at_option = disk_values (str_eq arg "--disk") args in
    let at_value = disk_values on args in
    if is_option arg then at_option else if on then arg ∷ at_value else at_value

abbrev pub before_share : Bool → String → List String → List String
before_share true source sources = []
before_share false source sources = path_arg source ∷ sources

-- The paths of the volumes up to the first share, if every volume has a status.
unfoldable pub disks_before_share : Microvm → List Volume → Outcome (List String)
unfolding volume_status_of
disks_before_share vm [] = ok []
disks_before_share vm (vol ∷ rest) =
    let more = disks_before_share vm rest in
    do
      status ← volume_status_of vol vm
      sources ← more
      ok (before_share (is_some vol.source.virtiofs) status.mount.source sources)

path_arg-is_option : (source : String) → is_option (path_arg source) ≡ false
path_arg-is_option source = rw cons-append (rw cons-append refl)

fs_arg-is_option : (state_root : String) → is_option (fs_arg state_root) ≡ false
fs_arg-is_option state_root = rw cons-append (rw cons-append refl)

with_volume-values :
    (state_root : String) (share : Bool) (source : String) (others : List String × Bool)
    → disk_values false others.0 ≡ []
    → (disk_values false (with_volume state_root share source others).0 ≡ [])
      × (disk_values true (with_volume state_root share source others).0
          ≡ before_share share source (disk_values true others.0))
unfolding disk_values
with_volume-values state_root true source others h =
    (rw (fs_arg-is_option state_root) h, rw (fs_arg-is_option state_root) h)
with_volume-values state_root false source others h =
    (rw (path_arg-is_option source) h, rw (path_arg-is_option source) refl)

-- Behind `--fs` no volume is a disk; behind `--disk` those before the first share are.
volume_args-values :
    (state_root : String) (vm : Microvm) (vols : List Volume) (args : List String × Bool)
    → volume_args state_root vm vols ≡ ok args
    → (disk_values false args.0 ≡ []) × (disks_before_share vm vols ≡ ok (disk_values true args.0))
unfolding volume_args disks_before_share
volume_args-values state_root vm [] args h =
    let same : ([], false) ≡ args = ok-injective _ args h in
    rw (sym same) (unfold disk_values in (refl, refl))
volume_args-values state_root vm (vol ∷ rest) args h =
    let (status, here, h1) = >>=-eq-ok (volume_status_of vol vm) _ args h in
    let (others, more, h2) = >>=-eq-ok (volume_args state_root vm rest) _ args h1 in
    let (off, on) = volume_args-values state_root vm rest others more in
    let share = is_some vol.source.virtiofs in
    let same : with_volume state_root share status.mount.source others ≡ args =
      ok-injective _ args h2 in
    let (off', on') = with_volume-values state_root share status.mount.source others off in
    (
      subst (λ x. disk_values false x.0 ≡ []) same off',
      rw (here, on) (ap ok (sym on' ∙ ap (λ x. disk_values true x.0) same)),
    )

-- If the arguments for the volumes can be made, then the values that cloud-hypervisor reads for
-- --disk, those up to the next option, are the path of the root volume, the image of cloud-init,
-- and the paths of exactly the additional volumes that come before the first share: a volume that
-- comes after a share is not given as a disk.
pub disk_args-values :
    (state_root : String) (vm : Microvm) (args : List String × Bool)
    → disk_args state_root vm ≡ ok args
    → (root_status : VolumeStatus) × (sources : List String) × (volume_status_of vm.spec.root_volume
          vm
        ≡ ok root_status)
      × (disks_before_share vm vm.spec.additional_volumes ≡ ok sources)
      × (disk_values false args.0
          ≡ path_arg root_status.mount.source
            ∷ path_arg (cloud_init_image state_root +++ ",readonly=on")
            ∷ sources)
unfolding disk_args disk_values
disk_args-values state_root vm args h =
    let (status, here, h1) = >>=-eq-ok (volume_status_of vm.spec.root_volume vm) _ args h in
    let (others, more, h2) =
      >>=-eq-ok (volume_args state_root vm vm.spec.additional_volumes) _ args h1 in
    let (off, on) = volume_args-values state_root vm vm.spec.additional_volumes others more in
    (
      status,
      disk_values true others.0,
      here,
      on,
      subst
          (λ (x : List String × Bool).
            disk_values false x.0
            ≡ path_arg status.mount.source
              ∷ path_arg (cloud_init_image state_root +++ ",readonly=on")
              ∷ disk_values true others.0)
          (ok-injective _ args h2) (rw (path_arg-is_option, path_arg-is_option) refl),
    )

-- ===== src/Steps/CloudInit.antt =====
-- core/steps/cloudinit/disk_mount.go and the part of client/cloudinit/userdata that it uses. The
-- encodings (base64 and YAML) are third-party code and stand in `Encoding`.
use Prim.Native.String.{◌++◌ as ◌+++◌}
use flintlock.Prelude.{
  ℕ, suc, ◌+◌, String, Bool, true, false, not, List, [], ◌∷◌, ◌++◌, Option, none, some, is_empty,
  str_eq, if◌then◌else◌,
}
use flintlock.Prelude.Dict.{Dict, insert}
use flintlock.Outcome.{Outcome, ok, fail, panic, no_fuel, index_out_of_range, vendor_data_failed}
use flintlock.Io.{Io, ◌>>=◌, pure, gets, lift}
use flintlock.Ports.{Session}
use flintlock.Models.Volumes.{Volume, has_mountable_volumes}
use flintlock.Models.Microvm.{Microvm}
use flintlock.Steps.Status.{map_get, update_vm, is_unmounted}
use flintlock.Steps.Runtime.{status_mount}

-- userdata.UserData: the mounts, and the other fields as one value
pub record UserData : Type 0 where
  pub other_fields : String
  pub mounts : List (List String)
  pub mount_default_fields : List String

abbrev pub empty_user_data : UserData
empty_user_data = record { other_fields = ""; mounts = []; mount_default_fields = [] }

-- `sprint_rune` is the text of one rune, as `%c` prints it.
pub record Encoding : Type 0 where
  pub decode_base64 : String → Outcome String
  pub encode_base64 : String → String
  pub unmarshal : String → Outcome UserData
  pub marshal : UserData → Outcome String
  pub sprint_rune : ℕ → String

-- mount[0] and mount[1]
abbrev pub at_zero : List String → Outcome String
at_zero [] = panic index_out_of_range
at_zero (a ∷ rest) = ok a

abbrev pub at_one : List String → Outcome String
at_one [] = panic index_out_of_range
at_one (a ∷ []) = panic index_out_of_range
at_one (a ∷ b ∷ rest) = ok b

-- the loops of HasMountByName and HasMountByMountPoint, over the field that they read
has_mount : (List String → Outcome String) → String → List (List String) → Outcome Bool
has_mount field name [] = ok false
has_mount field name (mount ∷ rest) =
    let later = has_mount field name rest in
    elim (field mount) [
      | ok found ↦ if str_eq found name then ok true else later
      | fail e ↦ fail e
      | panic f ↦ panic f
      | no_fuel ↦ no_fuel
    ]

unfoldable pub has_mount_by_name : UserData → String → Outcome Bool
unfolding has_mount
has_mount_by_name u device_name = has_mount at_zero device_name u.mounts

unfoldable pub has_mount_by_mount_point : UserData → String → Outcome Bool
unfolding has_mount
has_mount_by_mount_point u mount_point = has_mount at_one mount_point u.mounts

abbrev pub vendor_data_key : String
vendor_data_key = "vendor-data"

module _ (enc : Encoding) where
  -- an error of the YAML library is replaced: the code wraps another, nil, error
  replace_error : Outcome UserData → Outcome (Option UserData)
  replace_error (ok u) = ok (some u)
  replace_error (fail e) = fail vendor_data_failed
  replace_error (panic f) = panic f
  replace_error no_fuel = no_fuel

  decode_vendor_data : Outcome String → Outcome (Option UserData)
  unfolding replace_error
  decode_vendor_data (ok text) = replace_error (enc.unmarshal text)
  decode_vendor_data (fail e) = fail e
  decode_vendor_data (panic f) = panic f
  decode_vendor_data no_fuel = no_fuel

  -- getVendorData
  unfoldable pub get_vendor_data : Microvm → Outcome (Option UserData)
  unfolding decode_vendor_data
  get_vendor_data vm = elim (map_get vendor_data_key vm.spec.metadata) [
    | none ↦ ok none
    | some raw ↦ decode_vendor_data (enc.decode_base64 raw)
  ]

-- the first loop of ShouldDo: is a volume with a mount point not mounted yet?
some_unmounted : List Volume → Microvm → Bool
some_unmounted [] vm = false
some_unmounted (vol ∷ rest) vm =
    let later = some_unmounted rest vm in
    if is_empty vol.mount_point
    then later
    else if is_unmounted (status_mount (map_get vol.id vm.status.volumes))
    then true
    else later

abbrev pub user_data_or_empty : Option UserData → UserData
user_data_or_empty none = empty_user_data
user_data_or_empty (some u) = u

abbrev map_or_empty : Option (Dict String) → Dict String
map_or_empty none = []
map_or_empty (some m) = m

default_fields : List String
default_fields = "None" ∷ "None" ∷ "auto" ∷ "defaults,nofail" ∷ "0" ∷ "2" ∷ []

module _ {W : Type 0} where
  -- the second loop: does a mount point lack its entry in the vendor data?
  some_missing : List Volume → UserData → Io (Session W) Bool
  unfolding has_mount_by_mount_point
  some_missing [] data_now = pure false
  some_missing (vol ∷ rest) data_now =
      let later = some_missing rest data_now in
      if is_empty vol.mount_point then later else (do
        found ← lift (has_mount_by_mount_point data_now vol.mount_point)
        if found then later else pure true)

  -- the loop of Do, from device number `i`
  unfoldable pub add_mounts : Encoding → ℕ → List Volume → UserData → Io (Session W) UserData
  unfolding has_mount_by_name
  add_mounts enc i [] data_now = pure data_now
  add_mounts enc i (vol ∷ rest) data_now =
      let next = add_mounts enc (suc i) rest in
      if is_empty vol.mount_point then next data_now else (do
        let device = "vd" +++ enc.sprint_rune (b'b' + i)
        found ← lift (has_mount_by_name data_now device)
        let entry = device ∷ vol.mount_point ∷ []
        next (
            if found then data_now else record data_now { mounts = data_now.mounts ++ entry ∷ [] }))

module _ {W : Type 0} (enc : Encoding) where
  check_vendor_data : List Volume → Option UserData → Io (Session W) Bool
  unfolding some_missing
  check_vendor_data volumes none = pure true
  check_vendor_data volumes (some data_now) = some_missing volumes data_now

  -- diskMountStep.ShouldDo
  unfoldable pub disk_mount_should_do : Io (Session W) Bool
  unfolding check_vendor_data some_unmounted get_vendor_data
  disk_mount_should_do = do
    vm ← gets (λ s. s.vm)
    let volumes = vm.spec.additional_volumes
    if not (has_mountable_volumes volumes) then pure false else do
      if some_unmounted volumes vm
          then pure true
          else do vendor_data ← lift (get_vendor_data enc vm); check_vendor_data volumes vendor_data

  -- diskMountStep.Do
  unfoldable pub disk_mount_do : Io (Session W) (Unit {0})
  unfolding add_mounts get_vendor_data default_fields
  disk_mount_do = do
    vm ← gets (λ s. s.vm)
    vendor_data ← lift (get_vendor_data enc vm)
    filled ← add_mounts enc 0 vm.spec.additional_volumes (user_data_or_empty vendor_data)
    text ← lift (enc.marshal (record filled { mount_default_fields = default_fields }))
    let value = enc.encode_base64 ("## template: jinja\n#cloud-config\n\n" +++ text)
    update_vm λ v. record v {
      spec = record v.spec {
        metadata = some (insert vendor_data_key value (map_or_empty v.spec.metadata));
      };
    }

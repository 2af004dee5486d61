-- ===== src/Steps/Status.antt =====
-- Reading and writing the status that the steps share through pointers.
use flintlock.Prelude.{String, Bool, Option, none, some, is_empty}
use flintlock.Prelude.Dict.{Dict, lookup, insert}
use flintlock.Outcome.{Outcome, ok, panic, nil_map_write}
use flintlock.Io.{Io, ◌>>=◌, gets, modify, lift}
use flintlock.Ports.{Session}
use flintlock.Models.Volumes.{VolumeStatus, Mount}
use flintlock.Models.Network.{NetworkInterfaceStatus}
use flintlock.Models.Microvm.{Microvm, MicrovmStatus}

-- m[k] of a map that may be nil
abbrev pub map_get : {V : Type 0} → String → Option (Dict V) → Option V
map_get k none = none
map_get k (some m) = lookup k m

-- m[k] = v, which panics on a nil map
abbrev pub map_put : {V : Type 0} → String → V → Option (Dict V) → Outcome (Option (Dict V))
map_put k v none = panic nil_map_write
map_put k v (some m) = ok (some (insert k v m))

abbrev pub with_status : (MicrovmStatus → MicrovmStatus) → Microvm → Microvm
with_status f vm = record vm { status = f vm.status }

module _ {W : Type 0} where
  abbrev pub update_vm : (Microvm → Microvm) → Io (Session W) (Unit {0})
  update_vm f = modify λ s. record s { vm = f s.vm }

  -- the pointer that `vm.Status.Volumes[id]` gives
  abbrev pub volume_status : String → Io (Session W) (Option VolumeStatus)
  volume_status id = gets λ s. map_get id s.vm.status.volumes

  abbrev pub interface_status : String → Io (Session W) (Option NetworkInterfaceStatus)
  interface_status name = gets λ s. map_get name s.vm.status.network_interfaces

  -- A write through that pointer, or a new entry of the map.
  unfoldable pub put_volume_status : String → VolumeStatus → Io (Session W) (Unit {0})
  put_volume_status id status = do
    vm ← gets λ s. s.vm
    volumes ← lift (map_put id status vm.status.volumes)
    update_vm (with_status λ t. record t { volumes = volumes })

  unfoldable pub put_interface_status : String → NetworkInterfaceStatus → Io (Session W) (Unit {0})
  put_interface_status name status = do
    vm ← gets λ s. s.vm
    interfaces ← lift (map_put name status vm.status.network_interfaces)
    update_vm (with_status λ t. record t { network_interfaces = interfaces })

-- `status == nil || status.Mount.Source == ""`
abbrev pub is_unmounted : Option Mount → Bool
is_unmounted none = Bool.true
is_unmounted (some mount) = is_empty mount.source

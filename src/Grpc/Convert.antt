-- ===== src/Grpc/Convert.antt =====
-- infrastructure/grpc/convert.go. A copy of a map is the same map here.
pub mod RoundTrip
use flintlock.Prelude.{
  ℕ, String, Bool, true, false, not, List, [], ◌∷◌, map, Option, none, some, if◌then◌else◌,
}
use flintlock.Prelude.Int.{ℤ, pos, is_zero, int32}
use flintlock.Prelude.Dict.{Dict}
use flintlock.Outcome.{Outcome, ok, fail, panic, no_fuel, ◌>>=◌}
use flintlock.Models.Vmid.{new_vmid}
use flintlock.Models.Volumes.{
  Volume, VolumeSource, ContainerVolumeSource, VirtioFsVolumeSource, Mount, MountType, VolumeStatus,
  zero_volume, is_zero_volume,
}
use flintlock.Models.Network.{NetworkInterface, StaticAddress, IfaceType, NetworkInterfaceStatus}
use flintlock.Models.Microvm.{Microvm, Kernel, Initrd, MicrovmSpec, MicrovmStatus, MicrovmState}
use flintlock.Steps.Runtime.{deref}
use flintlock.Grpc.Wire

-- `if p != nil { field = *p }`, of a field that is otherwise empty
abbrev pub or_empty : Option String → String
or_empty none = ""
or_empty (some s) = s

abbrev or_zero : Option ℤ → ℤ
or_zero none = pos 0
or_zero (some n) = n

abbrev pub map_option : {A B : Type 0} → (A → B) → Option A → Option B
map_option f none = none
map_option f (some a) = some (f a)

abbrev pub dict_or_empty : {A : Type 0} → Option (Dict A) → Dict A
dict_or_empty none = []
dict_or_empty (some m) = m

abbrev pub map_values : {A B : Type 0} → (A → B) → Dict A → Dict B
map_values f [] = []
map_values f ((key, a) ∷ rest) = (key, f a) ∷ map_values f rest

-- defaults.VCPU and defaults.MemoryInMb
abbrev pub default_vcpu : ℤ
default_vcpu = pos 2

abbrev pub default_memory_in_mb : ℤ
default_memory_in_mb = pos 1024

unfoldable pub convert_source : Option Wire.VolumeSource → VolumeSource
convert_source none = record { container = none; virtiofs = none }
convert_source (some source) = record {
  container = map_option (λ image. record { image = image }) source.container_source;
  virtiofs = map_option (λ path. record { path = path }) source.virtiofs_source;
}

-- convertVolumeToModel
unfoldable pub convert_volume_to_model : Wire.Volume → Volume
unfolding convert_source
convert_volume_to_model volume = record {
  id = volume.id;
  is_read_only = volume.is_read_only;
  source = convert_source volume.source;
  partition_id = or_empty volume.partition_id;
  size = or_zero volume.size_in_mb;
  mount_point = or_empty volume.mount_point;
}

-- the switch: another number leaves the type empty
abbrev type_to_model : Wire.IfaceType → IfaceType
type_to_model Wire.macvtap = IfaceType.macvtap
type_to_model Wire.tap = IfaceType.tap
type_to_model (Wire.other_number n) = IfaceType.other_iface_type ""

-- `*netInt.Overrides.BridgeName`, which panics when there are overrides without it
abbrev bridge_name_of : Option Wire.NetworkOverrides → Outcome String
bridge_name_of none = ok ""
bridge_name_of (some overrides) = deref overrides.bridge_name

abbrev address_to_model : Wire.StaticAddress → StaticAddress
address_to_model a = record {
  address = a.address;
  gateway = a.gateway;
  nameservers = a.nameservers;
}

-- convertNetworkInterfaceToModel
unfoldable pub convert_network_interface_to_model : Wire.NetworkInterface → Outcome NetworkInterface
convert_network_interface_to_model net_int = do
  bridge_name ← bridge_name_of net_int.overrides
  ok (record {
    guest_device_name = net_int.device_id;
    allow_metadata_requests = false;
    guest_mac = or_empty net_int.guest_mac;
    type = type_to_model net_int.type;
    static_address = map_option address_to_model net_int.address;
    bridge_name = bridge_name;
  })

-- the loop over the interfaces
unfoldable pub convert_interfaces : List Wire.NetworkInterface → Outcome (List NetworkInterface)
unfolding convert_network_interface_to_model
convert_interfaces [] = ok []
convert_interfaces (net_int ∷ rest) = do
  converted ← convert_network_interface_to_model net_int
  more ← convert_interfaces rest
  ok (converted ∷ more)

abbrev pub or_default : ℤ → ℤ → ℤ
or_default default n = if is_zero n then default else n

abbrev pub kernel_to_model : Option Wire.Kernel → Kernel
kernel_to_model none = record {
  image = "";
  filename = "";
  cmd_line = [];
  add_network_config = false;
}
kernel_to_model (some kernel) = record {
  image = kernel.image;
  filename = or_empty kernel.filename;
  cmd_line = kernel.cmdline;
  add_network_config = kernel.add_network_config;
}

abbrev pub initrd_to_model : Wire.Initrd → Initrd
initrd_to_model initrd = record { image = initrd.image; filename = or_empty initrd.filename }

abbrev pub root_volume_to_model : Option Wire.Volume → Volume
root_volume_to_model none = zero_volume
root_volume_to_model (some volume) = convert_volume_to_model volume

abbrev pub zero_status : MicrovmStatus
zero_status = record {
  state = MicrovmState.other_state "";
  volumes = none;
  kernel_mount = none;
  initrd_mount = none;
  network_interfaces = none;
  retry = 0;
  not_before = 0;
  vsock_path = "";
}

-- convertMicroVMToModel
unfoldable pub convert_microvm_to_model : Wire.MicrovmSpec → Outcome Microvm
unfolding convert_volume_to_model convert_interfaces
convert_microvm_to_model spec = do
  vmid ← new_vmid spec.id spec.namespace (or_empty spec.uid)
  interfaces ← convert_interfaces spec.interfaces
  ok (record {
    id = vmid;
    version = 0;
    spec = record {
      provider = or_empty spec.provider;
      kernel = kernel_to_model spec.kernel;
      initrd = map_option initrd_to_model spec.initrd;
      vcpu = or_default default_vcpu spec.vcpu;
      memory_in_mb = or_default default_memory_in_mb spec.memory_in_mb;
      network_interfaces = interfaces;
      root_volume = root_volume_to_model spec.root_volume;
      additional_volumes = map convert_volume_to_model spec.additional_volumes;
      metadata = some spec.metadata;
      allow_guest_agent = spec.allow_guest_agent;
      created_at = 0;
      updated_at = 0;
      deleted_at = 0;
    };
    status = zero_status;
  })

-- convertModelToVolumne: the mount point is left out
unfoldable pub convert_model_to_volume : Volume → Wire.Volume
convert_model_to_volume volume = record {
  id = volume.id;
  is_read_only = volume.is_read_only;
  mount_point = none;
  source = some (record {
    container_source = map_option (λ c. c.image) volume.source.container;
    virtiofs_source = map_option (λ v. v.path) volume.source.virtiofs;
  });
  partition_id = some volume.partition_id;
  size_in_mb = some volume.size;
}

-- the switch: a type without a case is the first of the enumeration
abbrev pub type_of_model : IfaceType → Wire.IfaceType
type_of_model IfaceType.macvtap = Wire.macvtap
type_of_model IfaceType.tap = Wire.tap
type_of_model IfaceType.unsupported = Wire.macvtap
type_of_model (IfaceType.other_iface_type name) = Wire.macvtap

abbrev address_of_model : StaticAddress → Wire.StaticAddress
address_of_model a = record {
  address = a.address;
  gateway = a.gateway;
  nameservers = a.nameservers;
}

-- convertModelToNetworkInterface: the overrides are left out
unfoldable pub convert_model_to_network_interface : NetworkInterface → Wire.NetworkInterface
convert_model_to_network_interface net_int = record {
  device_id = net_int.guest_device_name;
  type = type_of_model net_int.type;
  guest_mac = some net_int.guest_mac;
  address = map_option address_of_model net_int.static_address;
  overrides = none;
}

-- convertModelToMicroVMSpec: the provider is left out
unfoldable pub convert_model_to_microvm_spec : Microvm → Wire.MicrovmSpec
unfolding convert_model_to_volume convert_model_to_network_interface
convert_model_to_microvm_spec mvm = record {
  id = mvm.id.name;
  namespace = mvm.id.namespace;
  vcpu = int32 mvm.spec.vcpu;
  memory_in_mb = int32 mvm.spec.memory_in_mb;
  kernel = some (record {
    image = mvm.spec.kernel.image;
    cmdline = mvm.spec.kernel.cmd_line;
    filename = some mvm.spec.kernel.filename;
    add_network_config = mvm.spec.kernel.add_network_config;
  });
  initrd = map_option (λ i. record { image = i.image; filename = some i.filename }) mvm.spec.initrd;
  root_volume =
      if is_zero_volume mvm.spec.root_volume
      then none
      else some (convert_model_to_volume mvm.spec.root_volume);
  additional_volumes = map convert_model_to_volume mvm.spec.additional_volumes;
  interfaces = map convert_model_to_network_interface mvm.spec.network_interfaces;
  metadata = dict_or_empty mvm.spec.metadata;
  uid = some mvm.id.uid;
  provider = none;
  allow_guest_agent = mvm.spec.allow_guest_agent;
}

-- convertModelToVolumeMount
unfoldable pub convert_model_to_volume_mount : Mount → Wire.Mount
convert_model_to_volume_mount mount = record {
  type = elim mount.type [
    | MountType.dev ↦ Wire.dev
    | MountType.hostpath ↦ Wire.hostpath
    | MountType.other_mount_type name ↦ Wire.dev
  ];
  source = mount.source;
}

-- convertModelToVolumeStatus
unfoldable pub convert_model_to_volume_status : VolumeStatus → Wire.VolumeStatus
unfolding convert_model_to_volume_mount
convert_model_to_volume_status status = record {
  mount = convert_model_to_volume_mount status.mount;
}

-- convertModelToNetworkInterfaceStatus
unfoldable pub convert_model_to_network_interface_status :
    NetworkInterfaceStatus → Wire.NetworkInterfaceStatus
convert_model_to_network_interface_status status = record {
  host_device_name = status.host_device_name;
  index = int32 status.index;
  mac_address = status.mac_address;
}

-- the switch: a state without a case is the first of the enumeration
abbrev pub state_of_model : MicrovmState → Wire.MicrovmState
state_of_model MicrovmState.pending = Wire.pending
state_of_model MicrovmState.created = Wire.created
state_of_model MicrovmState.failed = Wire.failed
state_of_model MicrovmState.deleting = Wire.deleting
state_of_model (MicrovmState.other_state name) = Wire.pending

-- convertModelToMicroVMStatus
unfoldable pub convert_model_to_microvm_status : Microvm → Wire.MicrovmStatus
unfolding convert_model_to_volume_status convert_model_to_volume_mount
    convert_model_to_network_interface_status
convert_model_to_microvm_status mvm = record {
  state = state_of_model mvm.status.state;
  volumes = map_values convert_model_to_volume_status (dict_or_empty mvm.status.volumes);
  kernel_mount = map_option convert_model_to_volume_mount mvm.status.kernel_mount;
  initrd_mount = map_option convert_model_to_volume_mount mvm.status.initrd_mount;
  network_interfaces =
      map_values convert_model_to_network_interface_status
        (dict_or_empty mvm.status.network_interfaces);
  retry = int32 (pos mvm.status.retry);
  vsock_path = mvm.status.vsock_path;
}

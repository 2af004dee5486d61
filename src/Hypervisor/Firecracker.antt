-- ===== src/Hypervisor/Firecracker.antt =====
-- infrastructure/microvm/firecracker/config.go and types.go: the configuration of firecracker for a
-- microvm. Fields of types.go that the code never sets are left out.
pub mod EachDevice
pub mod Devices
pub mod Provider
pub mod Runs
use Prim.Native.String.{◌++◌ as ◌+++◌}
use flintlock.Prelude.{
  ℕ, suc, ◌+◌, String, Bool, true, false, List, [], ◌∷◌, Option, none, some, is_empty,
  if◌then◌else◌,
}
use flintlock.Prelude.Int.{ℤ, pos, negsuc}
use flintlock.Prelude.Dict.{Dict, lookup, insert}
use flintlock.Prelude.Decimal.{itoa}
use flintlock.Outcome.{
  Outcome, ok, fail, panic, nil_dereference, spec_required, volume_not_mounted, ◌>>=◌,
}
use flintlock.Models.Volumes.{Volume, Mount, VolumeStatus}
use flintlock.Models.Network.{NetworkInterface, NetworkInterfaceStatus, is_macvtap}
use flintlock.Models.Microvm.{Microvm, Initrd}
use flintlock.Hypervisor.CmdLine.{KernelCmdLine, cmd_line_text, set_all, default_kernel_cmd_line}
use flintlock.Hypervisor.CloudInitNetwork.{NetworkEncoding, status_of, generate_network_config}

pub record MachineConfig : Type 0 where
  pub vcpu_count : ℤ
  pub mem_size_mib : ℤ
  pub smt : Bool

-- The type of the cache is always "Unsafe".
pub record BlockDeviceConfig : Type 0 where
  pub id : String
  pub path_on_host : String
  pub is_root_device : Bool
  pub is_read_only : Bool
  pub cache_type : String

pub record BootSourceConfig : Type 0 where
  pub kernel_image_page : String
  pub initrd_path : Option String
  pub boot_args : Option String

pub record NetworkInterfaceConfig : Type 0 where
  pub iface_id : String
  pub host_dev_name : String
  pub guest_mac : String

pub record LoggerConfig : Type 0 where
  pub log_path : String
  pub level : String
  pub show_level : Bool
  pub show_log_origin : Bool

pub record MmdsConfig : Type 0 where
  pub version : String
  pub network_interfaces : List String

pub record VsockDeviceConfig : Type 0 where
  pub id : String
  pub guest_cid : ℕ
  pub uds_path : String

-- `metrics` is the path in MetricsConfig.
pub record VmmConfig : Type 0 where
  pub block_devices : List BlockDeviceConfig
  pub boot_source : BootSourceConfig
  pub logger : Option LoggerConfig
  pub machine_config : MachineConfig
  pub metrics : Option String
  pub mmds : Option MmdsConfig
  pub net_devices : List NetworkInterfaceConfig
  pub vsock_device : Option VsockDeviceConfig

abbrev pub ConfigOption : Type 0
ConfigOption = VmmConfig → Outcome VmmConfig

-- the paths of a State
pub record StatePaths : Type 0 where
  pub log_path : String
  pub metrics_path : String
  pub vsock_path : String

-- &VmmConfig{}
abbrev pub empty_config : VmmConfig
empty_config = record {
  block_devices = [];
  boot_source = record { kernel_image_page = ""; initrd_path = none; boot_args = none };
  logger = none;
  machine_config = record { vcpu_count = pos 0; mem_size_mib = pos 0; smt = false };
  metrics = none;
  mmds = none;
  net_devices = [];
  vsock_device = none;
}

unfoldable pub apply_options : List ConfigOption → VmmConfig → Outcome VmmConfig
apply_options [] cfg = ok cfg
apply_options (option ∷ rest) cfg = do next ← option cfg; apply_options rest next

-- CreateConfig
unfoldable pub create_config : List ConfigOption → Outcome VmmConfig
unfolding apply_options
create_config options = apply_options options empty_config

-- %d
abbrev pub int_text : ℤ → String
int_text (pos n) = itoa n
int_text (negsuc n) = "-" +++ itoa (suc n)

-- createNetworkIface
unfoldable pub create_network_iface :
    NetworkInterface → NetworkInterfaceStatus → NetworkInterfaceConfig
create_network_iface iface status = record {
  iface_id = iface.guest_device_name;
  host_dev_name =
      if is_macvtap iface.type
      then "/dev/tap" +++ int_text status.index
      else status.host_device_name;
  guest_mac =
      if is_macvtap iface.type
      then (if is_empty iface.guest_mac then status.mac_address else iface.guest_mac)
      else iface.guest_mac;
}

-- the loop over the interfaces: the devices
unfoldable pub net_devices_of :
    Microvm → List NetworkInterface → Outcome (List NetworkInterfaceConfig)
unfolding status_of create_network_iface
net_devices_of vm [] = ok []
net_devices_of vm (iface ∷ rest) =
    let more = net_devices_of vm rest in
    do status ← status_of iface vm; devices ← more; ok (create_network_iface iface status ∷ devices)

-- and the names of those for the metadata service
unfoldable pub mmds_devices_of : List NetworkInterface → List String
mmds_devices_of [] = []
mmds_devices_of (iface ∷ rest) =
    let more = mmds_devices_of rest in
    if iface.allow_metadata_requests then iface.guest_device_name ∷ more else more

-- the look-up of a volume's status, in a map that may be nil
unfoldable pub volume_status_of : Volume → Microvm → Outcome VolumeStatus
unfolding lookup
volume_status_of vol vm = elim vm.status.volumes [
  | none ↦ fail (volume_not_mounted vol.id)
  | some statuses ↦ elim (lookup vol.id statuses) [
    | none ↦ fail (volume_not_mounted vol.id)
    | some status ↦ ok status
  ]
]

unfoldable pub block_device : Bool → Volume → VolumeStatus → BlockDeviceConfig
block_device is_root vol status = record {
  id = vol.id;
  path_on_host = status.mount.source;
  is_root_device = is_root;
  is_read_only = vol.is_read_only;
  cache_type = "Unsafe";
}

-- the loop over the additional volumes
unfoldable pub block_devices_of : Microvm → List Volume → Outcome (List BlockDeviceConfig)
unfolding volume_status_of block_device
block_devices_of vm [] = ok []
block_devices_of vm (vol ∷ rest) =
    let more = block_devices_of vm rest in
    do
      status ← volume_status_of vol vm
      devices ← more
      ok (block_device false vol status ∷ devices)

-- a mount's source; the pointer may be nil
abbrev pub source_of : Option Mount → Outcome String
source_of none = panic nil_dereference
source_of (some mount) = ok mount.source

abbrev initrd_path_of : Microvm → Option Initrd → Outcome (Option String)
initrd_path_of vm none = ok none
initrd_path_of vm (some initrd) = do
  source ← source_of vm.status.initrd_mount
  ok (some (source +++ ("/" +++ initrd.filename)))

module _ (parse_cidr : String → Outcome Bool) (enc : NetworkEncoding) where
  -- the kernel's parameters
  unfoldable pub kernel_args : Microvm → Outcome KernelCmdLine
  unfolding generate_network_config set_all insert
  kernel_args vm =
      let own = set_all vm.spec.kernel.cmd_line default_kernel_cmd_line in
      if vm.spec.kernel.add_network_config
      then (do
        network_config ← generate_network_config parse_cidr enc vm
        ok (insert "network-config" network_config own))
      else ok own

  unfoldable pub boot_source_of : Microvm → Outcome BootSourceConfig
  unfolding kernel_args cmd_line_text
  boot_source_of vm = do
    args ← kernel_args vm
    source ← source_of vm.status.kernel_mount
    initrd ← initrd_path_of vm vm.spec.initrd
    ok (record {
      kernel_image_page = source +++ ("/" +++ vm.spec.kernel.filename);
      initrd_path = initrd;
      boot_args = some (cmd_line_text args);
    })

  -- WithMicroVM, on a machine where `smt` says whether the architecture is amd64
  unfoldable pub with_microvm : Bool → Option Microvm → ConfigOption
  unfolding net_devices_of mmds_devices_of volume_status_of block_device block_devices_of
      boot_source_of
  with_microvm smt none cfg = fail spec_required
  with_microvm smt (some vm) cfg = do
    net_devices ← net_devices_of vm vm.spec.network_interfaces
    root_status ← volume_status_of vm.spec.root_volume vm
    additional ← block_devices_of vm vm.spec.additional_volumes
    boot_source ← boot_source_of vm
    ok (record cfg {
      machine_config = record {
        vcpu_count = vm.spec.vcpu;
        mem_size_mib = vm.spec.memory_in_mb;
        smt = smt;
      };
      net_devices = net_devices;
      mmds = some (record {
        version = "V1";
        network_interfaces = mmds_devices_of vm.spec.network_interfaces;
      });
      block_devices = block_device true vm.spec.root_volume root_status ∷ additional;
      boot_source = boot_source;
    })

-- WithVsock
unfoldable pub with_vsock : Option Microvm → StatePaths → ConfigOption
with_vsock none state cfg = fail spec_required
with_vsock (some vm) state cfg = ok (
    if vm.spec.allow_guest_agent
    then record cfg {
      vsock_device =
          some (record { id = "guest-agent"; guest_cid = 3; uds_path = state.vsock_path });
    }
    else cfg)

-- WithState
unfoldable pub with_state : StatePaths → ConfigOption
with_state state cfg = ok (record cfg {
  logger = some (record {
    log_path = state.log_path;
    level = "Debug";
    show_level = true;
    show_log_origin = true;
  });
  metrics = some state.metrics_path;
})

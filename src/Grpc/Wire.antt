-- ===== src/Grpc/Wire.antt =====
-- api/types/microvm.pb.go: the messages. A pointer to a message or to an optional field is an
-- `Option`; an enumeration is open, so that a number may have no name; a list holds no nil pointer,
-- as the decoder makes none. The fields that the conversions neither read nor write (labels and
-- times) are left out.
use flintlock.Prelude.{String, Bool, List, Option}
use flintlock.Prelude.Int.{ℤ}
use flintlock.Prelude.Dict.{Dict}

pub record Kernel : Type 0 where
  pub image : String
  pub cmdline : Dict String
  pub filename : Option String
  pub add_network_config : Bool

pub record Initrd : Type 0 where
  pub image : String
  pub filename : Option String

pub data IfaceType : Type 0 where
  macvtap tap : IfaceType
  other_number : ℤ → IfaceType

pub record StaticAddress : Type 0 where
  pub address : String
  pub gateway : Option String
  pub nameservers : List String

pub record NetworkOverrides : Type 0 where
  pub bridge_name : Option String

pub record NetworkInterface : Type 0 where
  pub device_id : String
  pub type : IfaceType
  pub guest_mac : Option String
  pub address : Option StaticAddress
  pub overrides : Option NetworkOverrides

pub record VolumeSource : Type 0 where
  pub container_source : Option String
  pub virtiofs_source : Option String

pub record Volume : Type 0 where
  pub id : String
  pub is_read_only : Bool
  pub mount_point : Option String
  pub source : Option VolumeSource
  pub partition_id : Option String
  pub size_in_mb : Option ℤ  -- int32

pub record MicrovmSpec : Type 0 where
  pub id : String
  pub namespace : String
  pub vcpu : ℤ  -- int32
  pub memory_in_mb : ℤ  -- int32
  pub kernel : Option Kernel
  pub initrd : Option Initrd
  pub root_volume : Option Volume
  pub additional_volumes : List Volume
  pub interfaces : List NetworkInterface
  pub metadata : Dict String
  pub uid : Option String
  pub provider : Option String
  pub allow_guest_agent : Bool

pub data MicrovmState : Type 0 where
  pending created failed deleting : MicrovmState

pub data MountType : Type 0 where
  dev hostpath : MountType

pub record Mount : Type 0 where
  pub type : MountType
  pub source : String

pub record VolumeStatus : Type 0 where
  pub mount : Mount

pub record NetworkInterfaceStatus : Type 0 where
  pub host_device_name : String
  pub index : ℤ  -- int32
  pub mac_address : String

pub record MicrovmStatus : Type 0 where
  pub state : MicrovmState
  pub volumes : Dict VolumeStatus
  pub kernel_mount : Option Mount
  pub initrd_mount : Option Mount
  pub network_interfaces : Dict NetworkInterfaceStatus
  pub retry : ℤ  -- int32
  pub vsock_path : String

pub record Microvm : Type 0 where
  pub version : ℤ  -- int32
  pub spec : MicrovmSpec
  pub status : MicrovmStatus

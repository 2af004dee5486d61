-- ===== src/Models/Microvm.antt =====
-- core/models/microvm.go and core/models/kernel.go. Times are Unix seconds, counters are not
-- negative; a Go map that may be nil is an `Option` of a dictionary.
use flintlock.Prelude.{ℕ, String, Bool, List, Option}
use flintlock.Prelude.Int.{ℤ}
use flintlock.Prelude.Dict.{Dict}
use flintlock.Models.Vmid.{Vmid}
use flintlock.Models.Volumes.{ContainerImage, Volume, Mount, VolumeStatuses}
use flintlock.Models.Network.{NetworkInterface, NetworkInterfaceStatuses}

pub record Kernel : Type 0 where
  pub image : ContainerImage
  pub filename : String
  pub cmd_line : Dict String
  pub add_network_config : Bool

pub record Initrd : Type 0 where
  pub image : ContainerImage
  pub filename : String

pub record MicrovmSpec : Type 0 where
  pub provider : String
  pub kernel : Kernel
  pub initrd : Option Initrd
  pub vcpu : ℤ  -- int64
  pub memory_in_mb : ℤ  -- int64
  pub network_interfaces : List NetworkInterface
  pub root_volume : Volume
  pub additional_volumes : List Volume
  pub metadata : Option (Dict String)
  pub allow_guest_agent : Bool
  pub created_at : ℕ
  pub updated_at : ℕ
  pub deleted_at : ℕ

-- MicroVMState is a string: the four constants, or any other text (such as the zero value).
pub data MicrovmState : Type 0 where
  pending created failed deleting : MicrovmState
  other_state : String → MicrovmState

pub record MicrovmStatus : Type 0 where
  pub state : MicrovmState
  pub volumes : Option VolumeStatuses
  pub kernel_mount : Option Mount
  pub initrd_mount : Option Mount
  pub network_interfaces : Option NetworkInterfaceStatuses
  pub retry : ℕ
  pub not_before : ℕ
  pub vsock_path : String

pub record Microvm : Type 0 where
  pub id : Vmid
  pub version : ℕ
  pub spec : MicrovmSpec
  pub status : MicrovmStatus

-- ListMicroVMQuery
abbrev pub ListMicrovmQuery : Type 0
ListMicrovmQuery = Dict String

-- ===== src/Ports.antt =====
-- core/ports: the interfaces of the services that the core calls, as records of operations on a
-- world `W`. `Session` is what a plan works on: the microvm behind the shared pointer, and the world.
use flintlock.Prelude.{ℕ, String, Bool, List, Option}
use flintlock.Prelude.Int.{ℤ}
use flintlock.Outcome.{Error}
use flintlock.Io.{Io}
use flintlock.Models.Vmid.{Vmid}
use flintlock.Models.Capability.{Capability}
use flintlock.Models.Volumes.{Mount, ImageUse}
use flintlock.Models.Network.{IfaceType}
use flintlock.Models.Microvm.{Microvm, ListMicrovmQuery}

pub record Session (W : Type 0) : Type 0 where
  pub vm : Microvm
  pub world : W

-- Run a service's operation from a session.
abbrev pub on_world : {W A : Type 0} → Io W A → Io (Session W) A
on_world m s = let (r, w) = m s.world in (r, record s { world = w })

-- ports.MicroVMState: the state of the hypervisor's process
pub data ProcessState : Type 0 where
  unknown pending configured running : ProcessState

-- ports.MicroVMService. `create` and `start` are given the pointer to the microvm.
pub record MicrovmService (W : Type 0) : Type 0 where
  pub capabilities : List Capability
  pub create : Io (Session W) (Unit {0})
  pub delete : String → Io W (Unit {0})
  pub start : Io (Session W) (Unit {0})
  pub state : String → Io W ProcessState

pub record ImageMountSpec : Type 0 where
  pub image_name : String
  pub owner : String
  pub use_for : ImageUse
  pub owner_usage_id : String

pub record ImageService (W : Type 0) : Type 0 where
  pub pull_and_mount : ImageMountSpec → Io W (List Mount)
  pub is_mounted : ImageMountSpec → Io W Bool

pub record IfaceCreateInput : Type 0 where
  pub device_name : String
  pub type : IfaceType
  pub mac : String
  pub attach : Bool
  pub bridge_name : String

pub record IfaceDetails : Type 0 where
  pub device_name : String
  pub type : IfaceType
  pub mac : String
  pub index : ℤ

pub record NetworkService (W : Type 0) : Type 0 where
  pub iface_create : IfaceCreateInput → Io W IfaceDetails
  pub iface_delete : String → Io W (Unit {0})
  pub iface_exists : String → Io W Bool
  pub iface_details : String → Io W IfaceDetails

-- ports.VirtioFSService. The mount can be absent, where Go returns a nil pointer.
pub record VirtioFsService (W : Type 0) : Type 0 where
  pub create : Vmid → String → Io W (Option Mount)
  pub delete : Vmid → Io W (Unit {0})
  pub has_virtiofsd_process : Vmid → Io W Bool

-- The part of `afero.Fs` that the steps use. `stat_mode` is the text of the mode that `Stat` finds, and
-- `dir_mode_string` the text of `mode | os.ModeDir`.
pub record FileSystem (W : Type 0) : Type 0 where
  pub dir_exists : String → Io W Bool
  pub exists : String → Io W Bool
  pub stat_mode : String → Io W String
  pub dir_mode_string : ℕ → String
  pub mkdir : String → ℕ → Io W (Unit {0})
  pub chmod : String → ℕ → Io W (Unit {0})
  pub remove_all : String → Io W (Unit {0})

pub record RepositoryGetOptions : Type 0 where
  pub name : String
  pub namespace : String
  pub version : String
  pub uid : String

-- ports.MicroVMRepository. `get` can give a nil pointer; `save` gives the stored microvm.
pub record MicrovmRepository (W : Type 0) : Type 0 where
  pub save : Microvm → Io W Microvm
  pub get : RepositoryGetOptions → Io W (Option Microvm)
  pub get_all : ListMicrovmQuery → Io W (List Microvm)
  pub exists : Vmid → Io W Bool
  pub release_lease : Microvm → Io W (Unit {0})

-- api/events/spec.go
pub record SpecEvent : Type 0 where
  pub id : String
  pub namespace : String
  pub uid : String

pub data Event : Type 0 where
  spec_created spec_updated spec_deleted : SpecEvent → Event
  other_event : Event

-- ports.EventEnvelope
pub record EventEnvelope : Type 0 where
  pub timestamp : ℕ
  pub namespace : String
  pub topic : String
  pub event : Event

-- ports.Collection, and what the core takes from the Go runtime: the context's cancellation, the
-- clock that `time.Now` reads, and a goroutine that publishes an event after a number of seconds.
pub record Collection (W : Type 0) : Type 0 where
  pub repo : MicrovmRepository W
  pub microvm_providers : String → Option (MicrovmService W)
  pub publish : String → Event → Io W (Unit {0})
  pub generate_random : Io W String
  pub network_service : NetworkService W
  pub new_iface_name : IfaceType → Io W String
  pub image_service : ImageService W
  pub file_system : FileSystem W
  pub clock : Io W ℕ
  pub time_now : Io W ℕ
  pub publish_later : ℕ → String → Event → Io W (Unit {0})
  pub context_error : W → Option Error
  pub virtiofs_service : VirtioFsService W

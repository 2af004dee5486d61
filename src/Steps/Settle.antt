-- ===== src/Steps/Settle.antt =====
-- "All procedures must be idempotent, so they need to measure and then act" (pkg/planner): after a
-- step has done its work, it asks for no more. What the services promise for this is stated here.
pub mod Mounts
pub mod Host
pub mod Steps
pub mod Services
use flintlock.Prelude.{
  ◌<◌, ℕ, String, ◌≡◌, ◌≢◌, Bool, true, false, List, Option, ◌∷◌, none, some, ◌⊎◌, is_empty,
}
use flintlock.Outcome.{ok}
use flintlock.Models.Volumes.{Mount}
use flintlock.Models.Vmid.{Vmid, to_string}
use flintlock.Models.Network.{IfaceType}
use flintlock.Models.Microvm.{Microvm}
use flintlock.Ports.{
  Session, ImageService, ImageMountSpec, VirtioFsService, FileSystem, NetworkService,
  MicrovmService, MicrovmRepository, Collection, ProcessState, unknown, pending, configured,
  running, IfaceDetails, IfaceCreateInput,
}

-- A mounted image is mounted at a place with a name, and is known as mounted then.
pub record MountsImages {W : Type 0} (images : ImageService W) : Type 0 where
  pub mounted :
      (input : ImageMountSpec) (w : W) (mounts : List Mount)
      → (images.pull_and_mount input w).0 ≡ ok mounts
      → (images.is_mounted input (images.pull_and_mount input w).1).0 ≡ ok true
  pub has_source :
      (input : ImageMountSpec) (w : W) (mount : Mount) (rest : List Mount)
      → (images.pull_and_mount input w).0 ≡ ok (mount ∷ rest)
      → is_empty mount.source ≡ false

-- A share that was created has a place with a name.
pub record SharesDirectories {W : Type 0} (virtiofs : VirtioFsService W) : Type 0 where
  pub shared : (id : Vmid) (path : String) (w : W) → (virtiofs.create id path w).0 ≢ ok none
  pub has_source :
      (id : Vmid) (path : String) (w : W) (mount : Mount)
      → (virtiofs.create id path w).0 ≡ ok (some mount)
      → is_empty mount.source ≡ false

-- A directory that was made is there, and is still there after it was looked for; setting its
-- permission bits leaves it there with that mode; what is removed is gone, and to look for a path does not make it.
pub record KeepsDirectories {W : Type 0} (fs : FileSystem W) : Type 0 where
  pub made :
      (dir : String) (mode : ℕ) (w : W)
      → (fs.mkdir dir mode w).0 ≡ ok tt
      → (fs.dir_exists dir (fs.mkdir dir mode w).1).0 ≡ ok true
  pub still_there :
      (dir : String) (w : W)
      → (fs.dir_exists dir w).0 ≡ ok true
      → (fs.dir_exists dir (fs.dir_exists dir w).1).0 ≡ ok true
  pub changed :
      (dir : String) (mode : ℕ) (w : W)
      → mode < 0o1000
      → (fs.dir_exists dir w).0 ≡ ok true
      → (fs.chmod dir mode w).0 ≡ ok tt
      → ((fs.dir_exists dir (fs.chmod dir mode w).1).0 ≡ ok true)
        × ((fs.stat_mode dir (fs.dir_exists dir (fs.chmod dir mode w).1).1).0
            ≡ ok (fs.dir_mode_string mode))
  pub removed :
      (dir : String) (w : W)
      → (fs.remove_all dir w).0 ≡ ok tt
      → (fs.exists dir (fs.remove_all dir w).1).0 ≡ ok false
  pub still_gone :
      (dir : String) (w : W)
      → (fs.exists dir w).0 ≡ ok false
      → (fs.exists dir (fs.exists dir w).1).0 ≡ ok false

-- An interface that was created is there, a deleted one is not, and looking does not change that.
pub record HasInterfaces {W : Type 0} (ports : Collection W) : Type 0 where
  pub named :
      (type : IfaceType) (w : W) (name : String)
      → (ports.new_iface_name type w).0 ≡ ok name
      → is_empty name ≡ false
  pub created :
      (input : IfaceCreateInput) (w : W) (details : IfaceDetails)
      → (ports.network_service.iface_create input w).0 ≡ ok details
      → (ports.network_service.iface_exists input.device_name
          (ports.network_service.iface_create input w).1).0
        ≡ ok true
  pub still_there :
      (name : String) (w : W)
      → (ports.network_service.iface_exists name w).0 ≡ ok true
      → let u = (ports.network_service.iface_exists name w).1 in
        (ports.network_service.iface_exists name (ports.network_service.iface_details name u).1).0
        ≡ ok true
  pub deleted :
      (name : String) (w : W)
      → (ports.network_service.iface_delete name w).0 ≡ ok tt
      → (ports.network_service.iface_exists name (ports.network_service.iface_delete name w).1).0
        ≡ ok false
  pub still_gone :
      (name : String) (w : W)
      → (ports.network_service.iface_exists name w).0 ≡ ok false
      → (ports.network_service.iface_exists name (ports.network_service.iface_exists name w).1).0
        ≡ ok false

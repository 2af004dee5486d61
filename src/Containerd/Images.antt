-- ===== src/Containerd/Images.antt =====
-- infrastructure/containerd/image_service.go and snapshot.go: pulling images and mounting snapshots.
pub mod Mounted
use Prim.Native.String.{◌++◌ as ◌+++◌}
use flintlock.Prelude.{String, Bool, true, false, ◌||◌, List, [], ◌∷◌, any, str_eq, if◌then◌else◌}
use flintlock.Prelude.Dict.{Dict}
use flintlock.Outcome.{Error}
use flintlock.Io.{Io, ◌>>=◌, ◌>>◌, pure, throw, lift, branch}
use flintlock.Models.Volumes.{Mount, ImageUse, volume_use, kernel_use, initrd_use}
use flintlock.Ports.{ImageMountSpec, ImageService}
use flintlock.Containerd.Client.{LeaseManager}
use flintlock.Containerd.Lease.{with_owner_lease}
use flintlock.Containerd.Mounts.{SnapshotMount, convert_mounts_to_model}

-- What the image service uses of the client. An image is pulled and looked up under a lease;
-- `root_fs` gives the identifier of the chain of the image's layers.
pub record ImageClient (W Image : Type 0) : Type 0 where
  pub pull : String → String → Io W Image
  pub get_image : String → String → Io W Image
  pub is_not_found : Error → Bool
  pub is_unpacked : Image → String → Io W Bool
  pub unpack : Image → String → Io W (Unit {0})
  pub root_fs : Image → Io W String
  pub walk_snapshots : String → Io W (List String)
  pub prepare : String → String → String → Dict String → Io W (List SnapshotMount)
  pub mounts : String → String → Io W (List SnapshotMount)

-- the part of Config that is read
pub record ImageConfig : Type 0 where
  pub snapshotter_kernel : String
  pub snapshotter_volume : String

-- ports.ImageSpec
pub record ImageSpec : Type 0 where
  pub image_name : String
  pub owner : String

-- snapshotKey
unfoldable pub snapshot_key : String → String → String
snapshot_key owner owner_usage_id = "flintlock/" +++ (owner +++ ("/" +++ owner_usage_id))

-- getSnapshotter
unfoldable pub get_snapshotter : ImageConfig → ImageUse → String
get_snapshotter config volume_use = config.snapshotter_volume
get_snapshotter config kernel_use = config.snapshotter_kernel
get_snapshotter config initrd_use = config.snapshotter_kernel

module _ {W Image : Type 0} (client : ImageClient W Image) (leases : LeaseManager W)
    (config : ImageConfig) where
  -- snapshotExists
  unfoldable pub snapshot_exists : String → String → Io W Bool
  snapshot_exists snapshotter key = do
    names ← client.walk_snapshots snapshotter
    pure (any (λ name. str_eq name key) names)

  -- imageExists
  unfoldable pub image_exists : String → String → Io W Bool
  unfolding with_owner_lease
  image_exists image_name owner = do
    lease ← with_owner_lease leases owner
    branch (client.get_image lease image_name)
        (λ e. if client.is_not_found e then pure false else throw e) (λ image. pure true)

  -- pullImage
  unfoldable pub pull_image : String → String → Io W Image
  unfolding with_owner_lease
  pull_image image_name owner = do
    lease ← with_owner_lease leases owner
    client.pull lease image_name

  -- the mounts of a snapshot, which is made if there is none
  unfoldable pub mounts_of_snapshot :
      Bool → String → String → String → String → String → Io W (List SnapshotMount)
  mounts_of_snapshot true snapshotter key parent owner owner_usage_id =
      client.mounts snapshotter key
  mounts_of_snapshot false snapshotter key parent owner owner_usage_id =
      client.prepare snapshotter key parent
        (("flintlock/owner", owner) ∷ ("flintlock/owner-usage", owner_usage_id) ∷ [])

  -- snapshotAndMount
  unfoldable pub snapshot_and_mount : Image → String → String → String → Io W (List Mount)
  unfolding snapshot_exists mounts_of_snapshot convert_mounts_to_model snapshot_key
  snapshot_and_mount image owner owner_usage_id snapshotter = do
    unpacked ← client.is_unpacked image snapshotter
    if unpacked then pure tt else client.unpack image snapshotter
    parent ← client.root_fs image
    exists ← snapshot_exists snapshotter (snapshot_key owner owner_usage_id)
    mounts ←
        mounts_of_snapshot exists snapshotter (snapshot_key owner owner_usage_id) parent owner
          owner_usage_id
    lift (convert_mounts_to_model snapshotter mounts)

  -- Pull
  unfoldable pub pull : ImageSpec → Io W (Unit {0})
  unfolding pull_image
  pull input = do image ← pull_image input.image_name input.owner; pure tt

  -- PullAndMount, which takes the owner's lease twice
  unfoldable pub pull_and_mount : ImageMountSpec → Io W (List Mount)
  unfolding with_owner_lease pull_image snapshot_and_mount get_snapshotter
  pull_and_mount input = do
    lease ← with_owner_lease leases input.owner
    image ← pull_image input.image_name input.owner
    snapshot_and_mount image input.owner input.owner_usage_id (get_snapshotter config input.use_for)

  -- Exists
  unfoldable pub image_is_there : ImageSpec → Io W Bool
  unfolding image_exists
  image_is_there input = image_exists input.image_name input.owner

  -- IsMounted
  unfoldable pub is_mounted : ImageMountSpec → Io W Bool
  unfolding image_exists snapshot_exists get_snapshotter snapshot_key
  is_mounted input = do
    exists ← image_exists input.image_name input.owner
    if exists
        then snapshot_exists (get_snapshotter config input.use_for)
            (snapshot_key input.owner input.owner_usage_id)
        else pure false

  -- the service that the core calls
  abbrev pub image_service : ImageService W
  image_service = record { pull_and_mount = pull_and_mount; is_mounted = is_mounted }

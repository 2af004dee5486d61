-- ===== src/Containerd/Mounts.antt =====
-- infrastructure/containerd/convert.go: containerd's mounts as the core's.
use flintlock.Prelude.{String, List, [], ◌∷◌, str_eq, if◌then◌else◌}
use flintlock.Outcome.{Outcome, ok, fail, unsupported_snapshotter, ◌>>=◌}
use flintlock.Models.Volumes.{Mount, dev, hostpath}

-- the part of mount.Mount that is read
pub record SnapshotMount : Type 0 where
  pub source : String

-- getOverlayMountPath
unfoldable pub get_overlay_mount_path : SnapshotMount → String
get_overlay_mount_path m = ""

-- convertMountToModel
unfoldable pub convert_mount_to_model : String → SnapshotMount → Outcome Mount
unfolding get_overlay_mount_path
convert_mount_to_model snapshotter m =
    if str_eq snapshotter "overlayfs"
    then ok (record { type = hostpath; source = get_overlay_mount_path m })
    else if str_eq snapshotter "native"
    then ok (record { type = hostpath; source = m.source })
    else if str_eq snapshotter "devmapper"
    then ok (record { type = dev; source = m.source })
    else fail (unsupported_snapshotter snapshotter)

-- convertMountsToModel
unfoldable pub convert_mounts_to_model : String → List SnapshotMount → Outcome (List Mount)
unfolding convert_mount_to_model
convert_mounts_to_model snapshotter [] = ok []
convert_mounts_to_model snapshotter (m ∷ rest) =
    let more = convert_mounts_to_model snapshotter rest in
    do converted ← convert_mount_to_model snapshotter m; others ← more; ok (converted ∷ others)

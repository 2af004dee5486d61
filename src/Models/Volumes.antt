-- ===== src/Models/Volumes.antt =====
-- core/models/volumes.go. A pointer to an optional part is an `Option`.
use flintlock.Prelude.{
  String, Bool, true, false, not, ◌&&◌, List, [], ◌∷◌, Option, none, some, any, str_eq, is_empty,
  if◌then◌else◌,
}
use flintlock.Prelude.Int.{ℤ, is_zero}
use flintlock.Prelude.Dict.{Dict}

abbrev pub ContainerImage : Type 0
ContainerImage = String

pub record ContainerVolumeSource : Type 0 where
  pub image : ContainerImage

pub record VirtioFsVolumeSource : Type 0 where
  pub path : String

pub record VolumeSource : Type 0 where
  pub container : Option ContainerVolumeSource
  pub virtiofs : Option VirtioFsVolumeSource

pub record Volume : Type 0 where
  pub id : String
  pub is_read_only : Bool
  pub source : VolumeSource
  pub partition_id : String
  pub size : ℤ  -- int32
  pub mount_point : String

-- MountType is a string: the two constants, or any other text.
pub data MountType : Type 0 where
  dev hostpath : MountType
  other_mount_type : String → MountType

pub record Mount : Type 0 where
  pub type : MountType
  pub source : String

pub data ImageUse : Type 0 where
  volume_use kernel_use initrd_use : ImageUse

pub record VolumeStatus : Type 0 where
  pub mount : Mount

abbrev pub VolumeStatuses : Type 0
VolumeStatuses = Dict VolumeStatus

abbrev pub zero_mount : Mount
zero_mount = record { type = other_mount_type ""; source = "" }

-- models.VolumeStatus{}
abbrev pub zero_volume_status : VolumeStatus
zero_volume_status = record { mount = zero_mount }

-- models.Volume{}
abbrev pub zero_volume : Volume
zero_volume = record {
  id = "";
  is_read_only = false;
  source = record { container = none; virtiofs = none };
  partition_id = "";
  size = ℤ.pos 0;
  mount_point = "";
}

abbrev pub is_some {ℓ} : {A : Type ℓ} → Option A → Bool
is_some none = false
is_some (some a) = true

-- volume == models.Volume{}
unfoldable pub is_zero_volume : Volume → Bool
is_zero_volume v =
    is_empty v.id
    && (not v.is_read_only
        && (not (is_some v.source.container)
            && (not (is_some v.source.virtiofs)
                && (is_empty v.partition_id && (is_zero v.size && is_empty v.mount_point)))))

-- Volumes.GetByID: the first volume with the identifier
unfoldable pub get_by_id : List Volume → String → Option Volume
get_by_id [] id = none
get_by_id (vol ∷ v) id = if str_eq vol.id id then some vol else get_by_id v id

-- Volumes.HasMountableVolumes
unfoldable pub has_mountable_volumes : List Volume → Bool
has_mountable_volumes v = any (λ vol. not (is_empty vol.mount_point)) v

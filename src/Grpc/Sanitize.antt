-- ===== src/Grpc/Sanitize.antt =====
-- infrastructure/grpc/sanitize.go. Logging is left out; `changed` only guards a write of the same
-- text. strings.TrimSpace and unicode.IsControl are written out for all code points.
pub mod Clean
use Prim.Native.Char.{Char, code}
use flintlock.Prelude.{
  ℕ, String, Bool, true, false, not, ◌&&◌, ◌||◌, ◌==◌, leb, ltb, List, [], ◌∷◌, map, Option, none,
  some, is_empty, str_eq, if◌then◌else◌,
}
use flintlock.Grpc.Wire

-- unicode.IsSpace
unfoldable pub is_space : ℕ → Bool
is_space r =
    (leb 9 r && leb r 13)
    || (r == 32)
    || (r == 0x85)
    || (r == 0xa0)
    || (r == 0x1680)
    || (leb 0x2000 r && leb r 0x200a)
    || (r == 0x2028)
    || (r == 0x2029)
    || (r == 0x202f)
    || (r == 0x205f)
    || (r == 0x3000)

-- unicode.IsControl: the category Cc
unfoldable pub is_control : ℕ → Bool
is_control r = ltb r 0x20 || (leb 0x7f r && ltb r 0xa0)

-- strings.TrimLeftFunc(s, unicode.IsSpace)
unfoldable pub trim_left : String → String
unfolding is_space
trim_left String.[] = ""
trim_left (String.◌∷◌ c s) =
    let rest = trim_left s in if is_space (code c) then rest else String.◌∷◌ c s

-- strings.TrimRightFunc(s, unicode.IsSpace)
unfoldable pub trim_right : String → String
unfolding is_space
trim_right String.[] = ""
trim_right (String.◌∷◌ c s) =
    let rest = trim_right s in if is_empty rest && is_space (code c) then "" else String.◌∷◌ c rest

-- strings.TrimSpace
unfoldable pub trim_space : String → String
unfolding trim_left trim_right
trim_space s = trim_right (trim_left s)

-- the function given to strings.Map: does it drop the rune?
unfoldable pub is_dropped : ℕ → Bool
unfolding is_control
is_dropped r = if ltb r 0x20 || (r == 0x7f) then true else is_control r

-- strings.Map with that function
unfoldable pub drop_controls : String → String
unfolding is_dropped
drop_controls String.[] = ""
drop_controls (String.◌∷◌ c s) =
    let rest = drop_controls s in if is_dropped (code c) then rest else String.◌∷◌ c rest

-- cleanContainerImageReference
unfoldable pub clean_container_image_reference : String → String × Bool
unfolding trim_space drop_controls
clean_container_image_reference raw =
    if is_empty raw
    then (raw, false)
    else let cleaned = drop_controls (trim_space raw) in
      if str_eq cleaned raw then (cleaned, false) else (cleaned, true)

-- `if changed { field = sanitizedValue }`
abbrev pub sanitized : String → String
sanitized raw =
    let (value, changed) = clean_container_image_reference raw in if changed then value else raw

abbrev pub map_some : {A : Type 0} → (A → A) → Option A → Option A
map_some f none = none
map_some f (some a) = some (f a)

unfoldable pub sanitize_source : Wire.VolumeSource → Wire.VolumeSource
sanitize_source source = record source {
  container_source = map_some sanitized source.container_source;
}

-- sanitizeVolumeImage, of a volume that is not nil
unfoldable pub sanitize_volume_image : Wire.Volume → Wire.Volume
unfolding sanitize_source
sanitize_volume_image volume = record volume { source = map_some sanitize_source volume.source }

abbrev pub sanitize_kernel : Wire.Kernel → Wire.Kernel
sanitize_kernel kernel = record kernel { image = sanitized kernel.image }

abbrev pub sanitize_initrd : Wire.Initrd → Wire.Initrd
sanitize_initrd initrd = record initrd { image = sanitized initrd.image }

-- sanitizeMicroVMImageReferences
unfoldable pub sanitize_microvm_image_references : Wire.MicrovmSpec → Wire.MicrovmSpec
unfolding sanitize_volume_image
sanitize_microvm_image_references spec = record spec {
  kernel = map_some sanitize_kernel spec.kernel;
  initrd = map_some sanitize_initrd spec.initrd;
  root_volume = map_some sanitize_volume_image spec.root_volume;
  additional_volumes = map sanitize_volume_image spec.additional_volumes;
}

-- ===== src/Grpc/Sanitize/Clean.antt =====
-- Image references that reach the models hold no control characters.
use Prim.Native.Char.{code}
use flintlock.Prelude.{
  ℕ, subst, ◌≡◌, String, false, List, [], ◌∷◌, map, Option, none, some, All, arith, Bool-cases, inl,
  inr, is_empty, str_eq, eq_of-str_eq,
}
use flintlock.Outcome.{Outcome, ok, >>=-eq-ok}
use flintlock.Models.Volumes.{Volume, ContainerVolumeSource}
use flintlock.Models.Vmid.{new_vmid}
use flintlock.Models.Microvm.{Microvm, Initrd}
use flintlock.Grpc.Convert.{
  convert_volume_to_model, convert_source, convert_microvm_to_model, convert_interfaces,
  root_volume_to_model, kernel_to_model, initrd_to_model, map_option, or_empty,
}
use flintlock.Grpc.Wire
use flintlock.Grpc.Sanitize.{
  is_control, is_dropped, drop_controls, trim_space, clean_container_image_reference, sanitized,
  sanitize_volume_image, sanitize_microvm_image_references, sanitize_source, sanitize_kernel,
  sanitize_initrd, map_some,
}

-- No character of the text is a control character.
abbrev pub NoControl : String → Type 0
NoControl String.[] = Unit
NoControl (String.◌∷◌ c s) = (is_control (code c) ≡ false) × NoControl s

is_control-of_kept : (r : ℕ) → is_dropped r ≡ false → is_control r ≡ false
unfolding is_dropped
is_control-of_kept r h = ground arith

drop_controls-NoControl : (s : String) → NoControl (drop_controls s)
unfolding drop_controls
drop_controls-NoControl String.[] = tt
drop_controls-NoControl (String.◌∷◌ c s) = elim (Bool-cases (is_dropped (code c))) [
  | inl e ↦ rw e (drop_controls-NoControl s)
  | inr e ↦ rw e (is_control-of_kept (code c) e, drop_controls-NoControl s)
]

-- Also a text that is not changed has none: it equals the cleaned one.
sanitized-NoControl : (raw : String) → NoControl (sanitized raw)
unfolding clean_container_image_reference
sanitized-NoControl raw = elim (Bool-cases (is_empty raw)) [
  | inl e ↦ rw (e, clean_container_image_reference) (rw (eq_of-str_eq raw "" e) tt)
  | inr e ↦ elim (Bool-cases (str_eq (drop_controls (trim_space raw)) raw)) [
    | inl same ↦
        rw (e, same, clean_container_image_reference)
          (subst NoControl (eq_of-str_eq (drop_controls (trim_space raw)) raw same)
            (drop_controls-NoControl (trim_space raw)))
    | inr changed ↦
        rw (e, changed, clean_container_image_reference) (drop_controls-NoControl (trim_space raw))
  ]
]

abbrev OutcomeAll : {A : Type 0} → (A → Type 0) → Outcome A → Type 0
OutcomeAll P (ok a) = P a
OutcomeAll P _ = Unit

abbrev pub OptionAll : {A : Type 0} → (A → Type 0) → Option A → Type 0
OptionAll P none = Unit
OptionAll P (some a) = P a

-- The image of a volume's source, if there is one, holds no control character.
abbrev pub HasCleanImage : Volume → Type 0
HasCleanImage v = OptionAll (λ c. NoControl c.image) v.source.container

pub record HasCleanImages (m : Microvm) : Type 0 where
  pub kernel_clean : NoControl m.spec.kernel.image
  pub initrd_clean : OptionAll (λ i. NoControl i.image) m.spec.initrd
  pub root_clean : HasCleanImage m.spec.root_volume
  pub additional_clean : All HasCleanImage m.spec.additional_volumes

image-NoControl :
    (o : Option String)
    → OptionAll
        (λ (c : ContainerVolumeSource). NoControl c.image)
        (map_option (λ image. record { image = image }) (map_some sanitized o))
image-NoControl none = tt
image-NoControl (some image) = sanitized-NoControl image

source-NoControl :
    (source : Option Wire.VolumeSource)
    → OptionAll
        (λ (c : ContainerVolumeSource). NoControl c.image)
        (convert_source (map_some sanitize_source source)).container
unfolding convert_source sanitize_source
source-NoControl none = tt
source-NoControl (some source) = image-NoControl source.container_source

volume-HasCleanImage :
    (v : Wire.Volume) → HasCleanImage (convert_volume_to_model (sanitize_volume_image v))
unfolding convert_volume_to_model sanitize_volume_image
volume-HasCleanImage v = source-NoControl v.source

root-HasCleanImage :
    (v : Option Wire.Volume)
    → HasCleanImage (root_volume_to_model (map_some sanitize_volume_image v))
root-HasCleanImage none = tt
root-HasCleanImage (some v) = volume-HasCleanImage v

kernel-NoControl :
    (k : Option Wire.Kernel) → NoControl (kernel_to_model (map_some sanitize_kernel k)).image
kernel-NoControl none = tt
kernel-NoControl (some k) = sanitized-NoControl k.image

initrd-NoControl :
    (i : Option Wire.Initrd)
    → OptionAll
        (λ (i : Initrd). NoControl i.image)
        (map_option initrd_to_model (map_some sanitize_initrd i))
initrd-NoControl none = tt
initrd-NoControl (some i) = sanitized-NoControl i.image

volumes-HasCleanImage :
    (vs : List Wire.Volume)
    → All HasCleanImage (map convert_volume_to_model (map sanitize_volume_image vs))
volumes-HasCleanImage [] = tt
volumes-HasCleanImage (v ∷ vs) = (volume-HasCleanImage v, volumes-HasCleanImage vs)

-- No image reference of a microvm that is made from a sanitized request, of its kernel, its initrd
-- or a volume, holds a control character.
pub sanitized-HasCleanImages :
    (spec : Wire.MicrovmSpec) (m : Microvm)
    → convert_microvm_to_model (sanitize_microvm_image_references spec) ≡ ok m
    → HasCleanImages m
unfolding convert_microvm_to_model sanitize_microvm_image_references
sanitized-HasCleanImages spec m h =
    let (vmid, e, h1) = >>=-eq-ok (new_vmid spec.id spec.namespace (or_empty spec.uid)) _ m h in
    let (interfaces, e1, h2) = >>=-eq-ok (convert_interfaces spec.interfaces) _ m h1 in
    subst (λ r. OutcomeAll HasCleanImages r) h2
      (record {
        kernel_clean = kernel-NoControl spec.kernel;
        initrd_clean = initrd-NoControl spec.initrd;
        root_clean = root-HasCleanImage spec.root_volume;
        additional_clean = volumes-HasCleanImage spec.additional_volumes;
      })

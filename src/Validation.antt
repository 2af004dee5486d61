-- ===== src/Validation.antt =====
-- pkg/validation/validate.go: the rules of this repository. Which field a rule is for stands in struct
-- tags, which a third-party validator reads; `parse_reference` is containerd's reference.Parse.
pub mod Shares
use Prim.Native.Char.{Char, code}
use flintlock.Prelude.{
  ℕ, ◌+◌, String, Bool, true, false, not, ◌&&◌, ◌||◌, ◌==◌, leb, ltb, List, [], ◌∷◌, any,
  if◌then◌else◌,
}
use flintlock.Prelude.Int.{ℤ, at_least, at_most}
use flintlock.Outcome.{Outcome, ok}
use flintlock.Models.Volumes.{Volume, is_some, is_zero_volume}
use flintlock.Models.Microvm.{MicrovmSpec}

abbrev succeeds_with : Outcome (Unit {0}) → Bool
succeeds_with (ok u) = true
succeeds_with _ = false

-- customImageURIValidator
abbrev pub custom_image_uri_validator : (String → Outcome (Unit {0})) → String → Bool
custom_image_uri_validator parse_reference uri = succeeds_with (parse_reference uri)

-- customTimestampValidator, when `now` is the clock's time
unfoldable pub custom_timestamp_validator : ℕ → ℤ → Bool
custom_timestamp_validator now tm = at_most now tm && at_least 1 tm

abbrev is_lower : Char → Bool
is_lower c = leb b'a' (code c) && leb (code c) b'z'

abbrev is_name_char : Char → Bool
is_name_char c = is_lower c || (leb b'0' (code c) && leb (code c) b'9') || (code c == b'_')

abbrev all_name_chars : String → Bool
all_name_chars String.[] = true
all_name_chars (String.◌∷◌ c s) = is_name_char c && all_name_chars s

-- customNetworkGuestDeviceNameValidator: the expression ^[a-z][a-z0-9_]*$
unfoldable pub custom_network_guest_device_name_validator : String → Bool
custom_network_guest_device_name_validator String.[] = false
custom_network_guest_device_name_validator (String.◌∷◌ c s) = is_lower c && all_name_chars s

-- customMicroVMSpecStructLevelValidation: is no error reported?
unfoldable pub custom_microvm_spec_struct_level_validation : MicrovmSpec → Bool
unfolding is_zero_volume
custom_microvm_spec_struct_level_validation spec =
    not (not (is_some spec.initrd) && is_zero_volume spec.root_volume)

-- customNoVirtioFSValidator
abbrev pub custom_no_virtiofs_validator : Volume → Bool
custom_no_virtiofs_validator field = not (is_some field.source.virtiofs)

-- the loop of the next rule
unfoldable pub virtiofs_count : List Volume → ℕ
virtiofs_count [] = 0
virtiofs_count (volume ∷ rest) =
    let count = virtiofs_count rest in if is_some volume.source.virtiofs then count + 1 else count

-- customOnlyOneVirtioFSValidator
unfoldable pub custom_only_one_virtiofs_validator : List Volume → Bool
unfolding virtiofs_count
custom_only_one_virtiofs_validator field = not (ltb 1 (virtiofs_count field))

-- customMultipleVolSources
unfoldable pub custom_multiple_vol_sources : List Volume → Bool
custom_multiple_vol_sources field =
    not (any (λ volume. is_some volume.source.container && is_some volume.source.virtiofs) field)

-- ===== src/Outcome.antt =====
-- core/errors/errors.go and core/application/errors.go: the errors, and what a call can come to.
-- An error that a function wraps with `%w` keeps its identity, so the wrapping text is left out.
use flintlock.Prelude.{◌≡◌, refl, ap, ℕ, String, Bool, true, false}

-- An error of code outside this repository is known by a number.
pub data Error : Type 0 where
  spec_required vmid_required name_required uid_required namespace_required : Error
  kernel_image_required volume_required root_volume_required no_mount no_volume_mount : Error
  parent_iface_required_for_macvtap parent_iface_required_for_attaching_tap : Error
  guest_device_name_required unsupported_iface_type iface_not_found : Error
  missing_status_info unable_to_boot : Error
  incorrect_vmid_format unsupported_interface : String → Error
  core_spec_not_found : String → String → String → String → Error
  app_uid_required macvtap_not_supported virtiofs_not_supported : Error
  guest_agent_not_supported : Error
  spec_already_exists spec_not_found : String → String → String → Error
  provider_not_available : String → Error
  ports_missing : Error
  invalid_argument : Error
  validation_failed : Error
  iface_name_failed : Error
  delete_iface_failed : Error
  vendor_data_failed : Error
  reading_content : Error
  pid_not_a_number unsupported_vm_state not_supported wait_timeout : Error
  unknown_network_interface_type : String → Error
  network_interface_status_missing volume_not_mounted : String → Error
  version_not_a_number unsupported_snapshotter : String → Error
  external : ℕ → Error

-- The ways in which Go code can panic here.
pub data Fault : Type 0 where
  nil_map_write nil_dereference index_out_of_range : Fault

-- A call returns, returns an error, panics, or (in the model only) runs out of fuel.
pub data Outcome {ℓ} (A : Type ℓ) : Type ℓ where
  ok : A → Outcome A
  fail : Error → Outcome A
  panic : Fault → Outcome A
  no_fuel : Outcome A

infixl 5 ◌>>=◌ ◌>>◌
abbrev pub ◌>>=◌ {ℓ κ} : {A : Type ℓ} {B : Type κ} → Outcome A → (A → Outcome B) → Outcome B
ok a >>= f = f a
fail e >>= f = fail e
panic p >>= f = panic p
no_fuel >>= f = no_fuel

abbrev pub ◌>>◌ {ℓ κ} : {A : Type ℓ} {B : Type κ} → Outcome A → Outcome B → Outcome B
m >> k = m >>= λ _. k

pub ok-injective : {A : Type 0} (a b : A) → ok a ≡ ok b → a ≡ b
ok-injective {A} a b h = ap value_of h
  where
    value_of : Outcome A → A
    value_of (ok c) = c
    value_of _ = a

pub fail-injective : {A : Type 0} (e f : Error) → ◌≡◌ {A = Outcome A} (fail e) (fail f) → e ≡ f
fail-injective {A} e f h = ap error_of h
  where
    error_of : Outcome A → Error
    error_of (fail x) = x
    error_of _ = e

-- A chain that succeeds has a first part that does, and the rest goes on from its value.
pub >>=-eq-ok :
    {A B : Type 0} (first : Outcome A) (rest : A → Outcome B) (result : B)
    → (first >>= rest) ≡ ok result
    → (value : A) × (first ≡ ok value) × (rest value ≡ ok result)
>>=-eq-ok (ok value) rest result h = (value, refl, h)
>>=-eq-ok (fail e) rest result h = cc
>>=-eq-ok (panic p) rest result h = cc
>>=-eq-ok no_fuel rest result h = cc

-- IsSpecNotFound of core/errors: only the core error counts, not the application's own.
unfoldable pub is_spec_not_found : Error → Bool
is_spec_not_found (core_spec_not_found name namespace version uid) = true
is_spec_not_found _ = false

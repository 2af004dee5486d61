-- ===== src/App/Commands.antt =====
-- core/application/commands.go. The validator's verdict on a microvm is a parameter, and so are
-- base64 and YAML.
pub mod Capabilities
pub mod Provider
pub mod Deletion
pub mod InstanceData
use flintlock.Prelude.{
  ℕ, String, Bool, true, false, not, ◌&&◌, List, [], ◌∷◌, Option, none, some, any, is_empty, str_eq,
  if◌then◌else◌,
}
use flintlock.Prelude.Dict.{Dict, lookup, insert}
use flintlock.Outcome.{
  Outcome, ok, fail, panic, no_fuel, spec_required, provider_not_available, is_spec_not_found,
  spec_already_exists, spec_not_found, macvtap_not_supported, virtiofs_not_supported,
  guest_agent_not_supported, app_uid_required,
}
use flintlock.Io.{Io, ◌>>=◌, ◌>>◌, pure, throw, lift, fail_if}
use flintlock.Ports.{Collection, MicrovmService, spec_created, spec_updated}
use flintlock.Models.Vmid.{Vmid, new_vmid, is_empty_vmid, set_uid, default_namespace}
use flintlock.Models.Capability.{
  has, macvtap_capability, virtiofs_capability, vsock_capability, metadata_service_capability,
}
use flintlock.Models.Volumes.{is_some}
use flintlock.Models.Network.{NetworkInterface, tap, is_macvtap}
use flintlock.Models.Microvm.{Microvm, MicrovmSpec, pending, deleting}
use flintlock.Steps.Status.{map_get, map_put, with_status}
use flintlock.Plans.Delete.{topic_microvm_events}
use flintlock.App.{Config}

abbrev pub with_spec : (MicrovmSpec → MicrovmSpec) → Microvm → Microvm
with_spec f vm = record vm { spec = f vm.spec }

-- checkProviderCapabilities: the three tests in their order
unfoldable pub check_provider_capabilities :
    {W : Type 0} → Microvm → MicrovmService W → Outcome (Unit {0})
check_provider_capabilities mvm provider =
    let caps = provider.capabilities in
    if not (has caps macvtap_capability) && any (λ n. is_macvtap n.type) mvm.spec.network_interfaces
    then fail macvtap_not_supported
    else if not (has caps virtiofs_capability)
        && any (λ v. is_some v.source.virtiofs) mvm.spec.additional_volumes
    then fail virtiofs_not_supported
    else if mvm.spec.allow_guest_agent && not (has caps vsock_capability)
    then fail guest_agent_not_supported
    else ok tt

abbrev pub metadata_interface_name : String
metadata_interface_name = "eth0"

unfoldable pub metadata_interface : NetworkInterface
metadata_interface = record {
  guest_device_name = metadata_interface_name;
  allow_metadata_requests = true;
  guest_mac = "AA:FF:00:00:00:01";
  type = tap;
  static_address = some (record { address = "169.254.0.1/16"; gateway = none; nameservers = [] });
  bridge_name = "";
}

abbrev pub has_interface : String → List NetworkInterface → Bool
has_interface name interfaces = any (λ n. str_eq n.guest_device_name name) interfaces

-- addMetadataInterface
unfoldable pub add_metadata_interface : Microvm → Microvm
unfolding metadata_interface
add_metadata_interface mvm =
    if has_interface metadata_interface_name mvm.spec.network_interfaces
    then mvm
    else with_spec
        (λ s. record s { network_interfaces = metadata_interface ∷ s.network_interfaces }) mvm

abbrev pub instance_data_key : String
instance_data_key = "meta-data"

abbrev pub instance_id_key : String
instance_id_key = "instance_id"

-- m[k] of a map of texts: "" where the key is missing
abbrev pub text_at : Option String → String
text_at none = ""
text_at (some s) = s

-- base64 over YAML, for the instance metadata
pub record InstanceEncoding : Type 0 where
  pub decode_base64 : String → Outcome String
  pub encode_base64 : String → String
  pub unmarshal : String → Outcome (Dict String)
  pub marshal : Dict String → Outcome String

module _ (enc : InstanceEncoding) where
  -- the metadata that is there already, if any
  unfoldable pub existing_data : String → Outcome (Dict String)
  existing_data meta = if is_empty meta then ok [] else elim (enc.decode_base64 meta) [
    | ok text ↦ enc.unmarshal text
    | fail e ↦ fail e
    | panic f ↦ panic f
    | no_fuel ↦ no_fuel
  ]

  unfoldable pub store_data : Microvm → Outcome String → Outcome Microvm
  store_data vm (ok text) =
      elim (map_put instance_data_key (enc.encode_base64 text) vm.spec.metadata) [
        | ok metadata ↦ ok (with_spec (λ s. record s { metadata = metadata }) vm)
        | fail e ↦ fail e
        | panic f ↦ panic f
        | no_fuel ↦ no_fuel
      ]
  store_data vm (fail e) = fail e
  store_data vm (panic f) = panic f
  store_data vm no_fuel = no_fuel

  unfoldable pub set_instance_id : Microvm → Outcome (Dict String) → Outcome Microvm
  unfolding store_data
  set_instance_id vm (ok instance_data) =
      if is_empty (text_at (lookup instance_id_key instance_data))
      then store_data vm (enc.marshal (insert instance_id_key vm.id.uid instance_data))
      else ok vm
  set_instance_id vm (fail e) = fail e
  set_instance_id vm (panic f) = panic f
  set_instance_id vm no_fuel = no_fuel

  -- addInstanceData
  unfoldable pub add_instance_data : Microvm → Outcome Microvm
  unfolding existing_data set_instance_id
  add_instance_data vm =
      set_instance_id vm (existing_data (text_at (map_get instance_data_key vm.spec.metadata)))

module _ {W : Type 0} (cfg : Config) (enc : InstanceEncoding) (validate : Microvm → Io W (Unit {0}))
    (ports : Collection W) where
  -- a microvm without an identifier is given a random name
  unfoldable pub ensure_vmid : Microvm → Io W Microvm
  ensure_vmid mvm =
      if is_empty_vmid mvm.id
      then (do
        name ← ports.generate_random
        vmid ← lift (new_vmid name default_namespace "")
        pure (record mvm { id = vmid }))
      else pure mvm

  -- Is the specification stored already? Only the error "not found" counts as no.
  unfoldable pub find_existing : Vmid → Io W Bool
  find_existing vmid w =
      let (r, w') =
        ports.repo.get
          (record { name = vmid.name; namespace = vmid.namespace; version = ""; uid = vmid.uid })
          w in
      elim r [
        | ok found ↦ (ok (is_some found), w')
        | fail e ↦ (if is_spec_not_found e then ok false else fail e, w')
        | panic f ↦ (panic f, w')
        | no_fuel ↦ (no_fuel, w')
      ]

  -- the provider of the specification, or the default one
  unfoldable pub choose_provider : Microvm → Microvm
  choose_provider =
      with_spec λ s. record s {
        provider = if is_empty s.provider then cfg.default_provider else s.provider;
      }

  unfoldable pub find_provider : Microvm → Outcome (MicrovmService W)
  find_provider mvm = elim (ports.microvm_providers mvm.spec.provider) [
    | none ↦ fail (provider_not_available mvm.spec.provider)
    | some provider ↦ ok provider
  ]

  -- from the check of the capabilities to the end
  unfoldable pub complete_and_save : Microvm → MicrovmService W → Io W Microvm
  complete_and_save mvm provider = do
    lift (check_provider_capabilities mvm provider)
    with_data ← lift (add_instance_data enc mvm)
    let with_interface =
        if has provider.capabilities metadata_service_capability
        then add_metadata_interface with_data
        else with_data
    now ← ports.clock
    let stamped = with_spec (λ s. record s { created_at = now }) with_interface
    saved ← ports.repo.save (with_status (λ t. record t { state = pending; retry = 0 }) stamped)
    ports.publish topic_microvm_events (
        spec_created
          (record { id = stamped.id.name; namespace = stamped.id.namespace; uid = stamped.id.uid }))
    pure saved

  unfoldable pub create_given : Microvm → Io W Microvm
  unfolding ensure_vmid find_existing choose_provider find_provider complete_and_save
  create_given given = do
    validate given
    named ← ensure_vmid given
    let mvm = choose_provider named
    provider ← lift (find_provider mvm)
    uid ← ports.generate_random
    let identified = record mvm { id = set_uid uid mvm.id }
    exists ← find_existing identified.id
    fail_if exists
        (spec_already_exists identified.id.name identified.id.namespace identified.id.uid)
    complete_and_save identified provider

  -- CreateMicroVM
  unfoldable pub create_microvm : Option Microvm → Io W Microvm
  unfolding create_given
  create_microvm none = throw spec_required
  create_microvm (some mvm) = create_given mvm

-- the three assignments to what was found, at the time `now`
abbrev pub mark_deleted : ℕ → Microvm → Microvm
mark_deleted now found =
    with_status (λ t. record t { retry = 0; state = deleting })
      (with_spec (λ s. record s { deleted_at = now }) found)

module _ {W : Type 0} (ports : Collection W) where
  unfoldable pub delete_found : String → Option Microvm → Io W (Unit {0})
  delete_found uid none = throw (spec_not_found "" "" uid)
  delete_found uid (some found) = do
    now ← ports.clock
    ports.repo.save (mark_deleted now found)
    ports.publish topic_microvm_events (
        spec_updated
          (record { id = found.id.name; namespace = found.id.namespace; uid = found.id.uid }))

  -- DeleteMicroVM
  unfoldable pub delete_microvm : String → Io W (Unit {0})
  unfolding delete_found
  delete_microvm uid = if is_empty uid then throw app_uid_required else (do
    found ← ports.repo.get (record { name = ""; namespace = ""; version = ""; uid = uid })
    delete_found uid found)

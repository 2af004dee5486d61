-- ===== src/App/Commands/Provider.antt =====
-- What core/application/commands.go stores: only what the provider can run.
use flintlock.Prelude.{
  ℕ, ◌∙◌, ◌≡◌, refl, ap, String, true, Option, none, some, is_empty, arith, Bool-cases, inl, inr,
  if◌then◌else◌,
}
use flintlock.Prelude.Dict.{Dict, lookup}
use flintlock.Outcome.{Outcome, ok, fail, panic, no_fuel, spec_already_exists}
use flintlock.Io.{
  Io, lift, fail_if, Gives, Gives-bind, Gives-bind_any, Gives-pure, Gives-lift, Gives-self,
}
use flintlock.Ports.{Collection, MicrovmService}
use flintlock.Models.Capability.{has, metadata_service_capability}
use flintlock.Models.Vmid.{set_uid}
use flintlock.Models.Microvm.{Microvm, pending}
use flintlock.Steps.Status.{with_status}
use flintlock.App.{Config}
use flintlock.App.Commands.Capabilities.{CanRun, check-CanRun}
use flintlock.App.Commands.{
  with_spec, check_provider_capabilities, metadata_interface, metadata_interface_name,
  has_interface, add_metadata_interface, InstanceEncoding, add_instance_data, set_instance_id,
  store_data, find_provider, choose_provider, ensure_vmid, find_existing, complete_and_save,
  create_given, create_microvm, text_at, instance_id_key,
}

-- The interface of the metadata service is there afterwards.
pub add_metadata_interface-has_interface :
    (mvm : Microvm)
    → has_interface metadata_interface_name (add_metadata_interface mvm).spec.network_interfaces
      ≡ true
unfolding add_metadata_interface metadata_interface
add_metadata_interface-has_interface mvm = ground arith

-- To add the interface of the metadata service to a microvm twice is to add it once.
pub add_metadata_interface-idempotent :
    (mvm : Microvm)
    → add_metadata_interface (add_metadata_interface mvm) ≡ add_metadata_interface mvm
unfolding add_metadata_interface
add_metadata_interface-idempotent mvm = ground (arith, add_metadata_interface-has_interface mvm)

-- The interface of the metadata service is a tap, so that it asks for no further capability.
check-add_metadata_interface :
    {W : Type 0} (mvm : Microvm) (provider : MicrovmService W)
    → check_provider_capabilities (add_metadata_interface mvm) provider
      ≡ check_provider_capabilities mvm provider
unfolding add_metadata_interface metadata_interface check_provider_capabilities
check-add_metadata_interface mvm provider = ground arith

abbrev with_metadata : Option (Dict String) → Microvm → Microvm
with_metadata metadata = with_spec λ s. record s { metadata = metadata }

module _ (enc : InstanceEncoding) where
  store_data-frame :
      (vm v : Microvm) (r : Outcome String)
      → store_data enc vm r ≡ ok v
      → v ≡ with_metadata v.spec.metadata vm
  unfolding store_data
  store_data-frame vm v (ok text) h = ground arith
  store_data-frame vm v (fail e) h = cc
  store_data-frame vm v (panic f) h = cc
  store_data-frame vm v no_fuel h = cc

  set_instance_id-frame :
      (vm v : Microvm) (r : Outcome (Dict String))
      → set_instance_id enc vm r ≡ ok v
      → v ≡ with_metadata v.spec.metadata vm
  unfolding set_instance_id
  set_instance_id-frame vm v (ok found) h =
      elim (Bool-cases (is_empty (text_at (lookup instance_id_key found)))) [
        | inl e ↦ store_data-frame vm v _ (rw (e, set_instance_id) at h)
        | inr e ↦ ground arith
      ]
  set_instance_id-frame vm v (fail e) h = cc
  set_instance_id-frame vm v (panic f) h = cc
  set_instance_id-frame vm v no_fuel h = cc

  -- Only the metadata is written.
  add_instance_data-frame :
      (vm v : Microvm) → add_instance_data enc vm ≡ ok v → v ≡ with_metadata v.spec.metadata vm
  unfolding add_instance_data
  add_instance_data-frame vm v h = set_instance_id-frame vm v _ h

-- Nor does the metadata.
check-add_instance_data :
    {W : Type 0} (enc : InstanceEncoding) (mvm with_data : Microvm) (provider : MicrovmService W)
    → add_instance_data enc mvm ≡ ok with_data
    → check_provider_capabilities with_data provider ≡ check_provider_capabilities mvm provider
unfolding check_provider_capabilities
check-add_instance_data enc mvm with_data provider h =
    rw (add_instance_data-frame enc mvm with_data h) refl

module _ {W : Type 0} (cfg : Config) (enc : InstanceEncoding) (validate : Microvm → Io W (Unit {0}))
    (ports : Collection W) where
  -- What is known of the microvm that `CreateMicroVM` hands to the repository: it is pending, with
  -- no retries, and the provider that it names is there and can run it.
  pub record IsStored (provider : MicrovmService W) (stored saved : Microvm) : Type 0 where
    pub is_pending : stored.status.state ≡ pending
    pub no_retries : stored.status.retry ≡ 0
    pub is_known : ports.microvm_providers stored.spec.provider ≡ some provider
    pub can_run : CanRun provider.capabilities stored
    pub is_saved : (w : W) × ((ports.repo.save stored w).0 ≡ ok saved)

  stored-can_run :
      (mvm with_data : Microvm) (provider : MicrovmService W) (now : ℕ)
      → check_provider_capabilities mvm provider ≡ ok tt
      → add_instance_data enc mvm ≡ ok with_data
      → check_provider_capabilities
          (with_status
            (λ t. record t { state = pending; retry = 0 })
            (with_spec
              (λ s. record s { created_at = now })
              (if has provider.capabilities metadata_service_capability
                then add_metadata_interface with_data
                else with_data)))
          provider
        ≡ ok tt
  unfolding check_provider_capabilities
  stored-can_run mvm with_data provider now h d =
      elim (Bool-cases (has provider.capabilities metadata_service_capability)) [
        | inl e ↦ rw e (
            check-add_metadata_interface with_data provider
            ∙ check-add_instance_data enc mvm with_data provider d
            ∙ h)
        | inr e ↦ rw e (check-add_instance_data enc mvm with_data provider d ∙ h)
      ]

  stored-is_known :
      (mvm with_data : Microvm) (provider : MicrovmService W)
      → find_provider cfg enc validate ports mvm ≡ ok provider
      → add_instance_data enc mvm ≡ ok with_data
      → ports.microvm_providers
          (if has provider.capabilities metadata_service_capability
            then add_metadata_interface with_data
            else with_data).spec.provider
        ≡ some provider
  unfolding find_provider add_metadata_interface
  stored-is_known mvm with_data provider h d =
      let e : with_data.spec.provider ≡ mvm.spec.provider =
        ap (λ (v : Microvm). v.spec.provider) (add_instance_data-frame enc mvm with_data d) in
      ground (arith, e)

  complete_and_save-IsStored :
      (mvm : Microvm) (provider : MicrovmService W)
      → find_provider cfg enc validate ports mvm ≡ ok provider
      → Gives
          (λ saved. (p : MicrovmService W) × (stored : Microvm) × IsStored p stored saved)
          (complete_and_save cfg enc validate ports mvm provider)
  unfolding complete_and_save
  complete_and_save-IsStored mvm provider known =
      Gives-bind (λ u. check_provider_capabilities mvm provider ≡ ok u) (lift _) _ (Gives-lift _)
        λ u can_run.
          Gives-bind (λ v. add_instance_data enc mvm ≡ ok v) (lift _) _ (Gives-lift _)
            λ with_data d. Gives-bind_any ports.clock _ λ now.
              Gives-bind (λ saved. (w : W) × ((ports.repo.save _ w).0 ≡ ok saved)) _ _
                (Gives-self _)
                λ saved is_saved. Gives-bind_any _ _ λ v. Gives-pure saved (
                  provider,
                  _,
                  record {
                    is_pending = refl;
                    no_retries = refl;
                    is_known = stored-is_known mvm with_data provider known d;
                    can_run =
                        check-CanRun _ provider
                          (stored-can_run mvm with_data provider now can_run d);
                    is_saved = is_saved;
                  },
                )

  -- If CreateMicroVM succeeds, then the microvm that it gives is what the repository answered to
  -- saving one that is pending, with no retries, whose named provider is known and can run it, the
  -- added interface of the metadata service included: the provider has the capability macvtap if an
  -- interface is a macvtap, virtiofs if an additional volume is a share, and vsock if the guest
  -- agent is allowed.
  pub create_microvm-IsStored :
      (given : Option Microvm) (w : W) (saved : Microvm)
      → (create_microvm cfg enc validate ports given w).0 ≡ ok saved
      → (provider : MicrovmService W) × (stored : Microvm) × IsStored provider stored saved
  unfolding create_microvm create_given
  create_microvm-IsStored none w saved h = cc
  create_microvm-IsStored (some given) w saved h = created.gives w saved h
    where
      created :
          Gives
            (λ x. (provider : MicrovmService W) × (stored : Microvm) × IsStored provider stored x)
            (create_given cfg enc validate ports given)
      created = Gives-bind_any (validate given) _ λ u.
          Gives-bind_any (ensure_vmid cfg enc validate ports given) _ λ named.
            let mvm = choose_provider cfg enc validate ports named in
            Gives-bind (λ p. find_provider cfg enc validate ports mvm ≡ ok p) (lift _) _
              (Gives-lift _)
              λ provider known. Gives-bind_any ports.generate_random _ λ uid.
                let identified = record mvm { id = set_uid uid mvm.id } in
                let id = identified.id in
                Gives-bind_any (find_existing cfg enc validate ports id) _ λ exists.
                  Gives-bind_any (fail_if exists (spec_already_exists id.name id.namespace id.uid))
                    _
                    λ v.
                      complete_and_save-IsStored identified provider (unfold find_provider in known)

-- ===== src/App/Commands/Capabilities.antt =====
-- checkProviderCapabilities of core/application/commands.go: what a microvm asks of its provider.
use mathlib.Core.List.{Memᴰ}
use mathlib.Core.List.Memᴰ.{head, tail}
use flintlock.Prelude.{
  ◌≡◌, sym, ap, Bool, true, List, [], ◌∷◌, some, any, str_eq, eq_of-str_eq, Bool-cases, inl, inr,
  arith,
}
use flintlock.Outcome.{ok}
use flintlock.Ports.{MicrovmService}
use flintlock.Models.Capability.{
  Capability, has, macvtap_capability, virtiofs_capability, vsock_capability,
}
use flintlock.Models.Network.{NetworkInterface, macvtap, is_macvtap}
use flintlock.Models.Volumes.{Volume, VirtioFsVolumeSource, is_some}
use flintlock.Models.Microvm.{Microvm}
use flintlock.App.Commands.{check_provider_capabilities}

-- A provider with these capabilities has what the microvm asks for: macvtap for any interface of that
-- type, virtiofs for any additional volume that is a share, and vsock for the guest agent.
pub record CanRun (capabilities : List Capability) (vm : Microvm) : Type 0 where
  pub for_interfaces :
      (iface : NetworkInterface)
      → Memᴰ iface vm.spec.network_interfaces
      → iface.type ≡ macvtap
      → Memᴰ macvtap_capability capabilities
  pub for_shares :
      (volume : Volume) (share : VirtioFsVolumeSource)
      → Memᴰ volume vm.spec.additional_volumes
      → volume.source.virtiofs ≡ some share
      → Memᴰ virtiofs_capability capabilities
  pub for_agent : vm.spec.allow_guest_agent ≡ true → Memᴰ vsock_capability capabilities

any-absent :
    {A : Type 0} (f : A → Bool) (a : A) (xs : List A) → Memᴰ a xs → f a ≡ true → any f xs ≡ true
any-absent f a [] m h = elim m [ ]
any-absent f a (b ∷ xs) (head e) h = ground (arith, ap f e)
any-absent f a (b ∷ xs) (tail m) h = ground (arith, any-absent f a xs m h)

has-Mem :
    (capabilities : List Capability) (c : Capability)
    → has capabilities c ≡ true
    → Memᴰ c capabilities
unfolding has
has-Mem [] c h = cc
has-Mem (d ∷ capabilities) c h = elim (Bool-cases (str_eq d c)) [
  | inl e ↦ head (sym (eq_of-str_eq d c e))
  | inr e ↦ tail (has-Mem capabilities c (unfold has in (rw e at h)))
]

-- What passes the code's tests can be run.
pub check-CanRun :
    {W : Type 0} (vm : Microvm) (provider : MicrovmService W)
    → check_provider_capabilities vm provider ≡ ok tt
    → CanRun provider.capabilities vm
unfolding check_provider_capabilities
check-CanRun vm provider h = record {
  for_interfaces = λ iface m e. has-Mem provider.capabilities macvtap_capability (
      ground (
        arith,
        any-absent (λ n. is_macvtap n.type) iface vm.spec.network_interfaces m (ap is_macvtap e),
      ));
  for_shares = λ volume share m e. has-Mem provider.capabilities virtiofs_capability (
      ground (
        arith,
        any-absent (λ v. is_some v.source.virtiofs) volume vm.spec.additional_volumes m
            (ap is_some e),
      ));
  for_agent = λ allowed. has-Mem provider.capabilities vsock_capability (ground (arith, allowed));
}

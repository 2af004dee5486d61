-- ===== src/Grpc/Convert/RoundTrip.antt =====
-- What is left of a microvm that is sent to a client and comes back from it.
use flintlock.Prelude.{
  ◌≡◌, refl, String, true, false, List, [], ◌∷◌, map, Option, none, some, All, arith, Bool-cases,
  inl, inr, is_empty, eq_iff, if◌then◌else◌,
}
use flintlock.Prelude.Int.{is_zero, IsInt32, int32_lem}
use flintlock.Prelude.Dict.{Dict}
use flintlock.Outcome.{ok}
use flintlock.Models.Vmid.{new_vmid}
use flintlock.Models.Volumes.{Volume, zero_volume, is_zero_volume}
use flintlock.Models.Network.{NetworkInterface, IfaceType}
use flintlock.Models.Microvm.{Microvm, Initrd}
use flintlock.Grpc.Convert.{
  convert_source, convert_volume_to_model, convert_network_interface_to_model, convert_interfaces,
  convert_microvm_to_model, convert_model_to_volume, convert_model_to_network_interface,
  convert_model_to_microvm_spec, zero_status, root_volume_to_model, initrd_to_model, map_option,
}

-- What the message about a volume, an interface or a microvm does not hold.
abbrev pub forget_volume : Volume → Volume
forget_volume v = record v { mount_point = "" }

abbrev pub forget_interface : NetworkInterface → NetworkInterface
forget_interface n = record n { allow_metadata_requests = false; bridge_name = "" }

abbrev pub forget : Microvm → Microvm
forget m = record {
  id = m.id;
  version = 0;
  spec = record m.spec {
    provider = "";
    network_interfaces = map forget_interface m.spec.network_interfaces;
    root_volume = forget_volume m.spec.root_volume;
    additional_volumes = map forget_volume m.spec.additional_volumes;
    created_at = 0;
    updated_at = 0;
    deleted_at = 0;
  };
  status = zero_status;
}

-- The types of interface that a message can name.
abbrev pub IsKnown : IfaceType → Type 0
IsKnown IfaceType.tap = Unit
IsKnown IfaceType.macvtap = Unit
IsKnown IfaceType.unsupported = ⊥
IsKnown (IfaceType.other_iface_type name) = ⊥

-- A microvm whose message says all that `forget` keeps.
pub record IsSendable (m : Microvm) : Type 0 where
  pub named : is_empty m.id.name ≡ false
  pub placed : is_empty m.id.namespace ≡ false
  pub vcpu_fits : IsInt32 m.spec.vcpu
  pub vcpu_set : is_zero m.spec.vcpu ≡ false
  pub memory_fits : IsInt32 m.spec.memory_in_mb
  pub memory_set : is_zero m.spec.memory_in_mb ≡ false
  pub known : All (λ n. IsKnown n.type) m.spec.network_interfaces
  pub has_metadata : (metadata : Dict String) × (m.spec.metadata ≡ some metadata)

volume_lem : (v : Volume) → convert_volume_to_model (convert_model_to_volume v) ≡ forget_volume v
unfolding convert_volume_to_model convert_source convert_model_to_volume
volume_lem v = ground arith

volumes_lem :
    (vs : List Volume)
    → map convert_volume_to_model (map convert_model_to_volume vs) ≡ map forget_volume vs
volumes_lem [] = refl
volumes_lem (v ∷ vs) = cc (volume_lem v, volumes_lem vs)

-- A volume that is all zero comes back as the zero volume.
zero_lem : (v : Volume) → is_zero_volume v ≡ true → zero_volume ≡ forget_volume v
unfolding is_zero_volume
zero_lem v h = ground (arith, eq_iff v.id "", eq_iff v.partition_id "")

root_lem :
    (v : Volume)
    → root_volume_to_model (if is_zero_volume v then none else some (convert_model_to_volume v))
      ≡ forget_volume v
root_lem v = elim (Bool-cases (is_zero_volume v)) [
  | inl e ↦ rw e (zero_lem v e)
  | inr e ↦ rw e (volume_lem v)
]

initrd_lem :
    (i : Option Initrd)
    → map_option initrd_to_model
        (map_option (λ (i : Initrd). record { image = i.image; filename = some i.filename }) i)
      ≡ i
initrd_lem none = refl
initrd_lem (some i) = refl

interface_lem :
    (n : NetworkInterface)
    → IsKnown n.type
    → convert_network_interface_to_model (convert_model_to_network_interface n)
      ≡ ok (forget_interface n)
unfolding convert_network_interface_to_model convert_model_to_network_interface
interface_lem n h = ground arith

interfaces_lem :
    (ns : List NetworkInterface)
    → All (λ n. IsKnown n.type) ns
    → convert_interfaces (map convert_model_to_network_interface ns) ≡ ok (map forget_interface ns)
unfolding convert_interfaces
interfaces_lem [] h = refl
interfaces_lem (n ∷ ns) h = rw (interface_lem n h.0, interfaces_lem ns h.1)

-- A microvm that is sent to a client and comes back from it as a specification is the same but for
-- its version, its status, its times, its provider, the mount points of its volumes, and the bridge
-- and metadata service of its interfaces, provided that its name and namespace are not empty, its
-- CPUs and memory are not 0 and fit in 32 bits, its interfaces are taps or macvtaps, and its
-- metadata is not nil.
pub convert_microvm_to_model-spec :
    (m : Microvm)
    → IsSendable m
    → convert_microvm_to_model (convert_model_to_microvm_spec m) ≡ ok (forget m)
unfolding convert_microvm_to_model convert_model_to_microvm_spec new_vmid
convert_microvm_to_model-spec m h =
    let (metadata, has) = h.has_metadata in
    rw
      (
        h.named,
        h.placed,
        interfaces_lem m.spec.network_interfaces h.known,
        int32_lem m.spec.vcpu h.vcpu_fits,
        int32_lem m.spec.memory_in_mb h.memory_fits,
        h.vcpu_set,
        h.memory_set,
        root_lem m.spec.root_volume,
        volumes_lem m.spec.additional_volumes,
        initrd_lem m.spec.initrd,
        has,
      )
      refl

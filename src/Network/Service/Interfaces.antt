-- ===== src/Network/Service/Interfaces.antt =====
-- infrastructure/network, and the promises that the core's steps on interfaces need.
use Prim.Native.String.{◌++◌ as ◌+++◌}
use text.Mathlib.TextLemmas.{cons-append}
use flintlock.Prelude.{
  str_eq-of_ne, ◌≡◌, refl, sym, subst, ◌∙◌, String, true, false, is_empty, inl, inr,
}
use flintlock.Outcome.{ok, ok-injective}
use flintlock.Models.Network.{IfaceType}
use flintlock.Ports.{Collection, IfaceCreateInput, IfaceDetails}
use flintlock.Steps.Settle.{HasInterfaces}
use flintlock.Network.Netlink.{Netlink}
use flintlock.Network.Names.{new_iface_name, device_prefix}
use flintlock.Network.Names.Free.{new_iface_name-IsFree}
use flintlock.Network.Service.{
  NetworkConfig, network_service, iface_create, iface_delete, iface_exists, iface_details,
  get_iface,
}
use flintlock.Network.Service.Presence.{
  NetlinkLaws, iface_create-iface_exists, iface_delete-iface_exists,
}

starts_with_f : (p suffix : String) → is_empty (String.◌∷◌ "f" p +++ suffix) ≡ false
starts_with_f p suffix = str_eq-of_ne (String.◌∷◌ "f" p +++ suffix) "" λ e.
    let bare : String.◌∷◌ "f" (p +++ suffix) ≡ String.[] = sym (cons-append "f" p suffix) ∙ e in cc

prefixed-not_empty :
    (type : IfaceType) (dev_prefix suffix : String)
    → device_prefix type ≡ ok dev_prefix
    → is_empty (dev_prefix +++ suffix) ≡ false
unfolding device_prefix
prefixed-not_empty IfaceType.tap p suffix h =
    subst (λ x. is_empty (x +++ suffix) ≡ false) (ok-injective _ p h) (starts_with_f "ltap" suffix)
prefixed-not_empty IfaceType.macvtap p suffix h =
    subst (λ x. is_empty (x +++ suffix) ≡ false) (ok-injective _ p h) (starts_with_f "lvtap" suffix)
prefixed-not_empty IfaceType.unsupported p suffix h = cc
prefixed-not_empty (IfaceType.other_iface_type t) p suffix h = cc

module _ {W N : Type 0} (netlink : Netlink W N) (laws : NetlinkLaws netlink)
    (config : NetworkConfig) (ports : Collection W) where
  -- To look for an interface, or at one, changes nothing.
  get_iface-reads : (name : String) (w : W) → (get_iface netlink name w).1 ≡ w
  unfolding get_iface
  get_iface-reads name w = elim (laws.lookup name w) [
    | inl (link, here) ↦ rw here refl
    | inr (e, missing, other) ↦ rw (missing, other) refl
  ]

  iface_exists-reads : (name : String) (w : W) → (iface_exists netlink name w).1 ≡ w
  unfolding iface_exists get_iface
  iface_exists-reads name w = elim (laws.lookup name w) [
    | inl (link, here) ↦ rw here refl
    | inr (e, missing, other) ↦ rw (missing, other) refl
  ]

  iface_details-reads : (name : String) (w : W) → (iface_details netlink name w).1 ≡ w
  unfolding iface_details get_iface
  iface_details-reads name w = elim (laws.lookup name w) [
    | inl (link, here) ↦ rw here refl
    | inr (e, missing, other) ↦ rw (missing, other) refl
  ]

  named_lem :
      (type : IfaceType) (w : W) (name : String)
      → (new_iface_name netlink type w).0 ≡ ok name
      → is_empty name ≡ false
  named_lem type w name h =
      let (dev_prefix, is_prefix, free) =
        new_iface_name-IsFree netlink type name w (new_iface_name netlink type w).1
          (λ i. (h i, (new_iface_name netlink type w).1)) in
      subst (λ s. is_empty s ≡ false) (sym free.form)
        (prefixed-not_empty type dev_prefix free.suffix is_prefix)

  created_lem :
      (input : IfaceCreateInput) (w : W) (details : IfaceDetails)
      → (iface_create netlink config input w).0 ≡ ok details
      → (iface_exists netlink input.device_name (iface_create netlink config input w).1).0 ≡ ok true
  created_lem input w details h =
      let u = (iface_create netlink config input w).1 in
      let (named, there) =
        iface_create-iface_exists netlink laws config input details w u (λ i. (h i, u)) in
      subst (λ n. (iface_exists netlink n u).0 ≡ ok true) named (λ i. (there i).0)

  deleted_lem :
      (name : String) (w : W)
      → (iface_delete netlink name w).0 ≡ ok tt
      → (iface_exists netlink name (iface_delete netlink name w).1).0 ≡ ok false
  deleted_lem name w h =
      let u = (iface_delete netlink name w).1 in
      λ i. (iface_delete-iface_exists netlink laws name w u (λ i. (h i, u)) i).0

  -- The ports with this service and these names in them.
  abbrev pub with_network : Collection W
  with_network = record ports {
    network_service = network_service netlink config;
    new_iface_name = new_iface_name netlink;
  }

  -- The network service and the choice of names keep the promises that the steps on interfaces
  -- need: a chosen name is not empty, an interface that was created is found under the name that
  -- was asked for and is still found after its details were read, a deleted one is not found, and
  -- looking changes nothing. The proviso is what netlink documents of its calls.
  pub network_service-HasInterfaces : HasInterfaces with_network
  network_service-HasInterfaces = record {
    named = named_lem;
    created = created_lem;
    still_there = λ name w h.
        let u = (iface_exists netlink name w).1 in
        let stays = iface_exists-reads name w in
        let looked = iface_details-reads name u in
        subst (λ x. (iface_exists netlink name x).0 ≡ ok true) (sym (looked ∙ stays)) h;
    deleted = deleted_lem;
    still_gone = λ name w h.
        subst (λ x. (iface_exists netlink name x).0 ≡ ok false) (sym (iface_exists-reads name w)) h;
  }

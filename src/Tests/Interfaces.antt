-- ===== src/Tests/Interfaces.antt =====
-- The network service over a host with at most one interface.
use flintlock.Prelude.{
  ◌≡◌, ◌≢◌, refl, subst, ◌⊎◌, inl, inr, arith, ℕ, zero, suc, String, true, false, List, [], ◌∷◌,
  Option, none, some, str_eq, Bool-cases, if◌then◌else◌,
}
use flintlock.Prelude.Int.{pos}
use flintlock.Outcome.{Outcome, ok, fail, external, panic, Fault, nil_dereference}
use flintlock.Models.Volumes.{is_some}
use flintlock.Models.Network.{tap, macvtap}
use flintlock.Ports.{IfaceCreateInput}
use flintlock.Steps.Settle.{HasInterfaces}
use flintlock.Network.Netlink.{Netlink, Link, other_link}
use flintlock.Network.Names.{device_prefix, new_iface_name}
use flintlock.Network.Names.Free.{IsFree, new_iface_name-IsFree}
use flintlock.Network.Service.{NetworkConfig, iface_create}
use flintlock.Network.Service.Presence.{NetlinkLaws}
use flintlock.Network.Service.NoPanic.{IsCalm, iface_create-NoPanic}
use flintlock.Network.Service.Interfaces.{with_network, network_service-HasInterfaces}
use flintlock.Tests.Host.{ports, Host}

abbrev Slot : Type 0
Slot = Option (Link (Unit {0}))

abbrev zeros : ℕ → List ℕ
zeros zero = []
zeros (suc n) = 0 ∷ zeros n

abbrev look : String → Slot → Outcome (Link (Unit {0}))
look name none = fail (external 19)
look name (some link) = if str_eq link.attrs.name name then ok link else fail (external 19)

abbrev small_netlink : {W : Type 0} → (W → Slot) → (Slot → W → W) → Netlink W (Unit {0})
small_netlink get put = record {
  link_by_name = λ name w. (look name (get w), w);
  link_add = λ link w. (ok tt, put (some link) w);
  link_set_up = λ link w. (ok tt, w);
  link_set_master = λ link parent w. (ok tt, w);
  link_del = λ link w. (ok tt, put none w);
  is_link_not_found = λ e. false;
  says_not_found = λ e. true;
  parse_mac = λ mac. none;
  read_random = λ n w. (ok (zeros n), w);
}

abbrev one_link : Netlink Slot (Unit {0})
one_link = small_netlink (λ w. w) (λ link w. link)

look-cases :
    (name : String) (w : Slot)
    → ((link : Link (Unit {0})) × (look name w ≡ ok link)) ⊎ (look name w ≡ fail (external 19))
look-cases name none = inr refl
look-cases name (some link) = elim (Bool-cases (str_eq link.attrs.name name)) [
  | inl e ↦ inl (link, rw e refl)
  | inr e ↦ inr (rw e refl)
]

module _ {W : Type 0} (get : W → Slot) (put : Slot → W → W)
    (cleared : (w : W) → get (put none w) ≡ none) where
  abbrev found_at : (name : String) (w : W) → Outcome (Link (Unit {0})) × W
  found_at name w = (look name (get w), w)

  small_netlink-NetlinkLaws : NetlinkLaws (small_netlink get put)
  small_netlink-NetlinkLaws = record {
    lookup = λ name w. elim (look-cases name (get w)) [
      | inl (link, e) ↦ inl (link, λ i. (e i, w))
      | inr e ↦ inr (external 19, (λ i. (e i, w)), refl)
    ];
    up_keeps = λ name link other w u h k. (other, still name other w u h (λ i. (k i).1));
    master_keeps = λ name link other parent w u h k. (other, still name other w u h (λ i. (k i).1));
    del_removes = λ name link w u h k. (external 19, gone name w u (λ i. (k i).1), refl);
  }
    where
      still :
          (name : String) (other : Link (Unit {0})) (w u : W)
          → found_at name w ≡ (ok other, w)
          → w ≡ u
          → found_at name u ≡ (ok other, u)
      still name other w u h e = subst (λ x. found_at name x ≡ (ok other, x)) e h

      gone : (name : String) (w u : W) → put none w ≡ u → found_at name u ≡ (fail (external 19), u)
      gone name w u e =
          subst (λ x. found_at name x ≡ (fail (external 19), x)) e
            (λ i. (look name (cleared w i), put none w))

abbrev bridged : NetworkConfig
bridged = record { parent_device_name = "eth0"; bridge_name = "br0" }

abbrev first_name : String
first_name = "fltap0000000"

chooses : new_iface_name one_link tap none ≡ (ok first_name, none)
unfolding new_iface_name
chooses = refl

new_iface_name-IsFree_example :
    (dev_prefix : String) × (device_prefix tap ≡ ok dev_prefix)
    × IsFree one_link dev_prefix first_name none
new_iface_name-IsFree_example = new_iface_name-IsFree one_link tap first_name none none chooses

look-no_panic : (name : String) (w : Slot) (fault : Fault) → look name w ≢ panic fault
look-no_panic name none fault = λ e. cc
look-no_panic name (some link) fault = λ e. ground arith

one_link-IsCalm : IsCalm one_link
one_link-IsCalm = record {
  lookup_calm = λ name w fault. look-no_panic name w fault;
  add_calm = λ link w fault e. cc;
  up_calm = λ link w fault e. cc;
  master_calm = λ link parent w fault e. cc;
}

abbrev asked_for : IfaceCreateInput
asked_for = record {
  device_name = first_name;
  type = macvtap;
  mac = "AA:FF:00:00:00:02";
  attach = true;
  bridge_name = "";
}

abbrev parent : Link (Unit {0})
parent = record {
  kind = other_link;
  attrs = record {
    name = "eth0";
    mtu = pos 1500;
    index = pos 2;
    parent_index = pos 0;
    namespace = none;
    tx_q_len = pos 1000;
    hardware_addr = 170 ∷ 255 ∷ [];
  };
}

iface_create-NoPanic_example :
    (iface_create one_link bridged asked_for (some parent)).0 ≢ panic nil_dereference
iface_create-NoPanic_example =
    iface_create-NoPanic one_link one_link-IsCalm bridged asked_for (some parent) nil_dereference

-- the small host's one interface
abbrev slot_of : Host → Slot
slot_of w = if w.interface then some parent else none

abbrev put_slot : Slot → Host → Host
put_slot link w = record w { interface = is_some link }

abbrev host_netlink : Netlink Host (Unit {0})
host_netlink = small_netlink slot_of put_slot

host_netlink-NetlinkLaws : NetlinkLaws host_netlink
host_netlink-NetlinkLaws = small_netlink-NetlinkLaws slot_of put_slot λ w. refl

network_service-HasInterfaces_example :
    HasInterfaces (with_network host_netlink host_netlink-NetlinkLaws bridged ports)
network_service-HasInterfaces_example =
    network_service-HasInterfaces host_netlink host_netlink-NetlinkLaws bridged ports

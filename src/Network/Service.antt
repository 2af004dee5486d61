-- ===== src/Network/Service.antt =====
-- infrastructure/network/network_service.go: the service for the host's network interfaces.
pub mod Presence
pub mod NoPanic
pub mod Interfaces
use Prim.Native.Char.{Char, code}
use Prim.Native.Nat.{◌/◌}
use flintlock.Prelude.{
  ℕ, ◌%◌, String, Bool, true, false, ◌&&◌, List, [], ◌∷◌, Option, none, some, is_empty,
  if◌then◌else◌,
}
use flintlock.Prelude.Int.{pos}
use flintlock.Prelude.Decimal.{char_at}
use flintlock.Outcome.{
  Outcome, ok, fail, panic, nil_dereference, unsupported_interface, iface_not_found,
  parent_iface_required_for_macvtap, parent_iface_required_for_attaching_tap,
}
use flintlock.Io.{Io, ◌>>=◌, ◌>>◌, pure, throw, lift, fail_if, branch}
use flintlock.Models.Network.{
  IfaceType, tap, macvtap, unsupported, other_iface_type, is_tap, is_macvtap,
}
use flintlock.Ports.{IfaceCreateInput, IfaceDetails, NetworkService}
use flintlock.Models.Volumes.{is_some}
use flintlock.Network.Netlink.{
  Netlink, Link, LinkAttrs, LinkKind, tuntap_link, macvtap_link, other_link,
}

-- networkService
pub record NetworkConfig : Type 0 where
  pub parent_device_name : String
  pub bridge_name : String

-- the upper-case hexadecimal digit of a number below 16
abbrev upper_digit : ℕ → Char
upper_digit n = char_at "0123456789ABCDEF" n

-- strings.ToUpper of HardwareAddr.String
unfoldable pub upper_mac : List ℕ → String
upper_mac [] = ""
upper_mac (byte ∷ []) =
    String.◌∷◌ (upper_digit (byte / 16)) (String.◌∷◌ (upper_digit (byte % 16)) "")
upper_mac (byte ∷ rest) =
    String.◌∷◌ (upper_digit (byte / 16))
      (String.◌∷◌ (upper_digit (byte % 16)) (String.◌∷◌ ":" (upper_mac rest)))

-- string(input.Type)
abbrev type_text : IfaceType → String
type_text tap = "tap"
type_text macvtap = "macvtap"
type_text unsupported = "unsupported"
type_text (other_iface_type name) = name

-- getParentIfaceName
unfoldable pub get_parent_iface_name : NetworkConfig → IfaceCreateInput → String
get_parent_iface_name config input =
    if is_macvtap input.type
    then config.parent_device_name
    else if is_empty input.bridge_name
    then config.bridge_name
    else input.bridge_name

-- the type of a link that was found
unfoldable pub type_of_link : LinkKind → IfaceType
type_of_link macvtap_link = macvtap
type_of_link tuntap_link = tap
type_of_link other_link = unsupported

module _ {W N : Type 0} (netlink : Netlink W N) where
  abbrev mac_bytes : String → List ℕ
  mac_bytes mac =
      if is_empty mac then [] else elim (netlink.parse_mac mac) [ none ↦ [] | some addr ↦ addr ]

  abbrev plain_attrs : String → LinkAttrs N
  plain_attrs name = record {
    name = name;
    mtu = pos 0;
    index = pos 0;
    parent_index = pos 0;
    namespace = none;
    tx_q_len = pos 0;
    hardware_addr = [];
  }

  abbrev macvtap_attrs : IfaceCreateInput → LinkAttrs N → LinkAttrs N
  macvtap_attrs input parent = record {
    name = input.device_name;
    mtu = parent.mtu;
    index = pos 0;
    parent_index = parent.index;
    namespace = parent.namespace;
    tx_q_len = parent.tx_q_len;
    hardware_addr = mac_bytes input.mac;
  }

  -- The link that IfaceCreate asks for. A hardware address that does not parse is left out, since
  -- the test after `net.ParseMAC` is of another error.
  unfoldable pub requested_link : IfaceCreateInput → Option (Link N) → IfaceType → Outcome (Link N)
  requested_link input parent tap =
      ok (record { kind = tuntap_link; attrs = plain_attrs input.device_name })
  requested_link input parent macvtap = elim parent [
    | none ↦ panic nil_dereference
    | some link ↦ ok (record { kind = macvtap_link; attrs = macvtap_attrs input link.attrs })
  ]
  requested_link input parent unsupported = fail (unsupported_interface (type_text unsupported))
  requested_link input parent (other_iface_type name) = fail (unsupported_interface name)

  -- the parent's link, where there is a parent
  unfoldable pub parent_link : String → Io W (Option (Link N))
  parent_link name =
      if is_empty name then pure none else (do link ← netlink.link_by_name name; pure (some link))

  -- the two tests of the name of the parent
  unfoldable pub check_parent : String → IfaceCreateInput → Io W (Unit {0})
  check_parent name input = do
    fail_if (is_empty name && is_macvtap input.type) parent_iface_required_for_macvtap
    fail_if (is_empty name && is_tap input.type && input.attach)
        parent_iface_required_for_attaching_tap

  -- the end of IfaceCreate, from LinkAdd on
  unfoldable pub add_link : IfaceCreateInput → Option (Link N) → Link N → Io W IfaceDetails
  unfolding upper_mac
  add_link input parent link = do
    netlink.link_add link
    created ← netlink.link_by_name link.attrs.name
    netlink.link_set_up created
    if is_tap input.type && input.attach then netlink.link_set_master created parent else pure tt
    pure (record {
      device_name = input.device_name;
      type = input.type;
      mac = upper_mac created.attrs.hardware_addr;
      index = created.attrs.index;
    })

  -- IfaceCreate
  unfoldable pub iface_create : NetworkConfig → IfaceCreateInput → Io W IfaceDetails
  unfolding get_parent_iface_name check_parent parent_link requested_link add_link
  iface_create config input = do
    check_parent (get_parent_iface_name config input) input
    parent ← parent_link (get_parent_iface_name config input)
    link ← lift (requested_link input parent input.type)
    add_link input parent link

  -- IfaceDelete: any error of the lookup but the one named is read as an interface that is not there.
  unfoldable pub iface_delete : String → Io W (Unit {0})
  iface_delete name =
      branch (netlink.link_by_name name)
        (λ e. if netlink.is_link_not_found e then throw e else pure tt) netlink.link_del

  -- getIface, likewise
  unfoldable pub get_iface : String → Io W (Option (Link N))
  get_iface name =
      branch (netlink.link_by_name name)
        (λ e. if netlink.is_link_not_found e then throw e else pure none) (λ link. pure (some link))

  -- IfaceExists
  unfoldable pub iface_exists : String → Io W Bool
  unfolding get_iface
  iface_exists name = do found ← get_iface name; pure (is_some found)

  abbrev details_of : String → Option (Link N) → Io W IfaceDetails
  details_of name none = throw iface_not_found
  details_of name (some link) = pure (record {
    device_name = name;
    type = type_of_link link.kind;
    mac = upper_mac link.attrs.hardware_addr;
    index = link.attrs.index;
  })

  -- IfaceDetails
  unfoldable pub iface_details : String → Io W IfaceDetails
  unfolding get_iface type_of_link upper_mac
  iface_details name = do found ← get_iface name; details_of name found

  -- the service that the core calls
  abbrev pub network_service : NetworkConfig → NetworkService W
  network_service config = record {
    iface_create = iface_create config;
    iface_delete = iface_delete;
    iface_exists = iface_exists;
    iface_details = iface_details;
  }

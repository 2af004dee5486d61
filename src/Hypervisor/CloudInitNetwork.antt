-- ===== src/Hypervisor/CloudInitNetwork.antt =====
-- infrastructure/microvm/shared/network.go, with client/cloudinit/network: the network data of cloud-init.
use flintlock.Prelude.{
  ℕ, String, Bool, true, false, List, [], ◌∷◌, Option, none, some, is_empty, if◌then◌else◌,
}
use flintlock.Prelude.Dict.{Dict, lookup, insert}
use flintlock.Outcome.{Outcome, ok, fail, network_interface_status_missing, ◌>>=◌}
use flintlock.Models.Network.{
  NetworkInterface, NetworkInterfaceStatus, StaticAddress, is_macvtap, is_ipv4, ip,
}
use flintlock.Models.Microvm.{Microvm}

-- network.Ethernet; of a match only one of the two is set
pub record Ethernet : Type 0 where
  pub match_mac_address : String
  pub match_name : String
  pub addresses : List String
  pub gateway_ipv4 : String
  pub gateway_ipv6 : String
  pub dhcp4 : Bool
  pub dhcp6 : Bool
  pub dhcp_identifier : String
  pub nameservers : List String

-- network.Network, whose version is always 2
pub record Network : Type 0 where
  pub version : ℕ
  pub ethernet : Dict Ethernet

-- yaml.Marshal and base64
pub record NetworkEncoding : Type 0 where
  pub marshal : Network → Outcome String
  pub encode_base64 : String → String

-- getMacAddress
unfoldable pub get_mac_address : NetworkInterface → NetworkInterfaceStatus → String
get_mac_address iface status = if is_macvtap iface.type then status.mac_address else iface.guest_mac

-- the look-up of an interface's status, in a map that may be nil
unfoldable pub status_of : NetworkInterface → Microvm → Outcome NetworkInterfaceStatus
unfolding lookup
status_of iface vm = elim vm.status.network_interfaces [
  | none ↦ fail (network_interface_status_missing iface.guest_device_name)
  | some statuses ↦ elim (lookup iface.guest_device_name statuses) [
    | none ↦ fail (network_interface_status_missing iface.guest_device_name)
    | some status ↦ ok status
  ]
]

abbrev dhcp_ethernet : NetworkInterface → String → Ethernet
dhcp_ethernet iface mac_address = record {
  match_mac_address = mac_address;
  match_name = if is_empty mac_address then iface.guest_device_name else "";
  addresses = [];
  gateway_ipv4 = "";
  gateway_ipv6 = "";
  dhcp4 = true;
  dhcp6 = true;
  dhcp_identifier = "mac";
  nameservers = [];
}

module _ (parse_cidr : String → Outcome Bool) where
  unfoldable pub set_gateway : Option String → Ethernet → Outcome Ethernet
  unfolding is_ipv4 ip
  set_gateway none eth = ok eth
  set_gateway (some gateway) eth = do
    four ← is_ipv4 parse_cidr gateway
    address ← ip parse_cidr gateway
    ok (
        if four
        then record eth { gateway_ipv4 = address }
        else record eth { gateway_ipv6 = address })

  -- configureStaticEthernet
  unfoldable pub configure_static_ethernet : StaticAddress → Ethernet → Outcome Ethernet
  unfolding set_gateway
  configure_static_ethernet static eth = do
    routed ← set_gateway static.gateway (record eth { addresses = static.address ∷ [] })
    ok (record routed { nameservers = static.nameservers; dhcp4 = false; dhcp6 = false })

  abbrev static_or_dhcp : Option StaticAddress → Ethernet → Outcome Ethernet
  static_or_dhcp none eth = ok eth
  static_or_dhcp (some static) eth = configure_static_ethernet static eth

  -- the loop of GenerateNetworkConfig
  unfoldable pub ethernets :
      Microvm → List NetworkInterface → Dict Ethernet → Outcome (Dict Ethernet)
  unfolding status_of get_mac_address configure_static_ethernet insert
  ethernets vm [] found = ok found
  ethernets vm (iface ∷ rest) found = do
    status ← status_of iface vm
    eth ← static_or_dhcp iface.static_address (dhcp_ethernet iface (get_mac_address iface status))
    ethernets vm rest (insert iface.guest_device_name eth found)

  -- GenerateNetworkConfig
  unfoldable pub generate_network_config : NetworkEncoding → Microvm → Outcome String
  unfolding ethernets
  generate_network_config enc vm = do
    found ← ethernets vm vm.spec.network_interfaces []
    text ← enc.marshal (record { version = 2; ethernet = found })
    ok (enc.encode_base64 text)

-- ===== src/Models/Network.antt =====
-- core/models/network.go. `net.ParseCIDR` is not part of the repository: what it returns for a
-- text, an error or whether the address is an IPv4 one, is a parameter.
use Prim.Native.Char.{code}
use flintlock.Prelude.{ℕ, String, Bool, true, false, ◌&&◌, ◌||◌, ◌==◌, List, Option, if◌then◌else◌}
use flintlock.Prelude.Int.{ℤ}
use flintlock.Prelude.Dict.{Dict}
use flintlock.Outcome.{Outcome, ok, ◌>>=◌}

abbrev pub IpAddressCidr : Type 0
IpAddressCidr = String

pub record StaticAddress : Type 0 where
  pub address : IpAddressCidr
  pub gateway : Option IpAddressCidr
  pub nameservers : List String

-- IfaceType is a string: the three constants, or any other text.
pub data IfaceType : Type 0 where
  tap macvtap unsupported : IfaceType
  other_iface_type : String → IfaceType

pub record NetworkInterface : Type 0 where
  pub guest_device_name : String
  pub allow_metadata_requests : Bool
  pub guest_mac : String
  pub type : IfaceType
  pub static_address : Option StaticAddress
  pub bridge_name : String

pub record NetworkInterfaceStatus : Type 0 where
  pub host_device_name : String
  pub index : ℤ  -- int
  pub mac_address : String

abbrev pub NetworkInterfaceStatuses : Type 0
NetworkInterfaceStatuses = Dict NetworkInterfaceStatus

-- models.NetworkInterfaceStatus{}
abbrev pub zero_interface_status : NetworkInterfaceStatus
zero_interface_status = record { host_device_name = ""; index = ℤ.pos 0; mac_address = "" }

abbrev pub is_tap : IfaceType → Bool
is_tap tap = true
is_tap _ = false

abbrev pub is_macvtap : IfaceType → Bool
is_macvtap macvtap = true
is_macvtap _ = false

-- strings.Contains(s, c) and s[:strings.Index(s, c)] for one ASCII character
abbrev pub contains_char : ℕ → String → Bool
contains_char k String.[] = false
contains_char k (String.◌∷◌ c s) = code c == k || contains_char k s

abbrev pub before_char : ℕ → String → String
before_char k String.[] = ""
before_char k (String.◌∷◌ c s) = if code c == k then "" else String.◌∷◌ c (before_char k s)

module _ (parse_cidr : String → Outcome Bool) where
  -- IsIPv4
  unfoldable pub is_ipv4 : IpAddressCidr → Outcome Bool
  is_ipv4 i = do four ← parse_cidr i; ok (four && contains_char b'.' i)

  -- IP: an accepted text has a slash
  unfoldable pub ip : IpAddressCidr → Outcome String
  ip i = do four ← parse_cidr i; ok (before_char b'/' i)

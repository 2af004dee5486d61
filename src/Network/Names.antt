-- ===== src/Network/Names.antt =====
-- infrastructure/network/utils.go: the choice of a name for a new interface.
pub mod Free
use Prim.Native.Char.{Char}
use Prim.Native.String.{◌++◌ as ◌+++◌}
use Prim.Native.Nat.{◌/◌}
use flintlock.Prelude.{ℕ, zero, suc, ◌%◌, String, Bool, List, [], ◌∷◌, if◌then◌else◌}
use flintlock.Prelude.Decimal.{char_at}
use flintlock.Outcome.{
  Outcome, ok, fail, panic, no_fuel, iface_name_failed, index_out_of_range, ◌>>=◌,
}
use flintlock.Io.{Io, branch, pure, throw, lift}
use flintlock.Io
use flintlock.Models.Network.{IfaceType, tap, macvtap, unsupported, other_iface_type}
use flintlock.Network.Netlink.{Netlink}

abbrev pub iface_length : ℕ
iface_length = 7

abbrev pub retry_generate : ℕ
retry_generate = 5

abbrev pub random_bytes_length : ℕ
random_bytes_length = 32

abbrev pub prefix : String
prefix = "fl"

abbrev pub tap_prefix : String
tap_prefix = "tap"

abbrev pub macvtap_prefix : String
macvtap_prefix = "vtap"

-- hextable[n] of encoding/hex
abbrev hex_digit : ℕ → Char
hex_digit n = char_at "0123456789abcdef" n

-- hex.EncodeToString
unfoldable pub encode_to_string : List ℕ → String
encode_to_string [] = ""
encode_to_string (byte ∷ rest) =
    String.◌∷◌ (hex_digit (byte / 16)) (String.◌∷◌ (hex_digit (byte % 16)) (encode_to_string rest))

-- s[:n] of a text of one-byte characters: a shorter text is a panic
unfoldable pub take_bytes : ℕ → String → Outcome String
take_bytes zero s = ok ""
take_bytes (suc n) String.[] = panic index_out_of_range
take_bytes (suc n) (String.◌∷◌ c s) = do rest ← take_bytes n s; ok (String.◌∷◌ c rest)

-- the part of a device's name that says its type
unfoldable pub device_prefix : IfaceType → Outcome String
device_prefix tap = ok (prefix +++ tap_prefix)
device_prefix macvtap = ok (prefix +++ macvtap_prefix)
device_prefix unsupported = fail iface_name_failed
device_prefix (other_iface_type name) = fail iface_name_failed

module _ {W N : Type 0} (netlink : Netlink W N) where
  -- generateRandomName
  unfoldable pub generate_random_name : String → Io W String
  unfolding encode_to_string take_bytes
  generate_random_name dev_prefix =
      branch (netlink.read_random random_bytes_length) (λ e. throw iface_name_failed)
        (λ id.
          branch (lift (take_bytes iface_length (encode_to_string id))) throw
            λ suffix. pure (dev_prefix +++ suffix))

  -- the loop of NewIfaceName, with the number of its rounds that are left
  unfoldable pub try_names : ℕ → String → Io W String
  unfolding generate_random_name
  try_names zero dev_prefix = throw iface_name_failed
  try_names (suc n) dev_prefix =
      let next = try_names n dev_prefix in
      branch (generate_random_name dev_prefix) (λ e. next)
        λ name.
          branch (netlink.link_by_name name)
            (λ e. if netlink.says_not_found e then pure name else throw iface_name_failed)
            (λ link. next)

  -- NewIfaceName
  unfoldable pub new_iface_name : IfaceType → Io W String
  unfolding device_prefix try_names
  new_iface_name type = branch (lift (device_prefix type)) throw (try_names retry_generate)

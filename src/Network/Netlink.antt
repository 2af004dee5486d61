-- ===== src/Network/Netlink.antt =====
-- What infrastructure/network uses of the netlink library and of the kernel behind it, as operations
-- on a world `W`. The master of `link_set_master` may be nil. `N` is what the library says of an interface's namespace.
use flintlock.Prelude.{ℕ, String, Bool, List, Option}
use flintlock.Prelude.Int.{ℤ}
use flintlock.Outcome.{Error}
use flintlock.Io.{Io}

-- the types of link that the service tells apart
pub data LinkKind : Type 0 where
  tuntap_link macvtap_link other_link : LinkKind

-- A hardware address is its bytes; none is the empty list.
pub record LinkAttrs (N : Type 0) : Type 0 where
  pub name : String
  pub mtu : ℤ
  pub index : ℤ
  pub parent_index : ℤ
  pub namespace : Option N
  pub tx_q_len : ℤ
  pub hardware_addr : List ℕ

pub record Link (N : Type 0) : Type 0 where
  pub kind : LinkKind
  pub attrs : LinkAttrs N

-- `is_link_not_found e` is `errors.Is(e, netlink.LinkNotFoundError{})`, and `says_not_found e` whether
-- the text of `e` contains "not found". `parse_mac` gives none for an error of `net.ParseMAC`, and
-- `read_random n` is `io.ReadFull` of `n` bytes from the random reader.
pub record Netlink (W N : Type 0) : Type 0 where
  pub link_by_name : String → Io W (Link N)
  pub link_add : Link N → Io W (Unit {0})
  pub link_set_up : Link N → Io W (Unit {0})
  pub link_set_master : Link N → Option (Link N) → Io W (Unit {0})
  pub link_del : Link N → Io W (Unit {0})
  pub is_link_not_found : Error → Bool
  pub says_not_found : Error → Bool
  pub parse_mac : String → Option (List ℕ)
  pub read_random : ℕ → Io W (List ℕ)

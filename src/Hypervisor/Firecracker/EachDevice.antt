-- ===== src/Hypervisor/Firecracker/EachDevice.antt =====
-- createNetworkIface and the block devices of infrastructure/microvm/firecracker/config.go.
use Prim.Native.String.{◌++◌ as ◌+++◌}
use flintlock.Prelude.{
  ◌≡◌, ◌≢◌, refl, subst, arith, Bool, true, false, List, [], ◌∷◌, some, is_empty,
}
use flintlock.Outcome.{ok, ok-injective, >>=-eq-ok}
use flintlock.Models.Volumes.{Volume, VolumeStatus}
use flintlock.Models.Network.{
  NetworkInterface, NetworkInterfaceStatus, IfaceType, tap, macvtap, unsupported, other_iface_type,
  is_macvtap,
}
use flintlock.Models.Microvm.{Microvm}
use flintlock.Steps.Status.{map_get}
use flintlock.Hypervisor.CloudInitNetwork.{status_of}
use flintlock.Hypervisor.Firecracker.{
  BlockDeviceConfig, NetworkInterfaceConfig, create_network_iface, net_devices_of, volume_status_of,
  block_device, block_devices_of, int_text,
}

-- The drive is of the volume: on the source that the volume's status in the microvm holds.
pub record IsDrive (is_root : Bool) (vm : Microvm) (v : Volume) (d : BlockDeviceConfig)
    : Type 0 where
  pub status : VolumeStatus
  pub is_mounted : map_get v.id vm.status.volumes ≡ some status
  pub same_id : d.id ≡ v.id
  pub at_source : d.path_on_host ≡ status.mount.source
  pub same_root : d.is_root_device ≡ is_root
  pub same_mode : d.is_read_only ≡ v.is_read_only
  pub cached : d.cache_type ≡ "Unsafe"

-- The device is of the interface: a macvtap is opened at its index and, without a MAC address of its
-- own, has that of the status; any other has the name of the host's device and its own address.
pub record IsDevice (vm : Microvm) (n : NetworkInterface) (d : NetworkInterfaceConfig)
    : Type 0 where
  pub status : NetworkInterfaceStatus
  pub is_known : map_get n.guest_device_name vm.status.network_interfaces ≡ some status
  pub same_id : d.iface_id ≡ n.guest_device_name
  pub macvtap_host : n.type ≡ macvtap → d.host_dev_name ≡ "/dev/tap" +++ int_text status.index
  pub other_host : n.type ≢ macvtap → d.host_dev_name ≡ status.host_device_name
  pub own_mac : is_empty n.guest_mac ≡ false → d.guest_mac ≡ n.guest_mac
  pub macvtap_mac :
      n.type ≡ macvtap → is_empty n.guest_mac ≡ true → d.guest_mac ≡ status.mac_address
  pub other_mac : n.type ≢ macvtap → d.guest_mac ≡ n.guest_mac

-- One drive for each volume, in order; the first can be the root.
abbrev pub Drives : Bool → Microvm → List Volume → List BlockDeviceConfig → Type 0
Drives is_root vm [] [] = Unit
Drives is_root vm [] (d ∷ ds) = ⊥
Drives is_root vm (v ∷ vs) [] = ⊥
Drives is_root vm (v ∷ vs) (d ∷ ds) = IsDrive is_root vm v d × Drives false vm vs ds

-- One device for each interface, in order.
abbrev pub NetDevices : Microvm → List NetworkInterface → List NetworkInterfaceConfig → Type 0
NetDevices vm [] [] = Unit
NetDevices vm [] (d ∷ ds) = ⊥
NetDevices vm (n ∷ ns) [] = ⊥
NetDevices vm (n ∷ ns) (d ∷ ds) = IsDevice vm n d × NetDevices vm ns ds

volume_status_of-map_get :
    (v : Volume) (vm : Microvm) (status : VolumeStatus)
    → volume_status_of v vm ≡ ok status
    → map_get v.id vm.status.volumes ≡ some status
unfolding volume_status_of
volume_status_of-map_get v vm status h = ground arith

status_of-map_get :
    (n : NetworkInterface) (vm : Microvm) (status : NetworkInterfaceStatus)
    → status_of n vm ≡ ok status
    → map_get n.guest_device_name vm.status.network_interfaces ≡ some status
unfolding status_of
status_of-map_get n vm status h = ground arith

pub block_device-IsDrive :
    (is_root : Bool) (vm : Microvm) (v : Volume) (status : VolumeStatus)
    → volume_status_of v vm ≡ ok status
    → IsDrive is_root vm v (block_device is_root v status)
unfolding block_device
block_device-IsDrive is_root vm v status h = record {
  status = status;
  is_mounted = volume_status_of-map_get v vm status h;
  same_id = refl;
  at_source = refl;
  same_root = refl;
  same_mode = refl;
  cached = refl;
}

not_macvtap : (type : IfaceType) → type ≢ macvtap → is_macvtap type ≡ false
not_macvtap tap h = refl
not_macvtap macvtap h = absurd (h refl)
not_macvtap unsupported h = refl
not_macvtap (other_iface_type t) h = refl

create_network_iface-IsDevice :
    (vm : Microvm) (n : NetworkInterface) (status : NetworkInterfaceStatus)
    → status_of n vm ≡ ok status
    → IsDevice vm n (create_network_iface n status)
unfolding create_network_iface
create_network_iface-IsDevice vm n status h = record {
  status = status;
  is_known = status_of-map_get n vm status h;
  same_id = refl;
  macvtap_host = λ e. rw e refl;
  other_host = λ e. rw (not_macvtap n.type e) refl;
  own_mac = λ given. ground (arith, given);
  macvtap_mac = λ e missing. rw (e, missing) refl;
  other_mac = λ e. rw (not_macvtap n.type e) refl;
}

pub block_devices_of-Drives :
    (vm : Microvm) (vs : List Volume) (ds : List BlockDeviceConfig)
    → block_devices_of vm vs ≡ ok ds
    → Drives false vm vs ds
unfolding block_devices_of
block_devices_of-Drives vm [] ds h = subst (Drives false vm []) (ok-injective [] ds h) tt
block_devices_of-Drives vm (v ∷ vs) ds h =
    let (status, found, h1) = >>=-eq-ok (volume_status_of v vm) _ ds h in
    let (rest, more, h2) = >>=-eq-ok (block_devices_of vm vs) _ ds h1 in
    subst (Drives false vm (v ∷ vs)) (ok-injective (block_device false v status ∷ rest) ds h2)
      (block_device-IsDrive false vm v status found, block_devices_of-Drives vm vs rest more)

pub net_devices_of-NetDevices :
    (vm : Microvm) (ns : List NetworkInterface) (ds : List NetworkInterfaceConfig)
    → net_devices_of vm ns ≡ ok ds
    → NetDevices vm ns ds
unfolding net_devices_of
net_devices_of-NetDevices vm [] ds h = subst (NetDevices vm []) (ok-injective [] ds h) tt
net_devices_of-NetDevices vm (n ∷ ns) ds h =
    let (status, found, h1) = >>=-eq-ok (status_of n vm) _ ds h in
    let (rest, more, h2) = >>=-eq-ok (net_devices_of vm ns) _ ds h1 in
    subst (NetDevices vm (n ∷ ns)) (ok-injective (create_network_iface n status ∷ rest) ds h2)
      (create_network_iface-IsDevice vm n status found, net_devices_of-NetDevices vm ns rest more)

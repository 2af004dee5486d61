-- ===== src/Steps/Network.antt =====
-- core/steps/network: creating and deleting the host's interface of a microvm.
use flintlock.Prelude.{
  String, Bool, true, false, not, ◌&&◌, Option, none, some, is_empty, if◌then◌else◌,
}
use flintlock.Outcome.{
  ok, fail, panic, no_fuel, guest_device_name_required, missing_status_info, delete_iface_failed,
}
use flintlock.Io.{Io, ◌>>=◌, ◌>>◌, pure, throw}
use flintlock.Ports.{Session, on_world, Collection, IfaceCreateInput, IfaceDetails}
use flintlock.Models.Network.{NetworkInterface, NetworkInterfaceStatus, is_tap}
use flintlock.Steps.Status.{interface_status, put_interface_status}

abbrev pub host_name : Option NetworkInterfaceStatus → String
host_name none = ""
host_name (some status) = status.host_device_name

-- the error of `IfaceDelete` is not wrapped but replaced: the code wraps another, nil, error
abbrev replace_delete_error : {S : Type 0} → Io S (Unit {0}) → Io S (Unit {0})
replace_delete_error m s = elim (m s).0 [
  | ok u ↦ (ok tt, (m s).1)
  | fail e ↦ (fail delete_iface_failed, (m s).1)
  | panic f ↦ (panic f, (m s).1)
  | no_fuel ↦ (no_fuel, (m s).1)
]

module _ {W : Type 0} (ports : Collection W) where
  -- createInterface.ShouldDo
  unfoldable pub create_interface_should_do : NetworkInterface → Io (Session W) Bool
  create_interface_should_do iface = do
    status ← interface_status iface.guest_device_name
    if is_empty (host_name status) then pure true else do
      exists ← on_world (ports.network_service.iface_exists (host_name status))
      pure (not exists)

  -- The name that is in the status, or a new one, which is written there at once.
  unfoldable pub ensure_host_name :
      NetworkInterface → NetworkInterfaceStatus → Io (Session W) String
  unfolding put_interface_status
  ensure_host_name iface status =
      if is_empty status.host_device_name
      then (do
        name ← on_world (ports.new_iface_name iface.type)
        put_interface_status iface.guest_device_name (record status { host_device_name = name })
        pure name)
      else pure status.host_device_name

  -- the arguments of IfaceCreate
  unfoldable pub create_input : NetworkInterface → String → IfaceCreateInput
  create_input iface device_name = record {
    device_name = device_name;
    type = iface.type;
    mac = iface.guest_mac;
    attach = not (is_tap iface.type && iface.allow_metadata_requests);
    bridge_name = iface.bridge_name;
  }

  -- the three writes to the status at the end of both branches
  unfoldable pub record_details :
      NetworkInterface → String → IfaceDetails → Io (Session W) (Unit {0})
  unfolding put_interface_status
  record_details iface device_name details =
      put_interface_status iface.guest_device_name (record {
        host_device_name = device_name;
        index = details.index;
        mac_address = details.mac;
      })

  -- createInterface.Do, after the tests of the arguments
  unfoldable pub create_interface_with :
      NetworkInterface → Option NetworkInterfaceStatus → Io (Session W) (Unit {0})
  unfolding ensure_host_name create_input record_details
  create_interface_with iface none = throw missing_status_info
  create_interface_with iface (some status) = do
    device_name ← ensure_host_name iface status
    exists ← on_world (ports.network_service.iface_exists device_name)
    details ←
        if exists
        then on_world (ports.network_service.iface_details device_name)
        else on_world (ports.network_service.iface_create (create_input iface device_name))
    record_details iface device_name details

  unfoldable pub create_interface_do : NetworkInterface → Io (Session W) (Unit {0})
  unfolding create_interface_with
  create_interface_do iface =
      if is_empty iface.guest_device_name then throw guest_device_name_required else (do
        status ← interface_status iface.guest_device_name
        create_interface_with iface status)

  -- deleteInterface.ShouldDo; the step is known by the key of its status
  unfoldable pub delete_interface_should_do : String → Io (Session W) Bool
  delete_interface_should_do guest = do
    status ← interface_status guest
    if is_empty (host_name status)
        then pure false
        else on_world (ports.network_service.iface_exists (host_name status))

  -- deleteInterface.Do
  unfoldable pub delete_interface_do : String → Io (Session W) (Unit {0})
  delete_interface_do guest = do
    status ← interface_status guest
    if is_empty (host_name status) then throw missing_status_info else do
      exists ← on_world (ports.network_service.iface_exists (host_name status))
      if exists
          then replace_delete_error
              (on_world (ports.network_service.iface_delete (host_name status)))
          else pure tt

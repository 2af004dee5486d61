-- ===== src/Steps/Settle/Services.antt =====
-- The steps of core/steps on the services of infrastructure/containerd, infrastructure/network and
-- infrastructure/virtiofs together.
use flintlock.Ports.{Collection}
use flintlock.Steps.Settle.{KeepsDirectories}
use flintlock.Steps.Settle.Steps.{KeepsPromises}
use flintlock.Containerd.Client.{LeaseManager}
use flintlock.Containerd.Images.{ImageClient, ImageConfig, image_service}
use flintlock.Containerd.Images.Mounted.{ImageLaws, KeepsSources, image_service-MountsImages}
use flintlock.Network.Netlink.{Netlink}
use flintlock.Network.Service.{NetworkConfig, network_service}
use flintlock.Network.Names.{new_iface_name}
use flintlock.Network.Service.Presence.{NetlinkLaws}
use flintlock.Network.Service.Interfaces.{network_service-HasInterfaces}
use flintlock.Hypervisor.Os.{Os}
use flintlock.Virtiofs.{VirtiofsConfig, virtiofs_service}
use flintlock.Virtiofs.Shares.{virtiofs_service-SharesDirectories}

module _ {W Image N : Type 0} (client : ImageClient W Image) (leases : LeaseManager W)
    (image_config : ImageConfig) (netlink : Netlink W N) (network_config : NetworkConfig)
    (os : Os W) (virtiofs_config : VirtiofsConfig) (ports : Collection W) where
  -- The ports with these services in them.
  abbrev pub with_services : Collection W
  with_services = record ports {
    image_service = image_service client leases image_config;
    virtiofs_service = virtiofs_service os virtiofs_config;
    network_service = network_service netlink network_config;
    new_iface_name = new_iface_name netlink;
  }

  -- Together they keep the promises of the steps, where the file system does, over what containerd
  -- and netlink document.
  pub with_services-KeepsPromises :
      ImageLaws client leases
      → KeepsSources image_config.snapshotter_kernel
      → KeepsSources image_config.snapshotter_volume
      → NetlinkLaws netlink
      → KeepsDirectories ports.file_system
      → KeepsPromises with_services
  with_services-KeepsPromises image_laws kernel volume netlink_laws directories = record {
    images = image_service-MountsImages client leases image_laws image_config kernel volume;
    shares = virtiofs_service-SharesDirectories os virtiofs_config;
    directories = directories;
    interfaces = network_service-HasInterfaces netlink netlink_laws network_config with_services;
  }

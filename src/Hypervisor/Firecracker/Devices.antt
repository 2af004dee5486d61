-- ===== src/Hypervisor/Firecracker/Devices.antt =====
-- The devices of a configuration are those of the microvm.
use Prim.Native.String.{◌++◌ as ◌+++◌}
use flintlock.Prelude.{
  ◌≡◌, refl, sym, ap, subst, ◌∙◌, String, Bool, true, false, [], ◌∷◌, Option, none, some,
  if◌then◌else◌,
}
use flintlock.Outcome.{Outcome, ok, ok-injective, >>=-eq-ok}
use flintlock.Models.Volumes.{Mount, is_some}
use flintlock.Models.Microvm.{Microvm}
use flintlock.Hypervisor.CloudInitNetwork.{NetworkEncoding}
use flintlock.Hypervisor.Firecracker.EachDevice.{
  Drives, NetDevices, block_device-IsDrive, block_devices_of-Drives, net_devices_of-NetDevices,
}
use flintlock.Hypervisor.Firecracker.{
  BootSourceConfig, VmmConfig, StatePaths, empty_config, create_config, apply_options,
  net_devices_of, volume_status_of, block_devices_of, source_of, initrd_path_of, kernel_args,
  boot_source_of, with_microvm, with_vsock, with_state,
}

-- What a configuration says of the microvm.
pub record HasDevices (vm : Microvm) (state : StatePaths) (cfg : VmmConfig) : Type 0 where
  pub drives : Drives true vm (vm.spec.root_volume ∷ vm.spec.additional_volumes) cfg.block_devices
  pub interfaces : NetDevices vm vm.spec.network_interfaces cfg.net_devices
  pub kernel :
      (mount : Mount) × (vm.status.kernel_mount ≡ some mount)
      × (cfg.boot_source.kernel_image_page ≡ mount.source +++ ("/" +++ vm.spec.kernel.filename))
  pub vsock : is_some cfg.vsock_device ≡ vm.spec.allow_guest_agent
  pub metrics_at : cfg.metrics ≡ some state.metrics_path

source_of-mount :
    (mount : Option Mount) (source : String)
    → source_of mount ≡ ok source
    → (m : Mount) × (mount ≡ some m) × (source ≡ m.source)
source_of-mount none source h = cc
source_of-mount (some m) source h = (m, refl, sym (ok-injective m.source source h))

module _ (parse_cidr : String → Outcome Bool) (enc : NetworkEncoding) where
  boot_source_of-kernel :
      (vm : Microvm) (boot : BootSourceConfig)
      → boot_source_of parse_cidr enc vm ≡ ok boot
      → (mount : Mount) × (vm.status.kernel_mount ≡ some mount)
        × (boot.kernel_image_page ≡ mount.source +++ ("/" +++ vm.spec.kernel.filename))
  unfolding boot_source_of
  boot_source_of-kernel vm boot h =
      let (args, a, h1) = >>=-eq-ok (kernel_args parse_cidr enc vm) _ boot h in
      let (source, b, h2) = >>=-eq-ok (source_of vm.status.kernel_mount) _ boot h1 in
      let (initrd, c, h3) = >>=-eq-ok (initrd_path_of vm vm.spec.initrd) _ boot h2 in
      let (mount, there, same) = source_of-mount vm.status.kernel_mount source b in
      (
        mount,
        there,
        (λ i. (ok-injective boot _ (sym h3) i).kernel_image_page)
            ∙ ap (λ s. s +++ ("/" +++ vm.spec.kernel.filename)) same,
      )

  -- What WithMicroVM has written, whatever is written to other fields later.
  pub record Describes (vm : Microvm) (cfg : VmmConfig) : Type 0 where
    pub drives : Drives true vm (vm.spec.root_volume ∷ vm.spec.additional_volumes) cfg.block_devices
    pub interfaces : NetDevices vm vm.spec.network_interfaces cfg.net_devices
    pub kernel :
        (mount : Mount) × (vm.status.kernel_mount ≡ some mount)
        × (cfg.boot_source.kernel_image_page ≡ mount.source +++ ("/" +++ vm.spec.kernel.filename))
    pub no_vsock : cfg.vsock_device ≡ none

  with_microvm-Describes :
      (smt : Bool) (vm : Microvm) (cfg : VmmConfig)
      → with_microvm parse_cidr enc smt (some vm) empty_config ≡ ok cfg
      → Describes vm cfg
  unfolding with_microvm
  with_microvm-Describes smt vm cfg made =
      let (nets, a, g1) = >>=-eq-ok (net_devices_of vm vm.spec.network_interfaces) _ cfg made in
      let (root_status, b, g2) = >>=-eq-ok (volume_status_of vm.spec.root_volume vm) _ cfg g1 in
      let (rest, c, g3) = >>=-eq-ok (block_devices_of vm vm.spec.additional_volumes) _ cfg g2 in
      let (boot, d, g4) = >>=-eq-ok (boot_source_of parse_cidr enc vm) _ cfg g3 in
      subst (Describes vm) (ok-injective _ cfg g4) (record {
        drives = (
          block_device-IsDrive true vm vm.spec.root_volume root_status b,
          block_devices_of-Drives vm vm.spec.additional_volumes rest c,
        );
        interfaces = net_devices_of-NetDevices vm vm.spec.network_interfaces nets a;
        kernel = boot_source_of-kernel vm boot d;
        no_vsock = refl;
      })

  -- A configuration that is made for firecracker with the options of a microvm, a state and a vsock
  -- has exactly one drive for the root volume and then for each additional volume, in order, with
  -- the volume's identifier and read-only flag, on the source of the mount in the volume's status,
  -- and only the first is the root; exactly one network device for each interface, in order, with
  -- the interface's name: a macvtap is opened under /dev/tap at the index in its status and has the
  -- status's MAC address where the interface gives none, any other has the host's device name of
  -- its status and the interface's own address; the kernel under the source of the kernel's mount,
  -- which is not nil; a vsock device exactly when the guest agent is allowed; and the state's path
  -- for metrics.
  pub create_config-HasDevices :
      (smt : Bool) (vm : Microvm) (state : StatePaths) (cfg : VmmConfig)
      → create_config (
          with_microvm parse_cidr enc smt (some vm)
          ∷ with_state state
          ∷ with_vsock (some vm) state
          ∷ [])
        ≡ ok cfg
      → HasDevices vm state cfg
  unfolding create_config apply_options with_state with_vsock
  create_config-HasDevices smt vm state cfg h =
      let (first, made, h1) =
        >>=-eq-ok (with_microvm parse_cidr enc smt (some vm) empty_config) _ cfg h in
      finish vm.spec.allow_guest_agent refl first (with_microvm-Describes smt vm first made)
        (ok-injective _ cfg h1)
    where
      logged : VmmConfig → VmmConfig
      logged first = record first {
        logger = some (record {
          log_path = state.log_path;
          level = "Debug";
          show_level = true;
          show_log_origin = true;
        });
        metrics = some state.metrics_path;
      }

      finish :
          (b : Bool)
          → vm.spec.allow_guest_agent ≡ b
          → (first : VmmConfig) → Describes vm first
          → (if b
              then record (logged first) {
                vsock_device =
                    some
                      (record { id = "guest-agent"; guest_cid = 3; uds_path = state.vsock_path });
              }
              else logged first)
            ≡ cfg
          → HasDevices vm state cfg
      finish true e first d same = subst (HasDevices vm state) same (record {
        drives = d.drives;
        interfaces = d.interfaces;
        kernel = d.kernel;
        vsock = sym e;
        metrics_at = refl;
      })
      finish false e first d same = subst (HasDevices vm state) same (record {
        drives = d.drives;
        interfaces = d.interfaces;
        kernel = d.kernel;
        vsock = ap is_some d.no_vsock ∙ sym e;
        metrics_at = refl;
      })

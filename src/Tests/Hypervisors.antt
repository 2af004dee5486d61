-- ===== src/Tests/Hypervisors.antt =====
-- The configuration of firecracker for a small microvm.
use flintlock.Prelude.{ℕ, if◌then◌else◌, ◌≡◌, refl, String, Bool, true, false, [], ◌∷◌, some, none}
use flintlock.Prelude.Int.{pos}
use flintlock.Prelude.Dict.{lookup}
use flintlock.Outcome.{Outcome, ok}
use flintlock.Models.Vmid.{to_string, new_vmid_from_string, split_vmid_from_string, split, new_vmid}
use flintlock.Models.Microvm.{Microvm, MicrovmState}
use flintlock.Ports.{Session, pending, running}
use flintlock.Hypervisor.CloudInitNetwork.{NetworkEncoding}
use flintlock.Hypervisor.Firecracker.{
  VmmConfig, StatePaths, create_config, with_microvm, with_state, with_vsock,
}
use flintlock.Hypervisor.Firecracker.Devices.{HasDevices, create_config-HasDevices}
use flintlock.Hypervisor.Firecracker.Provider.{
  FirecrackerConfig, FirecrackerEncoding, root, pid_path, create, configure, launch, state, delete,
}
use flintlock.Hypervisor.Os.{pid_read_from_file}
use flintlock.Hypervisor.Firecracker.Runs.{Launched, create-state, delete-state}
use flintlock.Virtiofs.{
  VirtiofsConfig, virtiofs_pid_path, state_root, virtio_pid, virtiofs_delete, stop,
  has_virtiofsd_process,
}
use flintlock.Virtiofs.Shares.{virtiofs_delete-stopped}
use flintlock.Tests.Workers.{one, one-IsPrintable}
use flintlock.Tests.Machines.{Machine, machine, empty_machine, machine-OsLaws, machine-is_own}
use flintlock.Tests.Host.{microvm_with, mount_of}

abbrev pub enc : NetworkEncoding
enc = record { marshal = λ n. ok "version: 2"; encode_base64 = λ text. text }

abbrev pub four : String → Outcome Bool
four address = ok true

abbrev pub mounted : Microvm
mounted = record (microvm_with MicrovmState.pending 0 0 0) {
  status = record (microvm_with MicrovmState.pending 0 0 0).status {
    volumes = some (("", record { mount = mount_of "/dev/mapper/root" }) ∷ []);
    kernel_mount = some (mount_of "/var/lib/kernel");
  };
}

abbrev paths : StatePaths
paths = record { log_path = "/log"; metrics_path = "/metrics"; vsock_path = "/vsock" }

abbrev written : VmmConfig
written = record {
  block_devices =
      record {
        id = "";
        path_on_host = "/dev/mapper/root";
        is_root_device = true;
        is_read_only = false;
        cache_type = "Unsafe";
      }
      ∷ [];
  boot_source = record {
    kernel_image_page = "/var/lib/kernel/vmlinux";
    initrd_path = none;
    boot_args =
        some
          "console=ttyS0 reboot=k panic=1 pci=off i8042.noaux i8042.nomux i8042.nopnp i8042.dumbkbd ds=nocloud-net;s=http://169.254.169.254/latest/ network-config=version: 2";
  };
  logger =
      some
        (record { log_path = "/log"; level = "Debug"; show_level = true; show_log_origin = true });
  machine_config = record { vcpu_count = pos 2; mem_size_mib = pos 2048; smt = true };
  metrics = some "/metrics";
  mmds = some (record { version = "V1"; network_interfaces = [] });
  net_devices =
      record { iface_id = "eth1"; host_dev_name = ""; guest_mac = "AA:FF:00:00:00:02" } ∷ [];
  vsock_device = none;
}

makes :
    create_config (
      with_microvm four enc true (some mounted)
      ∷ with_state paths
      ∷ with_vsock (some mounted) paths
      ∷ [])
    ≡ ok written
unfolding create_config with_microvm with_state with_vsock
makes = refl

create_config-HasDevices_example : HasDevices mounted paths written
create_config-HasDevices_example =
    create_config-HasDevices four enc true mounted paths written makes

abbrev firecracker : FirecrackerConfig
firecracker = record { firecracker_bin = "firecracker"; state_root = "/vm"; run_detached = true }

abbrev encoding : FirecrackerEncoding
encoding = record {
  marshal_config = λ cfg. ok "{}";
  marshal_metadata = λ latest. ok "{}";
  decode_base64 = λ text. ok text;
  parse_cidr = four;
  network = enc;
  smt = true;
}

abbrev mounted_session : Session Machine
mounted_session = record { vm = record mounted { id = one }; world = empty_machine }

abbrev running_session : Session Machine
running_session = record {
  vm = record mounted { id = one };
  world = record {
    files =
        ("/vm/ns/one/01ABC/firecracker.cfg", "{}")
        ∷ ("/vm/ns/one/01ABC/metadata.json", "{}")
        ∷ ("/vm/ns/one/01ABC/firecracker.pid", "7")
        ∷ [];
    alive = true;
  };
}

creates : create machine firecracker encoding mounted_session ≡ (ok tt, running_session)
unfolding create configure launch to_string
creates = refl

abbrev pid_file : String
pid_file = pid_path (root firecracker.state_root one)

create-state_example :
    (pid : ℕ) × Launched machine firecracker encoding one
      (machine-OsLaws pid_file)
      running_session
      pid
    × (state machine firecracker encoding "ns/one/01ABC" running_session.world ≡ (
      ok (
          if (machine-OsLaws pid_file).is_alive running_session.world (pos pid)
          then running
          else pending),
      running_session.world,
    ))
unfolding to_string
create-state_example =
    create-state machine firecracker encoding one (machine-OsLaws pid_file) mounted_session
      running_session refl one-IsPrintable creates

deletes :
    delete machine firecracker encoding "ns/one/01ABC" running_session.world
    ≡ (ok tt, record running_session.world { alive = false })
unfolding delete lookup to_string
deletes = refl

parses : new_vmid_from_string "ns/one/01ABC" ≡ ok one
unfolding new_vmid_from_string split_vmid_from_string split new_vmid
parses = refl

reads_pid : (pid_read_from_file machine pid_file running_session.world).0 ≡ ok (pos 7)
unfolding pid_read_from_file lookup to_string
reads_pid = refl

delete-state_example :
    state machine firecracker encoding "ns/one/01ABC"
      (record running_session.world { alive = false })
    ≡ (ok pending, record running_session.world { alive = false })
unfolding to_string
delete-state_example =
    delete-state machine firecracker encoding one (machine-OsLaws pid_file) "ns/one/01ABC" (pos 7)
      running_session.world (record running_session.world { alive = false }) parses reads_pid
      (machine-is_own pid_file running_session.world (pos 7)) deletes

abbrev virtiofs : VirtiofsConfig
virtiofs = record { state_root_dir = "/var/lib/flintlock"; virtiofs_bin = "virtiofsd" }

abbrev virtiofs_file : String
virtiofs_file = virtiofs_pid_path (state_root machine virtiofs one)

abbrev sharing : Machine
sharing = record {
  files = ("/var/lib/flintlock/vm/ns/one/01ABC/virtiofs.pid", "7") ∷ [];
  alive = true;
}

reads_virtiofs : virtio_pid machine virtiofs one sharing ≡ (ok (pos 7), sharing)
unfolding virtio_pid pid_read_from_file to_string lookup
reads_virtiofs = refl

stops : virtiofs_delete machine virtiofs one sharing ≡ (ok tt, record sharing { alive = false })
unfolding virtiofs_delete stop virtio_pid to_string lookup
stops = refl

virtiofs_delete-stopped_example :
    has_virtiofsd_process machine virtiofs one (record sharing { alive = false })
    ≡ (ok false, record sharing { alive = false })
unfolding to_string
virtiofs_delete-stopped_example =
    virtiofs_delete-stopped machine virtiofs one (machine-OsLaws virtiofs_file) (pos 7) sharing
      (record sharing { alive = false }) reads_virtiofs
      (λ alive. machine-is_own virtiofs_file sharing (pos 7)) stops

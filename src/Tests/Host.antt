-- ===== src/Tests/Host.antt =====
-- A small host to run the core on: one image, one share, one directory, one interface, one process
-- and one stored microvm, each there or not, and a clock.
use flintlock.Prelude.{ℕ, String, Bool, true, false, [], ◌∷◌, Option, none, some, if◌then◌else◌}
use flintlock.Prelude.Int.{pos}
use flintlock.Outcome.{ok, fail, external, core_spec_not_found}
use flintlock.Models.Volumes.{Mount, hostpath, is_some, zero_volume}
use flintlock.Models.Network.{NetworkInterface, tap, zero_interface_status}
use flintlock.Models.Microvm.{Microvm, MicrovmState}
use flintlock.Models.Capability.{metadata_service_capability}
use flintlock.Ports.{
  Session, Collection, MicrovmService, ImageService, VirtioFsService, FileSystem, NetworkService,
  MicrovmRepository, ProcessState, unknown, pending, running,
}
use flintlock.Steps.CloudInit.{Encoding, empty_user_data}
use flintlock.App.{Config}
use flintlock.App.Commands.{InstanceEncoding}

pub record Host : Type 0 where
  pub mounted : Bool
  pub shared : Bool
  pub directory : Bool
  pub interface : Bool
  pub process : ProcessState
  pub stored : Option Microvm
  pub now : ℕ

abbrev pub empty_host : Host
empty_host = record {
  mounted = false;
  shared = false;
  directory = false;
  interface = false;
  process = pending;
  stored = none;
  now = 100;
}

abbrev pub mount_of : String → Mount
mount_of source = record { type = hostpath; source = source }

abbrev pub provider : MicrovmService Host
provider = record {
  capabilities = metadata_service_capability ∷ [];
  create = λ s. (ok tt, record s { world = record s.world { process = running } });
  delete = λ id w. (ok tt, record w { process = unknown });
  start = λ s. (ok tt, s);
  state = λ id w. (ok w.process, w);
}

abbrev images : ImageService Host
images = record {
  pull_and_mount = λ input w. (ok (mount_of "/dev/mapper/one" ∷ []), record w { mounted = true });
  is_mounted = λ input w. (ok w.mounted, w);
}

abbrev virtiofs : VirtioFsService Host
virtiofs = record {
  create = λ id path w. (ok (some (mount_of "/run/virtiofs.sock")), record w { shared = true });
  delete = λ id w. (ok tt, record w { shared = false });
  has_virtiofsd_process = λ id w. (ok w.shared, w);
}

abbrev files : FileSystem Host
files = record {
  dir_exists = λ dir w. (ok w.directory, w);
  exists = λ dir w. (ok w.directory, w);
  stat_mode = λ dir w. (ok "drwxr-xr-x", w);
  dir_mode_string = λ mode. "drwxr-xr-x";
  mkdir = λ dir mode w. (ok tt, record w { directory = true });
  chmod = λ dir mode w. (if w.directory then ok tt else fail (external 2), w);
  remove_all = λ dir w. (ok tt, record w { directory = false });
}

abbrev network : NetworkService Host
network = record {
  iface_create = λ input w. (
    ok (record {
      device_name = input.device_name;
      type = input.type;
      mac = input.mac;
      index = pos 7;
    }),
    record w { interface = true },
  );
  iface_delete = λ name w. (ok tt, record w { interface = false });
  iface_exists = λ name w. (ok w.interface, w);
  iface_details = λ name w.
      (ok (record { device_name = name; type = tap; mac = "AA:FF:00:00:00:01"; index = pos 7 }), w);
}

abbrev repository : MicrovmRepository Host
repository = record {
  save = λ vm w. (ok vm, record w { stored = some vm });
  get = λ options w. (
    if is_some w.stored then ok w.stored else fail (core_spec_not_found "" "" "" options.uid),
    w,
  );
  get_all = λ query w. (ok (elim w.stored [ none ↦ [] | some vm ↦ vm ∷ [] ]), w);
  exists = λ vmid w. (ok (is_some w.stored), w);
  release_lease = λ vm w. (ok tt, record w { stored = none });
}

abbrev pub ports : Collection Host
ports = record {
  repo = repository;
  microvm_providers = λ name. some provider;
  publish = λ topic event w. (ok tt, w);
  generate_random = λ w. (ok "01ABC", w);
  network_service = network;
  new_iface_name = λ type w. (ok "fltap01", w);
  image_service = images;
  file_system = files;
  clock = λ w. (ok w.now, w);
  time_now = λ w. (ok w.now, w);
  publish_later = λ wait topic event w. (ok tt, w);
  context_error = λ w. none;
  virtiofs_service = virtiofs;
}

abbrev pub enc : Encoding
enc = record {
  decode_base64 = λ text. ok text;
  encode_base64 = λ text. text;
  unmarshal = λ text. ok empty_user_data;
  marshal = λ u. ok "mounts";
  sprint_rune = λ rune. "b";
}

abbrev pub instance_enc : InstanceEncoding
instance_enc = record {
  decode_base64 = λ text. ok text;
  encode_base64 = λ text. text;
  unmarshal = λ text. ok [];
  marshal = λ m. ok "instance_id: 01ABC";
}

abbrev pub config : Config
config = record {
  root_state_dir = "/var/lib/flintlock";
  maximum_retry = 10;
  default_provider = "firecracker";
}

-- path.Join of three parts
abbrev pub join : String → String → String → String
join a b c = "/var/lib/flintlock/vm/one"

abbrev pub eth1 : NetworkInterface
eth1 = record {
  guest_device_name = "eth1";
  allow_metadata_requests = false;
  guest_mac = "AA:FF:00:00:00:02";
  type = tap;
  static_address = none;
  bridge_name = "";
}

-- a microvm with one interface, with this count of retries, waiting time and time of deletion
abbrev pub microvm_with : MicrovmState → ℕ → ℕ → ℕ → Microvm
microvm_with state retry not_before deleted_at = record {
  id = record { name = "one"; namespace = "ns"; uid = "01ABC" };
  version = 1;
  spec = record {
    provider = "firecracker";
    kernel = record {
      image = "kernel:5.10";
      filename = "vmlinux";
      cmd_line = [];
      add_network_config = true;
    };
    initrd = none;
    vcpu = pos 2;
    memory_in_mb = pos 2048;
    network_interfaces = eth1 ∷ [];
    root_volume = zero_volume;
    additional_volumes = [];
    metadata = some [];
    allow_guest_agent = false;
    created_at = 50;
    updated_at = 0;
    deleted_at = deleted_at;
  };
  status = record {
    state = state;
    volumes = some [];
    kernel_mount = none;
    initrd_mount = none;
    network_interfaces = some (("eth1", zero_interface_status) ∷ []);
    retry = retry;
    not_before = not_before;
    vsock_path = "";
  };
}

abbrev pub session : Microvm → Session Host
session vm = record { vm = vm; world = empty_host }

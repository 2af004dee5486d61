-- ===== src/Hypervisor/CloudHypervisor/Provider.antt =====
-- infrastructure/microvm/cloudhypervisor/create.go, cloudinit.go, delete.go and provider.go, with
-- pkg/wait: the provider, which runs one cloud-hypervisor process for each microvm.
use Prim.Native.String.{◌++◌ as ◌+++◌}
use flintlock.Prelude.{
  ℕ, zero, suc, String, Bool, true, false, ◌||◌, List, [], ◌∷◌, ◌++◌, Option, none, some, str_eq,
  if◌then◌else◌,
}
use flintlock.Prelude.Decimal.{itoa}
use flintlock.Prelude.Int.{ℤ}
use flintlock.Prelude.Dict.{Dict, insert}
use flintlock.Outcome.{
  Outcome, Error, ok, panic, nil_map_write, not_supported, unsupported_vm_state, wait_timeout,
  unknown_network_interface_type,
}
use flintlock.Io.{Io, pure, throw, lift, gets, modify, branch, ◌>>=◌, ◌>>◌}
use flintlock.Models.Vmid.{new_vmid_from_string}
use flintlock.Models.Capability.{
  auto_start_capability, macvtap_capability, virtiofs_capability, vsock_capability,
}
use flintlock.Models.Network.{
  NetworkInterface, NetworkInterfaceStatus, IfaceType, tap, macvtap, unsupported, other_iface_type,
}
use flintlock.Models.Microvm.{Microvm}
use flintlock.Ports.{Session, on_world, MicrovmService, ProcessState, pending, running}
use flintlock.Hypervisor.Os.{
  Os, sighup, data_dir_perm, process_exists, send_signal, wait_with_context, pid_read_from_file,
  pid_write_to_file,
}
use flintlock.Hypervisor.CloudInitNetwork.{NetworkEncoding, status_of, generate_network_config}
use flintlock.Hypervisor.Firecracker.{int_text}
use flintlock.Hypervisor.CloudHypervisor.{
  root, pid_path, log_path, stdout_path, stderr_path, sock_path, vsock_path, cloud_init_image,
  head_args, disk_args, memory_args,
}

-- Config
pub record CloudHypervisorConfig : Type 0 where
  pub cloud_hypervisor_bin : String
  pub state_root : String
  pub run_detached : Bool

-- VMState of pkg/cloudhypervisor, a string: the four constants, or any other text
pub data VmState : Type 0 where
  vm_created vm_running vm_shutdown vm_paused : VmState
  other_vm_state : String → VmState

-- ports.DiskFile
pub record DiskFile : Type 0 where
  pub path : String
  pub content_base64 : String

-- The rest of what the provider uses: `syscall.Open` of a device, which gives its number; the client of
-- cloud-hypervisor's API on a socket; and the disk service, which is asked for a FAT32 image of 8 MB
-- that may be overwritten, by its path and its files.
pub record Machinery (W : Type 0) : Type 0 where
  pub os : Os W
  pub open_device : String → Io W ℕ
  pub info : String → Io W VmState
  pub shutdown_vm : String → Io W (Unit {0})
  pub create_disk : String → List DiskFile → Io W (Unit {0})

-- wait.ForCondition, where the timer ends after as many checks that fail as `checks` and one more
unfoldable pub for_condition : {W : Type 0} → ℕ → Io W Bool → Io W (Unit {0})
for_condition zero condition = do met ← condition; if met then pure tt else throw wait_timeout
for_condition (suc checks) condition =
    let rest = for_condition checks condition in do met ← condition; if met then pure tt else rest

-- isCloudInitKey
abbrev pub is_cloud_init_key : String → Bool
is_cloud_init_key key =
    str_eq key "meta-data"
    || str_eq key "network-config"
    || str_eq key "user-data"
    || str_eq key "vendor-data"

-- the files of the cloud-init image, in the order of the dictionary
unfoldable pub cloud_init_files : Dict String → List DiskFile
cloud_init_files [] = []
cloud_init_files ((key, value) ∷ rest) =
    let files = cloud_init_files rest in
    if is_cloud_init_key key
    then record { path = "/" +++ key; content_base64 = value } ∷ files
    else files

abbrev entries : Option (Dict String) → Dict String
entries none = []
entries (some metadata) = metadata

-- `vm.Spec.Metadata["network-config"] = networkConfig`, which panics on a nil map
abbrev put_network_config : String → Option (Dict String) → Outcome (Option (Dict String))
put_network_config text none = panic nil_map_write
put_network_config text (some metadata) = ok (some (insert "network-config" text metadata))

abbrev pub is_created_or_running : VmState → Bool
is_created_or_running vm_running = true
is_created_or_running vm_created = true
is_created_or_running _ = false

abbrev is_shutdown_or_created : VmState → Bool
is_shutdown_or_created vm_shutdown = true
is_shutdown_or_created vm_created = true
is_shutdown_or_created _ = false

module _ {W : Type 0} (machinery : Machinery W) (config : CloudHypervisorConfig)
    (parse_cidr : String → Outcome Bool) (enc : NetworkEncoding) where
  -- createMacvtapArg
  unfoldable pub create_macvtap_arg : NetworkInterface → NetworkInterfaceStatus → Io W String
  create_macvtap_arg net_int status = do
    fd ← machinery.open_device ("/dev/tap" +++ int_text status.index)
    pure ("fd=" +++ (itoa fd +++ (",mac=" +++ net_int.guest_mac)))

  abbrev net_arg : IfaceType → NetworkInterface → NetworkInterfaceStatus → Io W String
  unfolding create_macvtap_arg
  net_arg macvtap iface status = create_macvtap_arg iface status
  net_arg tap iface status =
      pure ("tap=" +++ (status.host_device_name +++ (",mac=" +++ iface.guest_mac)))
  net_arg unsupported iface status = throw (unknown_network_interface_type iface.guest_device_name)
  net_arg (other_iface_type t) iface status =
      throw (unknown_network_interface_type iface.guest_device_name)

  -- the loop over the interfaces
  unfoldable pub net_args : Microvm → List NetworkInterface → Io W (List String)
  unfolding status_of create_macvtap_arg
  net_args vm [] = pure []
  net_args vm (iface ∷ rest) =
      let more = net_args vm rest in
      do
        status ← lift (status_of iface vm)
        arg ← net_arg iface.type iface status
        args ← more
        pure ("--net" ∷ arg ∷ args)

  abbrev vsock_args : String → Microvm → List String
  vsock_args state_root vm =
      if vm.spec.allow_guest_agent
      then "--vsock" ∷ ("cid=3,socket=" +++ vsock_path state_root) ∷ []
      else []

  -- buildArgs
  unfoldable pub build_args : String → Microvm → Io W (List String)
  unfolding head_args disk_args net_args
  build_args state_root vm = do
    head ← lift (head_args state_root vm)
    disks ← lift (disk_args state_root vm)
    nets ← net_args vm vm.spec.network_interfaces
    pure (head ++ disks.0 ++ memory_args vm disks.1 ++ nets ++ vsock_args state_root vm)

  remove_stale : String → Io W (Unit {0})
  remove_stale path = do
    there ← machinery.os.exists path
    if there then machinery.os.remove path else pure tt

  -- ensureState
  unfoldable pub ensure_state : String → Io W (Unit {0})
  unfolding remove_stale
  ensure_state state_root = do
    there ← machinery.os.dir_exists state_root
    if there then pure tt else machinery.os.mkdir_all state_root data_dir_perm
    remove_stale (sock_path state_root)
    remove_stale (vsock_path state_root)
    machinery.os.append_file (log_path state_root)

  -- the network data of createCloudInitImage
  unfoldable pub add_network_config : Io (Session W) (Unit {0})
  unfolding generate_network_config
  add_network_config = do
    vm ← gets (λ s. s.vm)
    text ← lift (generate_network_config parse_cidr enc vm)
    metadata ← lift (put_network_config text vm.spec.metadata)
    modify (λ s. record s { vm = record s.vm { spec = record s.vm.spec { metadata = metadata } } })

  -- createCloudInitImage
  unfoldable pub create_cloud_init_image : String → Io (Session W) (Unit {0})
  unfolding add_network_config cloud_init_files
  create_cloud_init_image state_root = do
    before ← gets (λ s. s.vm)
    if before.spec.kernel.add_network_config then add_network_config else pure tt
    vm ← gets (λ s. s.vm)
    on_world (
        machinery.create_disk (cloud_init_image state_root)
          (cloud_init_files (entries vm.spec.metadata)))

  -- startCloudHypervisor
  unfoldable pub start_cloud_hypervisor : String → Microvm → Io W ℕ
  unfolding build_args
  start_cloud_hypervisor state_root vm = do
    args ← build_args state_root vm
    machinery.os.append_file (stdout_path state_root)
    machinery.os.append_file (stderr_path state_root)
    machinery.os.start config.run_detached (record {
      program = config.cloud_hypervisor_bin;
      args = args;
      stdout = stdout_path state_root;
      stderr = stderr_path state_root;
    })

  -- the guard at the start of Create: is a process of this microvm alive?
  unfoldable pub is_live : String → Io W Bool
  unfolding pid_read_from_file process_exists
  is_live state_root = do
    pid_exists ← machinery.os.exists (pid_path state_root)
    if pid_exists
        then (do
          pid ← pid_read_from_file machinery.os (pid_path state_root)
          process_exists machinery.os pid)
        else pure false

  -- the rest of Create
  unfoldable pub create_process : String → Io (Session W) (Unit {0})
  unfolding ensure_state create_cloud_init_image start_cloud_hypervisor pid_write_to_file
  create_process state_root = do
    on_world (ensure_state state_root)
    create_cloud_init_image state_root
    modify (λ s. record s {
      vm = record s.vm {
        status = record s.vm.status {
          vsock_path = if s.vm.spec.allow_guest_agent then vsock_path state_root else "";
        };
      };
    })
    vm ← gets (λ s. s.vm)
    pid ← on_world (start_cloud_hypervisor state_root vm)
    on_world (pid_write_to_file machinery.os pid (pid_path state_root))

  -- Create
  unfoldable pub create : Io (Session W) (Unit {0})
  unfolding is_live create_process
  create = do
    vm ← gets (λ s. s.vm)
    live ← on_world (is_live (root config.state_root vm.id))
    if live then pure tt else create_process (root config.state_root vm.id)

  -- State, for a process that is alive
  unfoldable pub state_of_live : String → Io W ProcessState
  state_of_live state_root = do
    sock_exists ← machinery.os.exists (sock_path state_root)
    if sock_exists
        then branch (machinery.info (sock_path state_root)) (λ e. pure running)
            (λ vm_state.
              if is_created_or_running vm_state then pure running else throw unsupported_vm_state)
        else pure running

  -- State
  unfoldable pub state : String → Io W ProcessState
  unfolding state_of_live pid_read_from_file process_exists new_vmid_from_string
  state id = do
    vmid ← lift (new_vmid_from_string id)
    there ← machinery.os.exists (pid_path (root config.state_root vmid))
    if there
        then (do
          pid ← pid_read_from_file machinery.os (pid_path (root config.state_root vmid))
          alive ← process_exists machinery.os pid
          if alive then state_of_live (root config.state_root vmid) else pure pending)
        else pure pending

  -- the condition that Delete waits for
  unfoldable pub is_shut_down : String → Io W Bool
  is_shut_down socket = do vm_state ← machinery.info socket; pure (is_shutdown_or_created vm_state)

  -- 30 seconds, with a check every half second
  abbrev pub shutdown_checks : ℕ
  shutdown_checks = 60

  abbrev is_wait_timeout : Error → Bool
  is_wait_timeout wait_timeout = true
  is_wait_timeout _ = false

  -- Delete of a process that is alive
  unfoldable pub delete_live : String → ℤ → Io W (Unit {0})
  unfolding is_shut_down for_condition send_signal wait_with_context
  delete_live state_root pid = do
    machinery.shutdown_vm (sock_path state_root)
    branch (for_condition shutdown_checks (is_shut_down (sock_path state_root)))
        (λ e. if is_wait_timeout e then pure tt else throw e) (λ u. pure tt)
    send_signal machinery.os pid sighup
    wait_with_context machinery.os pid

  -- Delete
  unfoldable pub delete : String → Io W (Unit {0})
  unfolding delete_live pid_read_from_file process_exists new_vmid_from_string
  delete id = do
    vmid ← lift (new_vmid_from_string id)
    pid ← pid_read_from_file machinery.os (pid_path (root config.state_root vmid))
    alive ← process_exists machinery.os pid
    if alive then delete_live (root config.state_root vmid) pid else pure tt

  -- Start
  abbrev pub start : Io (Session W) (Unit {0})
  start = throw not_supported

  -- provider
  abbrev pub cloud_hypervisor_service : MicrovmService W
  cloud_hypervisor_service = record {
    capabilities =
        auto_start_capability ∷ macvtap_capability ∷ virtiofs_capability ∷ vsock_capability ∷ [];
    create = create;
    delete = delete;
    start = start;
    state = state;
  }

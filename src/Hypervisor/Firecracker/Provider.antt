-- ===== src/Hypervisor/Firecracker/Provider.antt =====
-- infrastructure/microvm/firecracker/provider.go, create.go and state.go: the provider, which runs one
-- firecracker process for each microvm, over the operating system, JSON and base64 as parameters.
use Prim.Native.String.{◌++◌ as ◌+++◌}
use flintlock.Prelude.{ℕ, String, Bool, [], ◌∷◌, map, Option, none, some, if◌then◌else◌}
use flintlock.Prelude.Dict.{Dict}
use flintlock.Outcome.{Outcome, ok, not_supported}
use flintlock.Io.{Io, pure, throw, lift, gets, modify, ◌>>=◌, ◌>>◌}
use flintlock.Models.Vmid.{Vmid, to_string, new_vmid_from_string}
use flintlock.Models.Capability.{metadata_service_capability, vsock_capability}
use flintlock.Models.Microvm.{Microvm}
use flintlock.Ports.{Session, on_world, MicrovmService, ProcessState, pending, running}
use flintlock.Hypervisor.Os.{
  Os, Command, sighup, data_dir_perm, process_exists, send_signal, wait_with_context,
  pid_read_from_file, pid_write_to_file,
}
use flintlock.Hypervisor.CloudInitNetwork.{NetworkEncoding}
use flintlock.Hypervisor.Firecracker.{
  VmmConfig, StatePaths, create_config, with_microvm, with_state, with_vsock,
}

-- Config
pub record FirecrackerConfig : Type 0 where
  pub firecracker_bin : String
  pub state_root : String
  pub run_detached : Bool

-- json.MarshalIndent of a configuration and of the metadata, and base64; `smt` says whether the machine
-- is an amd64.
pub record FirecrackerEncoding : Type 0 where
  pub marshal_config : VmmConfig → Outcome String
  pub marshal_metadata : Dict String → Outcome String
  pub decode_base64 : String → Outcome String
  pub parse_cidr : String → Outcome Bool
  pub network : NetworkEncoding
  pub smt : Bool

-- fsState.Root, as NewState makes it
abbrev pub root : String → Vmid → String
root state_dir vmid = state_dir +++ ("/" +++ to_string vmid)

abbrev pub pid_path : String → String
pid_path state_root = state_root +++ "/firecracker.pid"

abbrev pub log_path : String → String
log_path state_root = state_root +++ "/firecracker.log"

abbrev pub metrics_path : String → String
metrics_path state_root = state_root +++ "/firecracker.metrics"

abbrev pub stdout_path : String → String
stdout_path state_root = state_root +++ "/firecracker.stdout"

abbrev pub stderr_path : String → String
stderr_path state_root = state_root +++ "/firecracker.stderr"

abbrev pub vsock_path : String → String
vsock_path state_root = state_root +++ "/guest-agent.vsock"

abbrev pub config_path : String → String
config_path state_root = state_root +++ "/firecracker.cfg"

abbrev pub metadata_path : String → String
metadata_path state_root = state_root +++ "/metadata.json"

abbrev pub paths : String → StatePaths
paths state_root = record {
  log_path = log_path state_root;
  metrics_path = metrics_path state_root;
  vsock_path = vsock_path state_root;
}

-- a value of the metadata, decoded where that is possible
abbrev decoded_or : String → Outcome String → String
decoded_or value (ok decoded) = decoded
decoded_or value _ = value

module _ (enc : FirecrackerEncoding) where
  -- the loop of SetMetadata; a nil map has no entries
  unfoldable pub decoded_metadata : Option (Dict String) → Dict String
  decoded_metadata none = []
  decoded_metadata (some latest) =
      map (λ entry. (entry.0, decoded_or entry.1 (enc.decode_base64 entry.1))) latest

module _ {W : Type 0} (os : Os W) (config : FirecrackerConfig) (enc : FirecrackerEncoding) where
  -- ensureState
  unfoldable pub ensure_state : String → Io W (Unit {0})
  ensure_state state_root = do
    there ← os.dir_exists state_root
    if there then pure tt else os.mkdir_all state_root data_dir_perm
    vsock_exists ← os.exists (vsock_path state_root)
    if vsock_exists then os.remove (vsock_path state_root) else pure tt
    os.append_file (log_path state_root)
    os.append_file (metrics_path state_root)

  -- SetConfig
  unfoldable pub set_config : VmmConfig → String → Io W (Unit {0})
  set_config cfg state_root = do
    data_text ← lift (enc.marshal_config cfg)
    os.write_file (config_path state_root) data_text

  -- SetMetadata
  unfoldable pub set_metadata : Option (Dict String) → String → Io W (Unit {0})
  unfolding decoded_metadata
  set_metadata latest state_root = do
    data_text ← lift (enc.marshal_metadata (decoded_metadata enc latest))
    os.write_file (metadata_path state_root) data_text

  -- the command of Create
  abbrev pub firecracker_command : Vmid → String → Command
  firecracker_command vmid state_root = record {
    program = config.firecracker_bin;
    args =
        "--id"
        ∷ vmid.uid
        ∷ "--boot-timer"
        ∷ "--no-api"
        ∷ "--config-file"
        ∷ config_path state_root
        ∷ "--metadata"
        ∷ metadata_path state_root
        ∷ [];
    stdout = stdout_path state_root;
    stderr = stderr_path state_root;
  }

  -- startFirecracker, which opens both files for the output first
  unfoldable pub start_firecracker : Command → Io W ℕ
  start_firecracker cmd = do
    os.append_file cmd.stdout
    os.append_file cmd.stderr
    os.start config.run_detached cmd

  -- `vm.Status.VSockPath = ...`
  abbrev pub with_vsock_path : String → Microvm → Microvm
  with_vsock_path state_root vm = record vm {
    status = record vm.status {
      vsock_path = if vm.spec.allow_guest_agent then vsock_path state_root else "";
    };
  }

  -- Create, up to the microvm's new status
  unfoldable pub configure : Microvm → Io W VmmConfig
  unfolding ensure_state create_config with_microvm with_state with_vsock
  configure vm =
      let state_root = root config.state_root vm.id in
      do
        ensure_state state_root
        lift (
            create_config (
              with_microvm enc.parse_cidr enc.network enc.smt (some vm)
              ∷ with_state (paths state_root)
              ∷ with_vsock (some vm) (paths state_root)
              ∷ []))

  -- and from there on
  unfoldable pub launch : Microvm → VmmConfig → Io W (Unit {0})
  unfolding set_config set_metadata start_firecracker pid_write_to_file
  launch vm cfg =
      let state_root = root config.state_root vm.id in
      do
        set_config cfg state_root
        set_metadata vm.spec.metadata state_root
        pid ← start_firecracker (firecracker_command vm.id state_root)
        pid_write_to_file os pid (pid_path state_root)

  -- Create
  unfoldable pub create : Io (Session W) (Unit {0})
  unfolding configure launch
  create = do
    vm ← gets (λ s. s.vm)
    cfg ← on_world (configure vm)
    modify (λ s. record s { vm = with_vsock_path (root config.state_root vm.id) s.vm })
    on_world (launch vm cfg)

  -- State, for a pid file that exists
  unfoldable pub state_of_pid : String → Io W ProcessState
  unfolding pid_read_from_file process_exists
  state_of_pid state_root = do
    pid ← pid_read_from_file os (pid_path state_root)
    alive ← process_exists os pid
    pure (if alive then running else pending)

  -- State
  unfoldable pub state : String → Io W ProcessState
  unfolding state_of_pid new_vmid_from_string
  state id = do
    vmid ← lift (new_vmid_from_string id)
    there ← os.exists (pid_path (root config.state_root vmid))
    if there then state_of_pid (root config.state_root vmid) else pure pending

  -- Delete
  unfoldable pub delete : String → Io W (Unit {0})
  unfolding pid_read_from_file send_signal wait_with_context new_vmid_from_string
  delete id = do
    vmid ← lift (new_vmid_from_string id)
    pid ← pid_read_from_file os (pid_path (root config.state_root vmid))
    send_signal os pid sighup
    wait_with_context os pid

  -- Start
  abbrev pub start : Io (Session W) (Unit {0})
  start = throw not_supported

  -- fcProvider
  abbrev pub firecracker_service : MicrovmService W
  firecracker_service = record {
    capabilities = metadata_service_capability ∷ vsock_capability ∷ [];
    create = create;
    delete = delete;
    start = start;
    state = state;
  }

-- ===== src/Virtiofs.antt =====
-- infrastructure/virtiofs: the service that runs one virtiofsd process for a microvm.
pub mod Shares
use Prim.Native.String.{◌++◌ as ◌+++◌}
use flintlock.Prelude.{
  ℕ, suc, String, Bool, true, false, List, [], ◌∷◌, Option, some, if◌then◌else◌,
}
use flintlock.Prelude.Int.{ℤ, pos, negsuc}
use flintlock.Outcome.{Outcome, ok, fail}
use flintlock.Io.{Io, pure, throw, branch, ◌>>=◌, ◌>>◌}
use flintlock.Models.Vmid.{Vmid}
use flintlock.Models.Volumes.{Mount, hostpath}
use flintlock.Ports.{VirtioFsService}
use flintlock.Hypervisor.Os.{
  Os, Command, sigterm, data_dir_perm, process_exists, send_signal, wait_with_context,
  pid_read_from_file, pid_write_to_file,
}
use flintlock.Hypervisor.CloudHypervisor.{root, virtiofs_path}

abbrev pub virtiofs_pid_path : String → String
virtiofs_pid_path state_root = state_root +++ "/virtiofs.pid"

abbrev pub virtiofs_stdout_path : String → String
virtiofs_stdout_path state_root = state_root +++ "/virtiofs.stdout"

abbrev pub virtiofs_stderr_path : String → String
virtiofs_stderr_path state_root = state_root +++ "/virtiofs.stderr"

-- Config, as far as the service reads it
pub record VirtiofsConfig : Type 0 where
  pub state_root_dir : String
  pub virtiofs_bin : String

-- The number that PIDReadFromFile gives with an error.
abbrev pub no_pid : ℤ
no_pid = negsuc 0

abbrev pub is_no_pid : ℤ → Bool
is_no_pid (negsuc ℕ.zero) = true
is_no_pid _ = false

module _ {W : Type 0} (os : Os W) (config : VirtiofsConfig) where
  -- NewState of a service's call
  abbrev pub state_root : Vmid → String
  state_root vmid = root (config.state_root_dir +++ "/vm") vmid

  -- ensureState
  unfoldable pub ensure_state_dir : String → Io W (Unit {0})
  ensure_state_dir dir = do
    there ← os.dir_exists dir
    if there then pure tt else os.mkdir_all dir data_dir_perm

  -- startVirtioFS
  unfoldable pub start_virtiofs : String → String → Io W ℕ
  start_virtiofs path dir = do
    os.append_file (virtiofs_stdout_path dir)
    os.append_file (virtiofs_stderr_path dir)
    os.start true (record {
      program = config.virtiofs_bin;
      args =
          ("--socket-path=" +++ virtiofs_path dir)
          ∷ "--thread-pool-size=32"
          ∷ "-o"
          ∷ ("source="
              +++ (path +++ ",cache=none,sandbox=chroot,announce_submounts,allow_direct_io"))
          ∷ [];
      stdout = virtiofs_stdout_path dir;
      stderr = virtiofs_stderr_path dir;
    })

  -- Create
  unfoldable pub virtiofs_create : Vmid → String → Io W (Option Mount)
  unfolding ensure_state_dir start_virtiofs pid_write_to_file
  virtiofs_create vmid path = do
    ensure_state_dir (state_root vmid)
    pid ← start_virtiofs path (state_root vmid)
    pid_write_to_file os pid (virtiofs_pid_path (state_root vmid))
    pure (some (record { type = hostpath; source = virtiofs_path (state_root vmid) }))

  -- `pid, _ := state.VirtioPID()`
  unfoldable pub virtio_pid : Vmid → Io W ℤ
  unfolding pid_read_from_file
  virtio_pid vmid =
      branch (pid_read_from_file os (virtiofs_pid_path (state_root vmid))) (λ e. pure no_pid) pure

  unfoldable pub stop : ℤ → Io W (Unit {0})
  unfolding send_signal wait_with_context
  stop pid = do send_signal os pid sigterm; wait_with_context os pid

  -- Delete
  unfoldable pub virtiofs_delete : Vmid → Io W (Unit {0})
  unfolding virtio_pid process_exists stop
  virtiofs_delete vmid = do
    pid ← virtio_pid vmid
    alive ← process_exists os pid
    if alive then stop pid else pure tt

  -- HasVirtioFSDProcess
  unfoldable pub has_virtiofsd_process : Vmid → Io W Bool
  unfolding virtio_pid process_exists
  has_virtiofsd_process vmid = do
    pid ← virtio_pid vmid
    if is_no_pid pid then pure false else process_exists os pid

  -- vFSService
  abbrev pub virtiofs_service : VirtioFsService W
  virtiofs_service = record {
    create = virtiofs_create;
    delete = virtiofs_delete;
    has_virtiofsd_process = has_virtiofsd_process;
  }

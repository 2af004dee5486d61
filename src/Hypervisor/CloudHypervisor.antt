-- ===== src/Hypervisor/CloudHypervisor.antt =====
-- infrastructure/microvm/cloudhypervisor/state.go and the arguments of create.go: the files of a microvm
-- and the command line of its cloud-hypervisor process.
pub mod Disks
pub mod Provider
pub mod Live
use Prim.Native.String.{◌++◌ as ◌+++◌}
use flintlock.Prelude.{
  ℕ, suc, String, Bool, true, false, List, [], ◌∷◌, ◌++◌, Option, none, some, if◌then◌else◌,
}
use flintlock.Prelude.Int.{ℤ, pos, negsuc}
use flintlock.Prelude.Decimal.{itoa}
use flintlock.Outcome.{
  Outcome, ok, fail, panic, nil_dereference, unknown_network_interface_type, ◌>>=◌,
}
use flintlock.Io.{Io, lift}
use flintlock.Models.Vmid.{Vmid, to_string}
use flintlock.Models.Volumes.{Volume, is_some}
use flintlock.Models.Network.{NetworkInterface, NetworkInterfaceStatus, IfaceType}
use flintlock.Models.Microvm.{Microvm}
use flintlock.Hypervisor.CmdLine.{KernelCmdLine, cmd_line_text, set_all}
use flintlock.Hypervisor.CloudInitNetwork.{status_of}
use flintlock.Hypervisor.Firecracker.{volume_status_of, source_of, int_text}

-- fsState.Root, as NewState makes it, and the paths below it
abbrev pub root : String → Vmid → String
root state_dir vmid = state_dir +++ ("/" +++ to_string vmid)

abbrev pub pid_path : String → String
pid_path state_root = state_root +++ "/cloudhypervisor.pid"

abbrev pub log_path : String → String
log_path state_root = state_root +++ "/cloudhypervisor.log"

abbrev pub stdout_path : String → String
stdout_path state_root = state_root +++ "/cloudhypervisor.stdout"

abbrev pub stderr_path : String → String
stderr_path state_root = state_root +++ "/cloudhypervisor.stderr"

abbrev pub sock_path : String → String
sock_path state_root = state_root +++ "/cloudhypervisor.sock"

abbrev pub vsock_path : String → String
vsock_path state_root = state_root +++ "/guest-agent.vsock"

abbrev pub cloud_init_image : String → String
cloud_init_image state_root = state_root +++ "/cloud-init.img"

-- VirtioFSPath of infrastructure/virtiofs/state.go
abbrev pub virtiofs_path : String → String
virtiofs_path state_root = state_root +++ "/virtiofs.sock"

-- DefaultKernelCmdLine
abbrev pub default_kernel_cmd_line : KernelCmdLine
default_kernel_cmd_line =
    ("console", "hvc0") ∷ ("root", "/dev/vda") ∷ ("rw", "") ∷ ("reboot", "k") ∷ ("panic", "1") ∷ []

-- the argument for a share's socket
abbrev pub fs_arg : String → String
fs_arg state_root =
    "tag=user,socket=" +++ (virtiofs_path state_root +++ ",num_queues=1,queue_size=1024")

abbrev pub path_arg : String → String
path_arg source = "path=" +++ source

-- the arguments of one volume, a share or not, before those of the others
abbrev pub with_volume : String → Bool → String → List String × Bool → List String × Bool
with_volume state_root true source others = ("--fs" ∷ fs_arg state_root ∷ others.0, true)
with_volume state_root false source others = (path_arg source ∷ others.0, others.1)

-- the loop over the additional volumes: the arguments, and whether there is a share
unfoldable pub volume_args : String → Microvm → List Volume → Outcome (List String × Bool)
unfolding volume_status_of
volume_args state_root vm [] = ok ([], false)
volume_args state_root vm (vol ∷ rest) =
    let more = volume_args state_root vm rest in
    do
      status ← volume_status_of vol vm
      others ← more
      ok (with_volume state_root (is_some vol.source.virtiofs) status.mount.source others)

-- the root volume, the image of cloud-init, and the additional volumes
unfoldable pub disk_args : String → Microvm → Outcome (List String × Bool)
unfolding volume_args volume_status_of
disk_args state_root vm = do
  root_status ← volume_status_of vm.spec.root_volume vm
  others ← volume_args state_root vm vm.spec.additional_volumes
  ok (
    "--disk"
        ∷ path_arg root_status.mount.source
        ∷ path_arg (cloud_init_image state_root +++ ",readonly=on")
        ∷ others.0,
    others.1,
  )

abbrev pub memory_args : Microvm → Bool → List String
memory_args vm has_virtiofs =
    let size = "size=" +++ (int_text vm.spec.memory_in_mb +++ "M") in
    "--memory" ∷ (if has_virtiofs then size +++ ",shared=on" else size) ∷ []

-- everything before the volumes
unfoldable pub head_args : String → Microvm → Outcome (List String)
unfolding set_all cmd_line_text
head_args state_root vm = do
  kernel_source ← source_of vm.status.kernel_mount
  ok (
      "--api-socket"
      ∷ sock_path state_root
      ∷ "--log-file"
      ∷ log_path state_root
      ∷ "-v"
      ∷ "--cmdline"
      ∷ cmd_line_text (set_all vm.spec.kernel.cmd_line default_kernel_cmd_line)
      ∷ "--kernel"
      ∷ (kernel_source +++ ("/" +++ vm.spec.kernel.filename))
      ∷ "--cpus"
      ∷ ("boot=" +++ int_text vm.spec.vcpu)
      ∷ [])

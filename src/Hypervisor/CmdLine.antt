-- ===== src/Hypervisor/CmdLine.antt =====
-- internal/config/kernel_cmd_line.go, and the parameters that firecracker's kernel is given.
use Prim.Native.String.{◌++◌ as ◌+++◌}
use flintlock.Prelude.{String, [], ◌∷◌, map, is_empty, if◌then◌else◌}
use flintlock.Prelude.Dict.{Dict, insert}
use flintlock.Containerd.Labels.{join}

-- KernelCmdLine
abbrev pub KernelCmdLine : Type 0
KernelCmdLine = Dict String

abbrev pub parameter_text : String × String → String
parameter_text (key, value) = if is_empty value then key else key +++ ("=" +++ value)

-- KernelCmdLine.String, in the dictionary's order, where Go's is any
unfoldable pub cmd_line_text : KernelCmdLine → String
unfolding join
cmd_line_text k = join " " (map parameter_text k)

-- the loop that sets the microvm's own parameters
unfoldable pub set_all : Dict String → KernelCmdLine → KernelCmdLine
unfolding insert
set_all [] k = k
set_all ((key, value) ∷ rest) k = set_all rest (insert key value k)

-- DefaultKernelCmdLine
abbrev pub default_kernel_cmd_line : KernelCmdLine
default_kernel_cmd_line =
    ("console", "ttyS0")
    ∷ ("reboot", "k")
    ∷ ("panic", "1")
    ∷ ("pci", "off")
    ∷ ("i8042.noaux", "")
    ∷ ("i8042.nomux", "")
    ∷ ("i8042.nopnp", "")
    ∷ ("i8042.dumbkbd", "")
    ∷ ("ds", "nocloud-net;s=http://169.254.169.254/latest/")
    ∷ []

-- ===== src/Hypervisor/Os.antt =====
-- pkg/process/process.go and infrastructure/microvm/shared/pid.go, over the operating system: afero.Fs,
-- os.FindProcess, os/exec and signals, as operations on a world `W`.
pub mod Laws
use flintlock.Prelude.{ℕ, String, Bool, true, false, List, Option, none, some, if◌then◌else◌}
use flintlock.Prelude.Int.{ℤ, pos}
use flintlock.Prelude.Decimal.{itoa, atoi}
use flintlock.Outcome.{Error, pid_not_a_number}
use flintlock.Io.{Io, pure, throw, branch, ◌>>=◌, ◌>>◌}
use flintlock.Grpc.Sanitize.{trim_space}

-- Signal 0 only asks whether the process can be signalled.
pub data Signal : Type 0 where
  signal_zero sighup sigterm sigkill : Signal

-- exec.Cmd: the program, its arguments, and the files for its output, opened to append
pub record Command : Type 0 where
  pub program : String
  pub args : List String
  pub stdout : String
  pub stderr : String

-- `read_all` opens a file and reads it, `write_file` creates or truncates one and writes it, and
-- `append_file` opens one to append and creates it. `start` gives the number of the process that
-- it has started, detached or not. `wait_until_done` says whether the process was waited for
-- before the context was done. `is_no_child` is the test for the text "no child processes".
pub record Os (W : Type 0) : Type 0 where
  pub exists : String → Io W Bool
  pub dir_exists : String → Io W Bool
  pub mkdir_all : String → ℕ → Io W (Unit {0})
  pub remove : String → Io W (Unit {0})
  pub append_file : String → Io W (Unit {0})
  pub read_all : String → Io W String
  pub write_file : String → String → Io W (Unit {0})
  pub start : Bool → Command → Io W ℕ
  pub find_process : ℤ → Io W (Unit {0})
  pub signal : ℤ → Signal → Io W (Unit {0})
  pub wait_process : ℤ → Io W (Unit {0})
  pub wait_until_done : ℤ → Io W Bool
  pub is_no_child : Error → Bool

abbrev pub data_dir_perm : ℕ
data_dir_perm = 0o755

module _ {W : Type 0} (os : Os W) where
  -- process.Exists
  unfoldable pub process_exists : ℤ → Io W Bool
  process_exists pid = do
    os.find_process pid
    branch (os.signal pid signal_zero) (λ e. pure false) (λ u. pure true)

  -- process.SendSignal
  unfoldable pub send_signal : ℤ → Signal → Io W (Unit {0})
  send_signal pid sig = do os.find_process pid; os.signal pid sig

  -- the end of WaitWithContext, when the context was done first
  unfoldable pub kill_and_release : ℤ → Io W (Unit {0})
  kill_and_release pid = do
    os.signal pid sigkill
    branch (os.wait_process pid) (λ e. if os.is_no_child e then pure tt else throw e) (λ u. pure tt)

  -- process.WaitWithContext
  unfoldable pub wait_with_context : ℤ → Io W (Unit {0})
  unfolding kill_and_release
  wait_with_context pid = do
    os.find_process pid
    exited ← os.wait_until_done pid
    if exited then pure tt else kill_and_release pid

  abbrev pub parsed_pid : Option ℤ → Io W ℤ
  parsed_pid none = throw pid_not_a_number
  parsed_pid (some pid) = pure pid

  -- shared.PIDReadFromFile
  unfoldable pub pid_read_from_file : String → Io W ℤ
  unfolding atoi trim_space
  pid_read_from_file pid_file = do text ← os.read_all pid_file; parsed_pid (atoi (trim_space text))

  -- shared.PIDWriteToFile, of the number of a process
  unfoldable pub pid_write_to_file : ℕ → String → Io W (Unit {0})
  unfolding itoa
  pid_write_to_file pid pid_file = os.write_file pid_file (itoa pid)

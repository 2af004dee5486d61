-- ===== src/Hypervisor/Firecracker/Runs.antt =====
-- infrastructure/microvm/firecracker: the life of a process, as State tells it.
use flintlock.Prelude.{◌≡◌, refl, arith, sym, ap, ◌<◌, ◌^◌, ◌∙◌, ℕ, String, true, if◌then◌else◌}
use flintlock.Prelude.Int.{ℤ, pos}
use flintlock.Outcome.{ok}
use flintlock.Io.{gets, modify, bind-eq-ok, Keeps-bind, Keeps-gets, Keeps-throw, Keeps-modify}
use flintlock.Models.Vmid.{Vmid, to_string, new_vmid_from_string}
use flintlock.Models.Vmid.RoundTrip.{IsPrintable, from_string-to_string}
use flintlock.Models.Microvm.{Microvm}
use flintlock.Ports.{Session, on_world, pending, running}
use flintlock.Steps.Frame.{Framed-on_world, KeepsFrame}
use flintlock.Hypervisor.Os.{
  Os, Command, sighup, send_signal, pid_read_from_file, pid_write_to_file,
}
use flintlock.Hypervisor.Os.Laws.{
  OsLaws, process_exists_lem, pid_read_lem, pid_read-there, pid_of, pid_write-read, stopped-dead,
}
use flintlock.Hypervisor.Firecracker.{VmmConfig}
use flintlock.Hypervisor.Firecracker.Provider.{
  FirecrackerConfig, FirecrackerEncoding, root, pid_path, with_vsock_path, configure, launch,
  create, set_config, set_metadata, start_firecracker, firecracker_command, state_of_pid, state,
  delete, firecracker_service,
}

module _ {W : Type 0} (os : Os W) (config : FirecrackerConfig) (enc : FirecrackerEncoding) where
  -- the assignment in Create
  abbrev record_vsock : Microvm → Session W → Session W
  record_vsock now s = record s {
    vm = with_vsock_path os config enc (root config.state_root now.id) s.vm;
  }

  -- Neither Create nor Start changes more of the microvm than the path of its vsock
  pub firecracker_service-KeepsFrame : KeepsFrame (firecracker_service os config enc)
  unfolding create
  firecracker_service-KeepsFrame = record {
    create_keeps = λ vm. Keeps-bind (gets λ s. s.vm) _ (Keeps-gets λ s. s.vm) λ now.
        Keeps-bind (on_world (configure os config enc now)) _ (Framed-on_world vm _) λ cfg.
          Keeps-bind (modify (record_vsock now)) _
            (Keeps-modify (record_vsock now) (λ s h. ground arith))
            λ u. Framed-on_world vm (launch os config enc now cfg);
    start_keeps = λ vm. Keeps-throw _;
  }

  module _ (vmid : Vmid) (laws : OsLaws os (pid_path (root config.state_root vmid))) where
    -- State where a pid can be read
    state_lem :
        (id : String) (pid : ℤ) (w : W)
        → new_vmid_from_string id ≡ ok vmid
        → pid_of (laws.content w) ≡ ok pid
        → state os config enc id w ≡ (ok (if laws.is_alive w pid then running else pending), w)
    unfolding state state_of_pid
    state_lem id pid w parsed read =
        let path = pid_path (root config.state_root vmid) in
        let there = pid_read-there os path laws w pid read in
        rw (parsed, there, pid_read_lem os path laws w, read, process_exists_lem os path laws pid w)
          refl

    -- The number of a process that was started fits in 64 bits.
    started :
        (cmd : Command) (pid : ℕ) (w u : W)
        → start_firecracker os config enc cmd w ≡ (ok pid, u)
        → pid < 2 ^ 63
    unfolding start_firecracker
    started cmd pid w u h =
        let (t1, w1, e1, h1) = bind-eq-ok (os.append_file cmd.stdout) _ w u pid h in
        let (t2, w2, e2, h2) = bind-eq-ok (os.append_file cmd.stderr) _ w1 u pid h1 in
        laws.started config.run_detached cmd w2 u pid h2

    -- The process that was started, and whose pid is in the file afterwards.
    abbrev pub Launched : Session W → ℕ → Type 0
    Launched t pid =
        (v : W) × (u : W) × (start_firecracker os config enc
            (firecracker_command os config enc vmid (root config.state_root vmid)) v
          ≡ (ok pid, u))
        × (pid_write_to_file os pid (pid_path (root config.state_root vmid)) u ≡ (ok tt, t.world))

    launched :
        (vm : Microvm) (cfg : VmmConfig) (w : W) (t : Session W)
        → vm.id ≡ vmid
        → launch os config enc vm cfg w ≡ (ok tt, t.world)
        → (pid : ℕ) × Launched t pid × (pid_of (laws.content t.world) ≡ ok (pos pid))
    unfolding launch
    launched vm cfg w t is_vmid h =
        let state_root = root config.state_root vmid in
        let u = t.world in
        let (t1, w1, e1, h1) =
          bind-eq-ok (set_config os config enc cfg state_root) _ w u tt (rw is_vmid at h) in
        let (t2, w2, e2, h2) =
          bind-eq-ok (set_metadata os config enc vm.spec.metadata state_root) _ w1 u tt h1 in
        let cmd = firecracker_command os config enc vmid state_root in
        let (pid, w3, e3, h3) = bind-eq-ok (start_firecracker os config enc cmd) _ w2 u tt h2 in
        let small = started cmd pid w2 w3 e3 in
        (pid, (w2, w3, e3, h3), pid_write-read os (pid_path state_root) laws w3 u pid small h3)

    -- After a Create of firecracker that succeeds, for a microvm whose identifier has three parts
    -- that are neither empty nor contain a slash, the last things done were to start firecracker
    -- with the microvm's command and to write the number of that process to the microvm's pid file,
    -- and State of the microvm, which changes nothing, says running when that very process can be
    -- signalled and pending when it cannot. The proviso is what is documented of the operating
    -- system for that file and for processes.
    pub create-state :
        (s t : Session W)
        → s.vm.id ≡ vmid
        → IsPrintable vmid
        → create os config enc s ≡ (ok tt, t)
        → (pid : ℕ) × Launched t pid
          × (state os config enc (to_string t.vm.id) t.world
              ≡ (ok (if laws.is_alive t.world (pos pid) then running else pending), t.world))
    unfolding create
    create-state s t is_vmid printable h =
        let (cfg, s1, configured, h1) =
          bind-eq-ok (on_world (configure os config enc s.vm)) _ s t tt h in
        let same : t.vm.id ≡ vmid =
          sym (λ i. (h1 i).1.vm.id) ∙ sym (λ i. (configured i).1.vm.id) ∙ is_vmid in
        let (pid, was_launched, read) =
          launched s.vm cfg s1.world t is_vmid (λ i. ((h1 i).0, (h1 i).1.world)) in
        let parsed : new_vmid_from_string (to_string t.vm.id) ≡ ok vmid =
          rw same (from_string-to_string vmid printable) in
        (pid, was_launched, state_lem (to_string t.vm.id) (pos pid) t.world parsed read)

    -- After a Delete of firecracker that succeeds, State of the same identifier says pending,
    -- whether the process ended by itself or was killed when the time was over, if the process
    -- whose pid is in the microvm's file is a child that flintlockd has started. The proviso is
    -- what is documented of the operating system for that file and for processes.
    pub delete-state :
        (id : String) (pid : ℤ) (w u : W)
        → new_vmid_from_string id ≡ ok vmid
        → (pid_read_from_file os (pid_path (root config.state_root vmid)) w).0 ≡ ok pid
        → laws.is_own w pid ≡ true
        → delete os config enc id w ≡ (ok tt, u)
        → state os config enc id u ≡ (ok pending, u)
    unfolding delete
    delete-state id pid w u parsed read own h =
        let path = pid_path (root config.state_root vmid) in
        let reads = pid_read_lem os path laws w in
        let pid_read : pid_of (laws.content w) ≡ ok pid = sym (λ i. (reads i).0) ∙ read in
        let (t3, w3, signalled, h3) =
          bind-eq-ok (send_signal os pid sighup) _ w u tt (rw (parsed, reads, pid_read) at h) in
        let (dead, kept) = stopped-dead os path laws pid sighup w w3 u own signalled h3 in
        rw dead at (state_lem id pid u parsed (ap pid_of kept ∙ pid_read))

-- ===== src/Hypervisor/CloudHypervisor/Live.antt =====
-- infrastructure/microvm/cloudhypervisor: Create and State beside a process that is alive, and what
-- Create writes to the microvm.
use flintlock.Prelude.{
  ◌≡◌, ◌≢◌, refl, arith, String, Bool, true, false, sym, ◌∙◌, inl, inr, Bool-cases, if◌then◌else◌,
}
use flintlock.Prelude.Int.{ℤ}
use flintlock.Outcome.{Outcome, ok, fail, panic, no_fuel, unsupported_vm_state}
use flintlock.Io.{
  pure, throw, gets, modify, settle, proceed, branch, Keeps, Keeps-bind, Keeps-gets, Keeps-pure,
  Keeps-if, Keeps-throw, Keeps-modify,
}
use flintlock.Models.Vmid.{new_vmid_from_string}
use flintlock.Models.Microvm.{Microvm}
use flintlock.Ports.{Session, on_world, ProcessState, pending, running}
use flintlock.Steps.Frame.{Framed, Framed-on_world, KeepsFrame}
use flintlock.Hypervisor.Os.{pid_read_from_file, pid_write_to_file}
use flintlock.Hypervisor.Os.Laws.{OsLaws, process_exists_lem, pid_read_lem, pid_read-there, pid_of}
use flintlock.Hypervisor.CloudInitNetwork.{NetworkEncoding}
use flintlock.Hypervisor.CloudHypervisor.{root, pid_path, sock_path, vsock_path}
use flintlock.Hypervisor.CloudHypervisor.Provider.{
  CloudHypervisorConfig, VmState, Machinery, is_created_or_running, is_live, create, create_process,
  state_of_live, state, add_network_config, create_cloud_init_image, ensure_state,
  start_cloud_hypervisor, cloud_hypervisor_service,
}

module _ {W : Type 0} (machinery : Machinery W) (config : CloudHypervisorConfig)
    (parse_cidr : String → Outcome Bool) (enc : NetworkEncoding) where
  -- what State makes of the API's answer is never pending
  answered :
      (r : Outcome VmState) (w : W)
      → (settle r
          (λ e. pure running)
          (λ vm_state.
            if is_created_or_running vm_state then pure running else throw unsupported_vm_state)
          w).0
        ≢ ok pending
  answered (ok vm_state) w h = elim (Bool-cases (is_created_or_running vm_state)) [
    | inl e ↦ let bad : ok running ≡ ok pending = rw e at h in cc
    | inr e ↦
        let bad : ◌≡◌ {A = Outcome ProcessState} (fail unsupported_vm_state) (ok pending) =
          rw e at h in
        cc
  ]
  answered (fail e) w h = cc
  answered (panic f) w h = cc
  answered no_fuel w h = cc

  -- the same of whether the socket is there
  answered_socket :
      (state_root : String) (r : Outcome Bool) (w : W)
      → (proceed r
          (λ sock_exists.
            if sock_exists
            then branch
                (machinery.info (sock_path state_root))
                (λ e. pure running)
                (λ vm_state.
                  if is_created_or_running vm_state
                  then pure running
                  else throw unsupported_vm_state)
            else pure running)
          w).0
        ≢ ok pending
  answered_socket state_root (ok true) w h =
      answered (machinery.info (sock_path state_root) w).0
        (machinery.info (sock_path state_root) w).1 h
  answered_socket state_root (ok false) w h = cc
  answered_socket state_root (fail e) w h = cc
  answered_socket state_root (panic p) w h = cc
  answered_socket state_root no_fuel w h = cc

  state_of_live-not_pending :
      (state_root : String) (w : W)
      → (state_of_live machinery config parse_cidr enc state_root w).0 ≢ ok pending
  unfolding state_of_live
  state_of_live-not_pending state_root w h =
      answered_socket state_root (machinery.os.exists (sock_path state_root) w).0
        (machinery.os.exists (sock_path state_root) w).1 h

  -- No second cloud-hypervisor process is started beside one that is alive: while the pid in the
  -- microvm's file is that of a living process, Create succeeds and changes nothing, neither the
  -- microvm nor the host, and State of the microvm does not say pending, whatever is found of the
  -- socket and whatever the API answers. The proviso is what is documented of the operating system
  -- for the pid file and for processes.
  pub live-create :
      (s : Session W) (laws : OsLaws machinery.os (pid_path (root config.state_root s.vm.id)))
      (pid : ℤ)
      → (pid_read_from_file machinery.os (pid_path (root config.state_root s.vm.id)) s.world).0
        ≡ ok pid
      → laws.is_alive s.world pid ≡ true
      → (id : String) → new_vmid_from_string id ≡ ok s.vm.id
      → (create machinery config parse_cidr enc s ≡ (ok tt, s))
        × ((state machinery config parse_cidr enc id s.world).0 ≢ ok pending)
  unfolding create is_live state
  live-create s laws pid read alive id parsed =
      let path = pid_path (root config.state_root s.vm.id) in
      let reads = pid_read_lem machinery.os path laws s.world in
      let pid_read : pid_of (laws.content s.world) ≡ ok pid = sym (λ i. (reads i).0) ∙ read in
      let there = pid_read-there machinery.os path laws s.world pid pid_read in
      let known = process_exists_lem machinery.os path laws pid s.world in
      (
        rw (there, reads, pid_read, known, alive) refl,
        λ h.
            state_of_live-not_pending (root config.state_root s.vm.id) s.world
              (rw (parsed, there, reads, pid_read, known, alive) at h),
      )

module _ {W : Type 0} (machinery : Machinery W) (config : CloudHypervisorConfig)
    (parse_cidr : String → Outcome Bool) (enc : NetworkEncoding) (vm : Microvm) where
  create_cloud_init_image-Framed :
      (state_root : String)
      → Keeps (Framed vm) (create_cloud_init_image machinery config parse_cidr enc state_root)
  unfolding create_cloud_init_image add_network_config
  create_cloud_init_image-Framed state_root = record { at = λ s h. ground arith }

  -- the assignment in Create
  abbrev record_vsock : String → Session W → Session W
  record_vsock state_root s = record s {
    vm = record s.vm {
      status = record s.vm.status {
        vsock_path = if s.vm.spec.allow_guest_agent then vsock_path state_root else "";
      };
    };
  }

  create_process-Framed :
      (state_root : String)
      → Keeps (Framed vm) (create_process machinery config parse_cidr enc state_root)
  unfolding create_process
  create_process-Framed state_root =
      Keeps-bind (on_world (ensure_state machinery config parse_cidr enc state_root)) _
        (Framed-on_world vm _)
        λ u.
          Keeps-bind (create_cloud_init_image machinery config parse_cidr enc state_root) _
            (create_cloud_init_image-Framed state_root)
            λ u.
              Keeps-bind (modify (record_vsock state_root)) _
                (Keeps-modify (record_vsock state_root) (λ s h. ground arith))
                λ u. Keeps-bind (gets λ s. s.vm) _ (Keeps-gets λ s. s.vm) λ now.
                  Keeps-bind
                    (on_world
                      (start_cloud_hypervisor machinery config parse_cidr enc state_root now))
                    _ (Framed-on_world vm _)
                    λ pid.
                      Framed-on_world vm (pid_write_to_file machinery.os pid (pid_path state_root))

  create-Framed : Keeps (Framed vm) (create machinery config parse_cidr enc)
  unfolding create
  create-Framed = Keeps-bind (gets λ s. s.vm) _ (Keeps-gets λ s. s.vm) λ now.
      let state_root = root config.state_root now.id in
      Keeps-bind (on_world (is_live machinery config parse_cidr enc state_root)) _
        (Framed-on_world vm _)
        λ live.
          Keeps-if live (pure tt) (create_process machinery config parse_cidr enc state_root)
            (Keeps-pure tt) (create_process-Framed state_root)

-- The provider of cloud-hypervisor keeps the promise that the steps need of a provider: Create and
-- Start change of the microvm neither the identity nor the version, the specification (but for the
-- cloud-init metadata), the count of retries or the time to wait for, whether they succeed or not.
pub cloud_hypervisor_service-KeepsFrame :
    {W : Type 0} (machinery : Machinery W) (config : CloudHypervisorConfig)
    (parse_cidr : String → Outcome Bool) (enc : NetworkEncoding)
    → KeepsFrame (cloud_hypervisor_service machinery config parse_cidr enc)
cloud_hypervisor_service-KeepsFrame machinery config parse_cidr enc = record {
  create_keeps = create-Framed machinery config parse_cidr enc;
  start_keeps = λ vm. Keeps-throw _;
}

-- ===== src/Virtiofs/Shares.antt =====
-- infrastructure/virtiofs, and the promises that the steps on shares need.
use Prim.Native.Char.{Char}
use Prim.Native.String.{◌++◌ as ◌+++◌}
use text.Mathlib.TextLemmas.{nil-append, cons-append}
use flintlock.Prelude.{
  str_eq-of_ne, subst, ◌≡◌, refl, sym, ◌∙◌, String, true, false, ap, Option, none, some, is_empty,
  Bool-cases, inl, inr,
}
use flintlock.Prelude.Int.{ℤ}
use flintlock.Outcome.{Outcome, ok, fail, panic, no_fuel}
use flintlock.Io.{pure, settle, bind-eq-ok, pure-eq-ok}
use flintlock.Models.Vmid.{Vmid}
use flintlock.Models.Volumes.{Mount, hostpath}
use flintlock.Steps.Settle.{SharesDirectories}
use flintlock.Hypervisor.Os.{Os, sigterm, send_signal, pid_write_to_file}
use flintlock.Hypervisor.Os.Laws.{OsLaws, process_exists_lem, pid_read_lem, pid_of, stopped-dead}
use flintlock.Hypervisor.CloudHypervisor.{virtiofs_path}
use flintlock.Virtiofs.{
  VirtiofsConfig, virtiofs_pid_path, no_pid, is_no_pid, state_root, ensure_state_dir,
  start_virtiofs, virtiofs_create, virtio_pid, stop, virtiofs_delete, has_virtiofsd_process,
  virtiofs_service,
}

abbrev source_or : Option Mount → String
source_or none = ""
source_or (some mount) = mount.source

append-not_empty : (s t : String) → is_empty t ≡ false → is_empty (s +++ t) ≡ false
append-not_empty String.[] t h = rw nil-append h
append-not_empty (String.◌∷◌ c s) t h = rw cons-append (cons_lem c (s +++ t))
  where
    cons_lem : (c : Char) (s : String) → is_empty (String.◌∷◌ c s) ≡ false
    cons_lem c s = str_eq-of_ne (String.◌∷◌ c s) "" λ e. cc

module _ {W : Type 0} (os : Os W) (config : VirtiofsConfig) where
  created_lem :
      (vmid : Vmid) (path : String) (w : W) (m : Option Mount)
      → (virtiofs_create os config vmid path w).0 ≡ ok m
      → some (record { type = hostpath; source = virtiofs_path (state_root os config vmid) }) ≡ m
  unfolding virtiofs_create
  created_lem vmid path w m h =
      let dir = state_root os config vmid in
      let u = (virtiofs_create os config vmid path w).1 in
      let (t1, w1, e1, h1) = bind-eq-ok (ensure_state_dir os config dir) _ w u m (λ i. (h i, u)) in
      let (pid, w2, e2, h2) = bind-eq-ok (start_virtiofs os config path dir) _ w1 u m h1 in
      let (t3, w3, e3, h3) =
        bind-eq-ok (pid_write_to_file os pid (virtiofs_pid_path dir)) _ w2 u m h2 in
      (pure-eq-ok _ m w3 u h3).0

  socket-not_empty : (dir : String) → is_empty (virtiofs_path dir) ≡ false
  socket-not_empty dir = append-not_empty dir "/virtiofs.sock" refl

  -- The virtiofs service keeps the promises that the step on shares needs: Create never succeeds
  -- without a mount, and the mount has a source.
  pub virtiofs_service-SharesDirectories : SharesDirectories (virtiofs_service os config)
  virtiofs_service-SharesDirectories = record {
    shared = λ id path w h. let bad = created_lem id path w none h in cc;
    has_source = λ id path w mount h.
        let same = created_lem id path w (some mount) h in
        subst (λ (x : Option Mount). is_empty (source_or x) ≡ false) same
          (socket-not_empty (state_root os config id));
  }

-- the pid that is taken of what the file's pid is, or of the error
abbrev pid_or_none : Outcome ℤ → Outcome ℤ
pid_or_none (ok pid) = ok pid
pid_or_none (fail e) = ok no_pid
pid_or_none (panic p) = panic p
pid_or_none no_fuel = no_fuel

module _ {W : Type 0} (os : Os W) (config : VirtiofsConfig) (vmid : Vmid)
    (laws : OsLaws os (virtiofs_pid_path (state_root os config vmid))) where
  settled : (r : Outcome ℤ) (w : W) → settle r (λ e. pure no_pid) pure w ≡ (pid_or_none r, w)
  settled (ok pid) w = refl
  settled (fail e) w = refl
  settled (panic p) w = refl
  settled no_fuel w = refl

  virtio_pid_lem :
      (w : W) → virtio_pid os config vmid w ≡ (pid_or_none (pid_of (laws.content w)), w)
  unfolding virtio_pid
  virtio_pid_lem w =
      rw (pid_read_lem os (virtiofs_pid_path (state_root os config vmid)) laws w)
        (settled (pid_of (laws.content w)) w)

  -- no process, where the pid of the file is not that of a living one
  has_lem :
      (pid : ℤ) (w : W)
      → pid_or_none (pid_of (laws.content w)) ≡ ok pid
      → laws.is_alive w pid ≡ false
      → has_virtiofsd_process os config vmid w ≡ (ok false, w)
  unfolding has_virtiofsd_process
  has_lem pid w read dead =
      let path = virtiofs_pid_path (state_root os config vmid) in
      elim (Bool-cases (is_no_pid pid)) [
        | inl e ↦ rw (virtio_pid_lem w, read, e) refl
        | inr e ↦ rw (virtio_pid_lem w, read, e, process_exists_lem os path laws pid w, dead) refl
      ]

  -- After a Delete of the virtiofs service that succeeds no virtiofsd process of the microvm is
  -- found, and to look changes nothing: whether none was alive, or one was, which ended by itself
  -- or was killed when the time was over, if a living process whose pid is in the microvm's file is
  -- a child that flintlockd has started. The proviso is what is documented of the operating system
  -- for that file and for processes.
  pub virtiofs_delete-stopped :
      (pid : ℤ) (w u : W)
      → virtio_pid os config vmid w ≡ (ok pid, w)
      → (laws.is_alive w pid ≡ true → laws.is_own w pid ≡ true)
      → virtiofs_delete os config vmid w ≡ (ok tt, u)
      → has_virtiofsd_process os config vmid u ≡ (ok false, u)
  unfolding virtiofs_delete stop
  virtiofs_delete-stopped pid w u read own h =
      let path = virtiofs_pid_path (state_root os config vmid) in
      let pid_read : pid_or_none (pid_of (laws.content w)) ≡ ok pid =
        sym (λ i. (virtio_pid_lem w i).0) ∙ λ i. (read i).0 in
      let known = process_exists_lem os path laws pid w in
      elim (Bool-cases (laws.is_alive w pid)) [
        | inl alive ↦
            let (t1, v, signalled, d) =
              bind-eq-ok (send_signal os pid sigterm) _ w u tt (rw (read, known, alive) at h) in
            let (dead, kept) =
              stopped-dead os path laws pid sigterm w v u (own alive) signalled d in
            has_lem pid u (ap (λ r. pid_or_none (pid_of r)) kept ∙ pid_read) dead
        | inr dead ↦
            let same : w ≡ u = (pure-eq-ok tt tt w u (rw (read, known, dead) at h)).1 in
            rw (sym same) (has_lem pid w pid_read dead)
      ]

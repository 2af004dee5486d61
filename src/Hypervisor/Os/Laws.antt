-- ===== src/Hypervisor/Os/Laws.antt =====
-- What is known of the operating system, and what follows for the processes of a hypervisor.
use Prim.Native.Char.{Char, code}
use flintlock.Prelude.{
  ℕ, ◌<◌, ◌^◌, ◌≡◌, refl, String, Bool, true, false, Option, none, some, arith, ◌≤◌, ◌∙◌,
  Bool-cases, inl, inr, sym, ap, if◌then◌else◌,
}
use flintlock.Prelude.Int.{ℤ, pos}
use flintlock.Prelude.Decimal.{itoa, atoi, atoi-itoa, IsDecimal, itoa-IsDecimal}
use flintlock.Outcome.{Outcome, Error, ok, fail, panic, no_fuel, pid_not_a_number}
use flintlock.Io.{pure, proceed, bind-eq-ok, branch-eq-ok, pure-eq-ok}
use flintlock.Grpc.Sanitize.{trim_space, trim_left, trim_right, is_space}
use flintlock.Hypervisor.Os.{
  Os, Command, Signal, signal_zero, sigkill, process_exists, send_signal, kill_and_release,
  wait_with_context, pid_read_from_file, pid_write_to_file, parsed_pid,
}

is_space-digit : (c : Char) → (b'0' ≤ code c) → (code c ≤ b'9') → is_space (code c) ≡ false
unfolding is_space
is_space-digit c low high = ground arith

trim_left-IsDecimal : (s : String) → IsDecimal s → trim_left s ≡ s
unfolding trim_left
trim_left-IsDecimal String.[] h = refl
trim_left-IsDecimal (String.◌∷◌ c s) h = rw (is_space-digit c h.0 h.1) refl

trim_right-IsDecimal : (s : String) → IsDecimal s → trim_right s ≡ s
unfolding trim_right
trim_right-IsDecimal String.[] h = refl
trim_right-IsDecimal (String.◌∷◌ c s) h =
    rw (is_space-digit c h.0 h.1, trim_right-IsDecimal s h.2) (ground arith)

-- The number of a process that was written to a file is what is read of its text.
pub atoi-trim_space-itoa : (n : ℕ) → n < 2 ^ 63 → atoi (trim_space (itoa n)) ≡ some (pos n)
unfolding trim_space
atoi-trim_space-itoa n h =
    rw
      (
        trim_left-IsDecimal (itoa n) (itoa-IsDecimal n),
        trim_right-IsDecimal (itoa n) (itoa-IsDecimal n),
      )
      (atoi-itoa n h)

-- What is documented of the operating system, as far as one file is concerned that only flintlockd
-- writes. A read answers the file's text, or an error when it is missing or anything but a readable
-- file; what can be read is there; a file that was written holds the text. `is_alive` is whether the
-- process can be signalled, and `is_own` whether it is a child that flintlockd has started: of a
-- child, wait(2) says "no child processes" only when it has been waited for already, while of any
-- other process it says so at any time. Signals and waiting change neither the file nor whose child
-- a process is.
pub record OsLaws {W : Type 0} (os : Os W) (path : String) : Type 0 where
  pub content : W → Outcome String
  pub is_there : W → Outcome Bool
  pub is_alive : W → ℤ → Bool
  pub is_own : W → ℤ → Bool
  pub asked : (w : W) → os.exists path w ≡ (is_there w, w)
  pub read : (w : W) → os.read_all path w ≡ (content w, w)
  pub read_there : (t : String) (w : W) → content w ≡ ok t → is_there w ≡ ok true
  pub written : (t : String) (w u : W) → os.write_file path t w ≡ (ok tt, u) → content u ≡ ok t
  pub started :
      (detached : Bool) (c : Command) (w u : W) (pid : ℕ)
      → os.start detached c w ≡ (ok pid, u)
      → pid < 2 ^ 63
  pub found : (pid : ℤ) (w : W) → os.find_process pid w ≡ (ok tt, w)
  pub probed : (pid : ℤ) (w : W) → is_alive w pid ≡ true → os.signal pid signal_zero w ≡ (ok tt, w)
  pub not_probed :
      (pid : ℤ) (w : W)
      → is_alive w pid ≡ false
      → (e : Error) × (os.signal pid signal_zero w ≡ (fail e, w))
  pub signal_keeps :
      (pid : ℤ) (sig : Signal) (w : W)
      → (content (os.signal pid sig w).1 ≡ content w)
        × (is_own (os.signal pid sig w).1 pid ≡ is_own w pid)
  pub waited :
      (pid : ℤ) (w u : W) → os.wait_until_done pid w ≡ (ok true, u) → is_alive u pid ≡ false
  pub released : (pid : ℤ) (w u : W) → os.wait_process pid w ≡ (ok tt, u) → is_alive u pid ≡ false
  pub no_child :
      (pid : ℤ) (w u : W) (e : Error)
      → is_own w pid ≡ true
      → os.wait_process pid w ≡ (fail e, u)
      → os.is_no_child e ≡ true
      → is_alive u pid ≡ false
  pub wait_until_done_keeps :
      (pid : ℤ) (w : W)
      → (content (os.wait_until_done pid w).1 ≡ content w)
        × (is_own (os.wait_until_done pid w).1 pid ≡ is_own w pid)
  pub wait_process_keeps : (pid : ℤ) (w : W) → content (os.wait_process pid w).1 ≡ content w

abbrev pub pid_of_text : Option ℤ → Outcome ℤ
pid_of_text none = fail pid_not_a_number
pid_of_text (some pid) = ok pid

-- the pid that is read of what a read answers
abbrev pub pid_of : Outcome String → Outcome ℤ
pid_of (ok text) = pid_of_text (atoi (trim_space text))
pid_of (fail e) = fail e
pid_of (panic p) = panic p
pid_of no_fuel = no_fuel

module _ {W : Type 0} (os : Os W) (path : String) (laws : OsLaws os path) where
  pub process_exists_lem :
      (pid : ℤ) (w : W) → process_exists os pid w ≡ (ok (laws.is_alive w pid), w)
  unfolding process_exists
  process_exists_lem pid w = elim (Bool-cases (laws.is_alive w pid)) [
    | inl alive ↦ rw (laws.found pid w, laws.probed pid w alive, alive) refl
    | inr dead ↦ rw (laws.found pid w, (laws.not_probed pid w dead).1, dead) refl
  ]

  parsed_pid_lem : (o : Option ℤ) (w : W) → parsed_pid os o w ≡ (pid_of_text o, w)
  parsed_pid_lem none w = refl
  parsed_pid_lem (some pid) w = refl

  of_content :
      (r : Outcome String) (w : W)
      → proceed r (λ text. parsed_pid os (atoi (trim_space text))) w ≡ (pid_of r, w)
  of_content (ok t) w = parsed_pid_lem (atoi (trim_space t)) w
  of_content (fail e) w = refl
  of_content (panic p) w = refl
  of_content no_fuel w = refl

  -- The pid depends on the file only, and to read it changes nothing.
  pub pid_read_lem : (w : W) → pid_read_from_file os path w ≡ (pid_of (laws.content w), w)
  unfolding pid_read_from_file
  pid_read_lem w = rw (laws.read w) (of_content (laws.content w) w)

  readable :
      (r : Outcome String) (w : W) (pid : ℤ)
      → laws.content w ≡ r
      → pid_of r ≡ ok pid
      → os.exists path w ≡ (ok true, w)
  readable (ok t) w pid same h = rw (laws.asked w, laws.read_there t w same) refl
  readable (fail e) w pid same h = cc
  readable (panic p) w pid same h = cc
  readable no_fuel w pid same h = cc

  -- A file that a pid is read of is there.
  pub pid_read-there :
      (w : W) (pid : ℤ) → pid_of (laws.content w) ≡ ok pid → os.exists path w ≡ (ok true, w)
  pid_read-there w pid h = readable (laws.content w) w pid refl h

  -- A pid that was written is what is read.
  pub pid_write-read :
      (w u : W) (pid : ℕ)
      → pid < 2 ^ 63
      → pid_write_to_file os pid path w ≡ (ok tt, u)
      → pid_of (laws.content u) ≡ ok (pos pid)
  unfolding pid_write_to_file
  pid_write-read w u pid small h =
      rw (laws.written (itoa pid) w u h, atoi-trim_space-itoa pid small) refl

  kill_and_release-dead :
      (pid : ℤ) (w u : W)
      → laws.is_own w pid ≡ true
      → kill_and_release os pid w ≡ (ok tt, u)
      → (laws.is_alive u pid ≡ false) × (laws.content u ≡ laws.content w)
  unfolding kill_and_release
  kill_and_release-dead pid w u own h =
      let (tt1, v, killed, d) = bind-eq-ok (os.signal pid sigkill) _ w u tt h in
      let (same_file, same_own) = rw killed at (laws.signal_keeps pid sigkill w) in
      let keeps = laws.wait_process_keeps pid v in
      elim (branch-eq-ok (os.wait_process pid) _ _ v u tt d) [
        | inl (e, x, failed, last) ↦ elim (Bool-cases (os.is_no_child e)) [
          | inl gone ↦
              let same : x ≡ u = (pure-eq-ok tt tt x u (rw gone at last)).1 in
              rw (sym same) (
                laws.no_child pid v x e (same_own ∙ own) failed gone,
                (rw failed at keeps) ∙ same_file,
              )
          | inr other ↦
              let never : ◌≡◌ {A = Outcome (Unit {0}) × W} (fail e, x) (ok tt, u) =
                rw other at last in
              cc
        ]
        | inr (tt2, x, waited, last) ↦
            let same : x ≡ u = (pure-eq-ok tt tt x u last).1 in
            rw (sym same) (laws.released pid v x waited, (rw waited at keeps) ∙ same_file)
      ]

  -- A child that was waited for is not alive, however the wait ended, and the file is the same.
  pub wait_with_context-dead :
      (pid : ℤ) (w u : W)
      → laws.is_own w pid ≡ true
      → wait_with_context os pid w ≡ (ok tt, u)
      → (laws.is_alive u pid ≡ false) × (laws.content u ≡ laws.content w)
  unfolding wait_with_context
  wait_with_context-dead pid w u own h =
      let (tt1, v, found, d) = bind-eq-ok (os.find_process pid) _ w u tt h in
      let same : w ≡ v = (pure-eq-ok tt tt1 w v (sym (laws.found pid w) ∙ found)).1 in
      let (exited, x, waited, last) = bind-eq-ok (os.wait_until_done pid) _ v u tt d in
      let (same_file, same_own) = rw waited at (laws.wait_until_done_keeps pid v) in
      after exited x waited last (same_file ∙ ap laws.content (sym same))
        (same_own ∙ ap (λ y. laws.is_own y pid) (sym same) ∙ own)
    where
      after :
          {v : W} (exited : Bool) (x : W)
          → os.wait_until_done pid v ≡ (ok exited, x)
          → (if exited then pure tt else kill_and_release os pid) x ≡ (ok tt, u)
          → laws.content x ≡ laws.content w
          → laws.is_own x pid ≡ true
          → (laws.is_alive u pid ≡ false) × (laws.content u ≡ laws.content w)
      after {v} true x waited last keeps own =
          rw (sym (pure-eq-ok tt tt x u last).1) (laws.waited pid v x waited, keeps)
      after false x waited last keeps own =
          let dead = kill_and_release-dead pid x u own last in (dead.0, dead.1 ∙ keeps)

  -- So it is when it was signalled before, as Delete does.
  pub stopped-dead :
      (pid : ℤ) (sig : Signal) (w v u : W)
      → laws.is_own w pid ≡ true
      → send_signal os pid sig w ≡ (ok tt, v)
      → wait_with_context os pid v ≡ (ok tt, u)
      → (laws.is_alive u pid ≡ false) × (laws.content u ≡ laws.content w)
  unfolding send_signal
  stopped-dead pid sig w v u own signalled waited =
      let (tt1, x, found, d) = bind-eq-ok (os.find_process pid) _ w v tt signalled in
      let same : w ≡ x = (pure-eq-ok tt tt1 w x (sym (laws.found pid w) ∙ found)).1 in
      let (same_file, same_own) = rw d at (laws.signal_keeps pid sig x) in
      let (dead, keeps) =
        wait_with_context-dead pid v u (same_own ∙ ap (λ y. laws.is_own y pid) (sym same) ∙ own)
          waited in
      (dead, keeps ∙ same_file ∙ ap laws.content (sym same))

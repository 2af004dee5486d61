-- ===== src/App/Reconcile/Backoff.antt =====
-- Retries of core/application/reconcile.go: when a microvm is left alone, and for how long.
use flintlock.Prelude.{ℕ, ◌+◌, ◌*◌, ◌<◌, ◌≤◌, ◌≡◌, String, false, arith}
use flintlock.Outcome.{Error, ok, fail}
use flintlock.Io.{Io}
use flintlock.Ports.{Session, Collection}
use flintlock.Models.Microvm.{created}
use flintlock.Steps.Status.{with_status}
use flintlock.Steps.CloudInit.{Encoding}
use flintlock.Plans.CreateUpdate
use flintlock.App.{Config}
use flintlock.App.Reconcile.{
  backoff_base_in_seconds, finalise, must_wait, reconcile, reschedule, save_state, conclude_plan,
  or_reschedule,
}

module _ {W : Type 0} (cfg : Config) (enc : Encoding) (ports : Collection W)
    (join : String → String → String → String) where
  -- When the retries are not used up and the clock reads a time before the one that the microvm
  -- waits for, a reconciliation succeeds, changes nothing of the microvm, and has only read the
  -- clock.
  pub reconcile-waits :
      (rounds now : ℕ) (s : Session W)
      → s.vm.status.retry ≤ cfg.maximum_retry
      → (ports.time_now s.world).0 ≡ ok now
      → now < s.vm.status.not_before
      → reconcile cfg enc ports join rounds s
        ≡ (ok tt, record s { world = (ports.time_now s.world).1 })
  unfolding reconcile must_wait
  reconcile-waits rounds now s h e l = ground arith

  -- Rescheduling adds one to the retries and, if the clock can be read, sets the time to wait for
  -- to 20 seconds for each retry so far from then on; of the microvm it changes nothing else, even
  -- when saving or publishing fails.
  pub reschedule-backoff :
      (now : ℕ) (s : Session W)
      → (ports.time_now s.world).0 ≡ ok now
      → let retry = s.vm.status.retry + 1 in
        (reschedule cfg enc ports join s).1.vm
        ≡ with_status
            (λ t. record t { retry = retry; not_before = now + retry * backoff_base_in_seconds })
            s.vm
  unfolding reschedule
  reschedule-backoff now s e = ground arith

  -- A failure is not retried before the wait is over: if the microvm had fewer retries than the
  -- maximum and the clock was read, then until `(retry + 1) * 20` seconds after that time every
  -- reconciliation of the rescheduled microvm succeeds, leaves it as it is, and only reads the
  -- clock.
  pub reschedule-then_waits :
      (rounds now later : ℕ) (s : Session W) (w : W)
      → s.vm.status.retry < cfg.maximum_retry
      → (ports.time_now s.world).0 ≡ ok now
      → (ports.time_now w).0 ≡ ok later
      → later < now + (s.vm.status.retry + 1) * backoff_base_in_seconds
      → let vm = (reschedule cfg enc ports join s).1.vm in
        reconcile cfg enc ports join rounds (record { vm = vm; world = w })
        ≡ (ok tt, record { vm = vm; world = (ports.time_now w).1 })
  unfolding reschedule
  reschedule-then_waits rounds now later s w h e l d =
      let b = reschedule-backoff now s e in
      let vm = (reschedule cfg enc ports join s).1.vm in
      reconcile-waits rounds later (record { vm = vm; world = w }) (grind arith) l (grind arith)

  -- After a plan, not one to delete, that executed at least one step, the microvm becomes created,
  -- with no retries and no time to wait for, and is saved so.
  pub conclude_plan-created :
      (steps : ℕ) (s : Session W)
      → let last =
          with_status (λ t. record t { retry = 0; not_before = 0; state = created }) s.vm in
        (conclude_plan cfg enc ports join false (steps + 1) s).1
        ≡ record { vm = last; world = (ports.repo.save last s.world).1 }
  unfolding conclude_plan save_state finalise CreateUpdate.finalise
  conclude_plan-created steps s = ground arith

  -- When an operation fails and the microvm can be rescheduled, the operation's error is what the
  -- caller gets, after the microvm was rescheduled in the session that the operation left.
  pub or_reschedule-fail :
      {A : Type 0} (m : Io (Session W) A) (s t : Session W) (x : Error)
      → m s ≡ (fail x, t)
      → ((reschedule cfg enc ports join t).0 ≡ ok tt)
      → or_reschedule cfg enc ports join m s ≡ (fail x, (reschedule cfg enc ports join t).1)
  unfolding or_reschedule
  or_reschedule-fail m s t x h k = ground arith

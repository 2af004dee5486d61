-- ===== src/Steps/Process.antt =====
-- core/steps/microvm and core/steps/event: the hypervisor's process, and the published event.
-- The steps hold the pointer to the microvm of the plan, which is not nil.
use flintlock.Prelude.{String, Bool, true, false, not, ◌||◌}
use flintlock.Outcome.{unable_to_boot}
use flintlock.Io.{Io, ◌>>=◌, pure, gets, fail_if}
use flintlock.Ports.{
  Session, on_world, MicrovmService, ProcessState, unknown, pending, running, Event, Collection,
}
use flintlock.Models.Vmid.{to_string}

abbrev pub is_pending : ProcessState → Bool
is_pending pending = true
is_pending _ = false

abbrev pub is_running : ProcessState → Bool
is_running running = true
is_running _ = false

abbrev pub is_unknown : ProcessState → Bool
is_unknown unknown = true
is_unknown _ = false

module _ {W : Type 0} (vm_svc : MicrovmService W) where
  -- s.vmSvc.State(ctx, s.vm.ID.String())
  abbrev process_state : Io (Session W) ProcessState
  process_state = do vm ← gets (λ s. s.vm); on_world (vm_svc.state (to_string vm.id))

  -- createStep.ShouldDo
  unfoldable pub create_should_do : Io (Session W) Bool
  create_should_do = do state ← process_state; pure (is_pending state)

  -- createStep.Do
  unfoldable pub create_do : Io (Session W) (Unit {0})
  create_do = vm_svc.create

  -- startStep.ShouldDo
  unfoldable pub start_should_do : Io (Session W) Bool
  start_should_do = do state ← process_state; pure (not (is_running state))

  -- startStep.Do
  unfoldable pub start_do : Io (Session W) (Unit {0})
  start_do = vm_svc.start

  -- startStep.Verify, after the wait for the boot
  unfoldable pub start_verify : Io (Session W) (Unit {0})
  start_verify = do state ← process_state; fail_if (not (is_running state)) unable_to_boot

  -- deleteStep.ShouldDo
  unfoldable pub delete_should_do : Io (Session W) Bool
  delete_should_do = do state ← process_state; pure (not (is_pending state || is_unknown state))

  -- deleteStep.Do
  unfoldable pub delete_do : Io (Session W) (Unit {0})
  delete_do = do vm ← gets (λ s. s.vm); on_world (vm_svc.delete (to_string vm.id))

module _ {W : Type 0} (ports : Collection W) where
  -- eventPublish.Do
  unfoldable pub publish_do : String → Event → Io (Session W) (Unit {0})
  publish_do topic event = on_world (ports.publish topic event)

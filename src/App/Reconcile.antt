-- ===== src/App/Reconcile.antt =====
-- core/application/reconcile.go. `rounds` is the fuel of the actuator's loop; no step has child
-- steps, so that one level of nesting is enough (see Planner/Leaves).
pub mod Backoff
pub mod Execution
use flintlock.Prelude.{
  ℕ, ◌+◌, ◌*◌, String, Bool, false, not, ◌==◌, ltb, List, Option, none, some, if◌then◌else◌,
}
use flintlock.Outcome.{Error, Outcome, ok, fail, panic, no_fuel, nil_dereference}
use flintlock.Io.{Io, ◌>>=◌, ◌>>◌, pure, throw, gets, lift}
use flintlock.Ports.{Session, on_world, Collection, spec_updated}
use flintlock.Models.Vmid.{Vmid}
use flintlock.Models.Microvm.{Microvm, MicrovmState, created, failed}
use flintlock.Planner.{Run, execute_plan}
use flintlock.Steps.Status.{update_vm, with_status}
use flintlock.Steps.CloudInit.{Encoding}
use flintlock.Steps.Step.{Step, procedures}
use flintlock.Plans.CreateUpdate
use flintlock.Plans.Delete
use flintlock.Plans.Delete.{topic_microvm_events, state_dir_of}
use flintlock.App.{Config}

abbrev pub backoff_base_in_seconds : ℕ
backoff_base_in_seconds = 20

-- `spec.Spec.DeletedAt != 0`: the test by which `plan` chooses the plan
abbrev pub is_deleted : Microvm → Bool
is_deleted vm = not (vm.spec.deleted_at == 0)

-- what a run reports: `(int, error)`
abbrev pub to_io : {S : Type 0} → Run S → Outcome ℕ × S
to_io r = elim r.result [
  | ok _ ↦ (ok r.executed, r.state)
  | fail e ↦ (fail e, r.state)
  | panic f ↦ (panic f, r.state)
  | no_fuel ↦ (no_fuel, r.state)
]

-- plan.Finalise of the chosen plan
unfoldable pub finalise : Bool → MicrovmState → Microvm → Microvm
unfolding CreateUpdate.finalise Delete.finalise
finalise deleted state vm =
    if deleted then Delete.finalise state vm else CreateUpdate.finalise state vm

module _ {W : Type 0} (cfg : Config) (enc : Encoding) (ports : Collection W)
    (join : String → String → String → String) where
  -- plan, with the plan's Create
  unfoldable pub create_of : Bool → Microvm → Io (Session W) (List (Step W))
  unfolding state_dir_of
  create_of deleted vm =
      if deleted
      then Delete.create enc ports (state_dir_of join cfg.root_state_dir vm)
      else CreateUpdate.create enc ports cfg.root_state_dir

  -- actuator.Execute
  unfoldable pub execute : ℕ → Bool → Microvm → Io (Session W) ℕ
  unfolding create_of
  execute rounds deleted vm s =
      to_io (execute_plan (procedures enc ports) rounds 1 (create_of deleted vm) 0 s)

  -- reschedule. What `Save` writes back to the microvm is not read again.
  unfoldable pub reschedule : Io (Session W) (Unit {0})
  reschedule = do
    update_vm (with_status λ t. record t { retry = t.retry + 1 })
    vm ← gets (λ s. s.vm)
    let wait = vm.status.retry * backoff_base_in_seconds
    now ← on_world ports.time_now
    update_vm (with_status λ t. record t { not_before = now + wait })
    spec ← gets (λ s. s.vm)
    on_world (ports.repo.save spec)
    on_world (
        ports.publish_later wait topic_microvm_events (
          spec_updated
            (record { id = spec.id.name; namespace = spec.id.namespace; uid = spec.id.uid })))

  -- `if err != nil { reschedule; return err }`; an error of `reschedule` takes the other's place
  after_error : {A : Type 0} → Error → Io (Session W) A
  unfolding reschedule
  after_error e = do reschedule; throw e

  handle_error : {A : Type 0} → Outcome A → Io (Session W) A
  unfolding after_error
  handle_error (ok a) = pure a
  handle_error (fail e) = after_error e
  handle_error (panic f) = lift (panic f)
  handle_error no_fuel = lift no_fuel

  unfoldable pub or_reschedule : {A : Type 0} → Io (Session W) A → Io (Session W) A
  unfolding handle_error
  or_reschedule m s = let (r, t) = m s in handle_error r t

  -- saveState
  unfoldable pub save_state : Bool → MicrovmState → Io (Session W) (Unit {0})
  unfolding finalise
  save_state deleted state = do
    update_vm (finalise deleted state)
    spec ← gets (λ s. s.vm)
    on_world (ports.repo.save spec)
    pure tt

  -- `NotBefore > 0 && time.Now().Before(time.Unix(NotBefore, 0))`
  unfoldable pub must_wait : Microvm → Io (Session W) Bool
  must_wait vm =
      if ltb 0 vm.status.not_before
      then (do now ← on_world ports.time_now; pure (ltb now vm.status.not_before))
      else pure false

  -- the end of reconcile, after a plan that succeeded with `step_count` steps
  unfoldable pub conclude_plan : Bool → ℕ → Io (Session W) (Unit {0})
  unfolding save_state
  conclude_plan deleted step_count =
      if deleted then pure tt else if step_count == 0 then pure tt else (do
        update_vm (with_status λ t. record t { retry = 0; not_before = 0 })
        save_state deleted created)

  -- reconcile, from the execution id on
  unfoldable pub execute_and_conclude : ℕ → Microvm → Io (Session W) (Unit {0})
  unfolding or_reschedule execute conclude_plan
  execute_and_conclude rounds vm = do
    execution_id ← or_reschedule (on_world ports.generate_random)
    step_count ← or_reschedule (execute rounds (is_deleted vm) vm)
    conclude_plan (is_deleted vm) step_count

  -- reconcile
  unfoldable pub reconcile : ℕ → Io (Session W) (Unit {0})
  unfolding save_state must_wait execute_and_conclude
  reconcile rounds = do
    vm ← gets (λ s. s.vm)
    if ltb cfg.maximum_retry vm.status.retry
        then save_state (is_deleted vm) failed
        else do wait ← must_wait vm; if wait then pure tt else execute_and_conclude rounds vm

  reconcile_found : ℕ → Option Microvm → Io W (Unit {0})
  unfolding reconcile
  reconcile_found rounds none w = (panic nil_dereference, w)
  reconcile_found rounds (some spec) w =
      let (r, s) = reconcile rounds (record { vm = spec; world = w }) in (r, s.world)

  -- ReconcileMicroVM
  unfoldable pub reconcile_microvm : ℕ → Vmid → Io W (Unit {0})
  unfolding reconcile_found
  reconcile_microvm rounds vmid = do
    spec ←
        ports.repo.get
          (record { name = vmid.name; namespace = vmid.namespace; version = ""; uid = vmid.uid })
    reconcile_found rounds spec

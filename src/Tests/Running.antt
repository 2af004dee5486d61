-- ===== src/Tests/Running.antt =====
-- Runs of the controller with one or two workers.
use flintlock.Prelude.{refl, true, false, [], ◌∷◌, ◌⊎◌, inr, arith}
use flintlock.Prelude.Family.{update}
use flintlock.Queue.{new_simple_sync_queue, exists, enqueue, dequeue, dequeue_items}
use flintlock.Models.Vmid.{to_string, new_vmid_from_string, split_vmid_from_string, new_vmid, split}
use flintlock.Controller.{goes_on, process_queue_item, work_on, reconciled}
use flintlock.Controller.Running.{
  other, takes, fails, idle, reconciling, selecting, Running, initial, start_next, start_done, take,
  retry, Run, here, next,
}
use flintlock.Controller.Running.Invariants.{IsSound, Run-IsSound}
use flintlock.Controller.Running.Outstanding.{IsOutstanding, IsEnded, Run-IsOutstanding}
use flintlock.Controller.Running.Worked.{Reaches, process_queue_item-Reaches}
use flintlock.Tests.Host.{empty_host}
use flintlock.Tests.Workers.{specs, failing}

-- Run with one stored microvm, resynced on start, which the first worker has taken.
abbrev resynced : Running
resynced = record (initial []) {
  queue = record { items = "ns/one/01ABC" ∷ []; shutting_down = false };
  listener = selecting;
}

abbrev taken : Running
taken = record resynced {
  queue = record { items = []; shutting_down = false };
  worker = update (λ i. idle) 0 (reconciling "ns/one/01ABC");
}

resyncing : Run 2 (initial specs) (takes "ns/one/01ABC" ∷ other ∷ other ∷ []) taken
unfolding to_string new_simple_sync_queue enqueue exists dequeue dequeue_items new_vmid_from_string
    split_vmid_from_string new_vmid split
resyncing =
    next (next (next here (start_next refl)) (start_done refl))
      (take 0 (omega arith) refl refl refl refl)

Run-IsSound_example : IsSound taken
Run-IsSound_example = Run-IsSound specs resyncing

abbrev ready : Running
ready = record taken {
  queue = record { items = "ns/one/01ABC" ∷ []; shutting_down = false };
  worker = update (update (λ i. idle) 0 (reconciling "ns/one/01ABC")) 0 idle;
}

retrying : Run 2 taken (fails "ns/one/01ABC" ∷ []) ready
unfolding enqueue exists
retrying = next here (retry 0 (omega arith) refl)

Run-IsOutstanding_example :
    IsOutstanding 2 "ns/one/01ABC" ready ⊎ IsEnded "ns/one/01ABC" (fails "ns/one/01ABC" ∷ [])
Run-IsOutstanding_example =
    Run-IsOutstanding 2 "ns/one/01ABC" retrying refl (inr (0, omega arith, refl))

abbrev down : Running
down = record ready {
  queue = record { items = "ns/one/01ABC" ∷ []; shutting_down = true };
  is_cancelled = true;
}

process_queue_item-Reaches_example :
    Reaches 2 ready 0
      (fails "ns/one/01ABC" ∷ takes "ns/one/01ABC" ∷ [])
      (process_queue_item failing (record { queue = ready.queue; world = empty_host })).1.queue
      idle
unfolding process_queue_item work_on reconciled dequeue dequeue_items new_vmid_from_string
    split_vmid_from_string new_vmid split
process_queue_item-Reaches_example =
    process_queue_item-Reaches failing 2 ready 0 (omega arith) refl refl empty_host goes_on refl

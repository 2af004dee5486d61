-- ===== src/Controller/Running/Drain.antt =====
-- infrastructure/controllers/microvm_controller.go: how the workers of Run come to their end.
use flintlock.Prelude.{ℕ, suc, ◌+◌, ◌*◌, String, List, [], ◌∷◌}
use flintlock.Prelude.Family.{sum_below}
use flintlock.Controller.Running.{Act, other, Worker, reconciling, idle, finished, Running}

-- How many steps a worker may still take besides one for each item.
abbrev weight : Worker → ℕ
weight idle = 1
weight (reconciling id) = 2
weight finished = 0

-- The native length of the list of items.
unfoldable count : List String → ℕ
count [] = 0
count (x ∷ xs) = suc (count xs)

-- A bound of the steps that the workers take once the queue is shut down: two for each item, and one
-- for each worker, or two if it reconciles.
unfoldable pub steps_left : ℕ → Running → ℕ
unfolding count sum_below
steps_left n s = 2 * count s.queue.items + sum_below weight s.worker n

-- the number of acts that are a worker's
abbrev pub worker_acts : List Act → ℕ
worker_acts [] = 0
worker_acts (other ∷ acts) = worker_acts acts
worker_acts (_ ∷ acts) = suc (worker_acts acts)

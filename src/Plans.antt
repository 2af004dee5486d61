-- ===== src/Plans.antt =====
-- core/plans: the plan that creates or updates a microvm, and the plan that deletes it.
-- The steps that a plan has gathered so far are the argument and the result of each call that adds
-- to them; `clearPlanList` makes every `Create` begin with none.
pub mod CreateUpdate
pub mod Delete
pub mod Order
use flintlock.Prelude.{Bool, List, [], ◌∷◌, ◌++◌, if◌then◌else◌}
use flintlock.Io.{Io, ◌>>=◌, pure}
use flintlock.Ports.{Session, Collection}
use flintlock.Steps.CloudInit.{Encoding}
use flintlock.Steps.Step.{Step, should_do}

module _ {W : Type 0} (enc : Encoding) (ports : Collection W) where
  -- addStep, of both plans: a step is planned if it says that it should be done
  unfoldable pub add_step : List (Step W) → Step W → Io (Session W) (List (Step W))
  add_step steps step = do
    needed ← should_do enc ports step
    pure (if needed then steps ++ step ∷ [] else steps)

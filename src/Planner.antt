-- ===== src/Planner.antt =====
-- pkg/planner: the actuator. The procedures `P` of a plan and what they do are parameters; the
-- plans and steps are in Plans and Steps. Fuel bounds the nesting of child steps (`depth`) and the
-- rounds of `executePlan` (`rounds`); running out is the result `no_fuel`.
pub mod React
pub mod Leaves
pub mod Rounds
use flintlock.Prelude.{ℕ, zero, suc, ◌+◌, Bool, true, false, List, [], ◌∷◌, Option, none, some}
use flintlock.Outcome.{Error, Outcome, ok, fail, panic, no_fuel}
use flintlock.Io.{Io}

-- planner.Procedure, with the context's error as one more operation of the state
pub record Procedures (S P : Type 0) : Type 0 where
  pub should_do : P → Io S Bool
  pub perform : P → Io S (List P)
  pub verify : P → Io S (Unit {0})
  pub context_error : S → Option Error

-- A run of steps: how many were executed, what it came to, and the state it leaves.
pub record Run (S : Type 0) : Type 0 where
  pub executed : ℕ
  pub result : Outcome (Unit {0})
  pub state : S

-- One step: whether it was executed, the value of `childSteps` after it, and the state.
pub record StepRun (S P : Type 0) : Type 0 where
  pub executed : ℕ
  pub child_steps : Outcome (List P)
  pub state : S

-- `if err != nil { return n, err }`, and what follows it otherwise.
unfoldable pub conclude : {S A : Type 0} → ℕ → Outcome A → S → (A → Run S) → Run S
conclude n (ok a) s next = next a
conclude n (fail e) s next = record { executed = n; result = fail e; state = s }
conclude n (panic f) s next = record { executed = n; result = panic f; state = s }
conclude n no_fuel s next = record { executed = n; result = no_fuel; state = s }

-- Go on after a run that succeeded, adding up the counts.
unfoldable pub and_then : {S : Type 0} → ℕ → Run S → (S → Run S) → Run S
unfolding conclude
and_then n r next =
    conclude (n + r.executed) r.result r.state
      λ _. let rest = next r.state in record rest { executed = n + r.executed + rest.executed }

-- The child steps of a step, once Verify has returned.
abbrev pub after_verify : {P : Type 0} → Outcome (Unit {0}) → List P → Outcome (List P)
after_verify (ok u) children = ok children
after_verify (fail e) children = fail e
after_verify (panic f) children = panic f
after_verify no_fuel children = no_fuel

module _ {S P : Type 0} (o : Procedures S P) where
  unfoldable pub verify_next : P → List P → S → StepRun S P
  verify_next p children s =
      let (r, t) = o.verify p s in
      record { executed = 1; child_steps = after_verify r children; state = t }

  unfoldable pub do_next : P → Outcome (List P) → S → StepRun S P
  unfolding verify_next
  do_next p (ok children) s = verify_next p children s
  do_next p (fail e) s = record { executed = 1; child_steps = fail e; state = s }
  do_next p (panic f) s = record { executed = 1; child_steps = panic f; state = s }
  do_next p no_fuel s = record { executed = 1; child_steps = no_fuel; state = s }

  -- A step that is not done leaves `childSteps` as the step before it set it.
  unfoldable pub should_do_next : P → List P → Outcome Bool → S → StepRun S P
  unfolding do_next
  should_do_next p children (ok true) s = let (r, t) = o.perform p s in do_next p r t
  should_do_next p children (ok false) s = record {
    executed = 0;
    child_steps = ok children;
    state = s;
  }
  should_do_next p children (fail e) s = record { executed = 0; child_steps = fail e; state = s }
  should_do_next p children (panic f) s = record { executed = 0; child_steps = panic f; state = s }
  should_do_next p children no_fuel s = record { executed = 0; child_steps = no_fuel; state = s }

  -- the `select` in the loop of `react`
  unfoldable pub run_step : P → List P → S → StepRun S P
  unfolding should_do_next
  run_step p children s = elim (o.context_error s) [
    | some e ↦ record { executed = 0; child_steps = fail e; state = s }
    | none ↦ let (r, t) = o.should_do p s in should_do_next p children r t
  ]

  -- react. To react on no child steps does nothing, which is the test `len(childSteps) > 0`.
  unfoldable pub react : ℕ → List P → List P → S → Run S
  unfolding run_step and_then conclude
  react depth [] children s = record { executed = 0; result = ok tt; state = s }
  react zero (p ∷ steps) children s = record { executed = 0; result = no_fuel; state = s }
  react (suc depth) (p ∷ steps) children s =
      let r = run_step p children s in
      conclude r.executed r.child_steps r.state
        λ cs. and_then r.executed (react depth cs [] r.state) (λ t. react (suc depth) steps cs t)

  -- One round of the loop after `plan.Create`: `again` is the next iteration.
  unfoldable pub round : ℕ → (ℕ → S → Run S) → ℕ → S → List P → Run S
  unfolding react conclude
  round depth again n s [] = record { executed = n; result = ok tt; state = s }
  round depth again n s (p ∷ steps) =
      let x = react depth (p ∷ steps) [] s in
      conclude (n + x.executed) x.result x.state λ _. again (n + x.executed) x.state

  -- executePlan, and Execute: the loop, with `numStepsExecuted` so far
  unfoldable pub execute_plan : ℕ → ℕ → Io S (List P) → ℕ → S → Run S
  unfolding round
  execute_plan zero depth create n s = record { executed = n; result = no_fuel; state = s }
  execute_plan (suc rounds) depth create n s =
      let (r, t) = create s in conclude n r t (round depth (execute_plan rounds depth create) n t)

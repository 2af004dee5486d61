-- ===== src/App/Reconcile/Execution.antt =====
-- The actuator of pkg/planner on the steps of core/steps, as core/application/reconcile.go uses it.
use flintlock.Prelude.{ℕ, suc, ◌≡◌, refl, String, Bool, List, [], arith}
use flintlock.Outcome.{Outcome, ok, fail, panic, no_fuel}
use flintlock.Io.{pure, proceed}
use flintlock.Ports.{Session, Collection}
use flintlock.Models.Microvm.{Microvm}
use flintlock.Planner.{Run, react}
use flintlock.Planner.Leaves.{IsLeafy, run_all, react-eq-run_all}
use flintlock.Planner.Rounds.{execute_plan-done}
use flintlock.Steps.CloudInit.{Encoding}
use flintlock.Steps.Step.{Step, do_step, procedures}
use flintlock.App.{Config}
use flintlock.App.Reconcile.{create_of, execute, to_io}

module _ {W : Type 0} (enc : Encoding) (ports : Collection W) where
  -- No step of core/steps has child steps.
  procedures-IsLeafy : IsLeafy (procedures enc ports)
  unfolding procedures
  procedures-IsLeafy = record { no_children = λ p s cs h. leaf (do_step enc ports p s).0 _ cs h }
    where
      leaf :
          (r : Outcome (Unit {0})) (s : Session W) (cs : List (Step W))
          → (proceed r (λ u. pure []) s).0 ≡ ok cs
          → cs ≡ []
      leaf (ok u) s cs h = cc
      leaf (fail e) s cs h = cc
      leaf (panic f) s cs h = cc
      leaf no_fuel s cs h = cc

  -- On the steps of core/steps, whatever steps they are, the actuator is the plain loop that does
  -- them one after the other, each at most once, up to the first error; one level of the model's
  -- fuel for nested steps is enough.
  pub react-procedures :
      (depth : ℕ) (steps : List (Step W)) (s : Session W)
      → react (procedures enc ports) (suc depth) steps [] s ≡ run_all (procedures enc ports) steps s
  react-procedures depth steps s =
      react-eq-run_all (procedures enc ports) procedures-IsLeafy depth steps s

module _ {W : Type 0} where
  to_io-eq-ok :
      (r : Run (Session W)) (n : ℕ) (t : Session W)
      → to_io r ≡ (ok n, t)
      → (r.result ≡ ok tt) × (r.state ≡ t)
  to_io-eq-ok r n t h = go r.result refl
    where
      go : (x : Outcome (Unit {0})) → r.result ≡ x → (r.result ≡ ok tt) × (r.state ≡ t)
      go (ok u) e = grind arith
      go (fail u) e = grind arith
      go (panic u) e = grind arith
      go no_fuel e = grind arith

module _ {W : Type 0} (cfg : Config) (enc : Encoding) (ports : Collection W)
    (join : String → String → String → String) where
  -- When a reconciliation has executed the plan of a microvm without error, the plan was made once
  -- more and had no step: the session that is left is the one in which planning found nothing to
  -- do.
  pub execute-done :
      (rounds n : ℕ) (deleted : Bool) (vm : Microvm) (s t : Session W)
      → execute cfg enc ports join rounds deleted vm s ≡ (ok n, t)
      → (u : Session W) × (create_of cfg enc ports join deleted vm u ≡ (ok [], t))
  unfolding execute
  execute-done rounds n deleted vm s t h =
      let (e, d) = to_io-eq-ok _ n t h in
      let (u, f) =
        execute_plan-done (procedures enc ports) 1 (create_of cfg enc ports join deleted vm) rounds
          0 s e in
      (u, rw d at f)

-- ===== src/Planner/Leaves.antt =====
-- Plans whose procedures return no child steps, as all procedures of core/steps do.
use flintlock.Prelude.{
  ℕ, suc, ◌+◌, ◌≡◌, ◌≢◌, refl, ap, ◌∙◌, Bool, true, false, List, [], ◌∷◌, arith, Option-cases, inl,
  inr,
}
use flintlock.Outcome.{Outcome, ok, fail, panic, no_fuel}
use flintlock.Planner.{
  Procedures, Run, after_verify, verify_next, do_next, should_do_next, run_step, conclude, and_then,
  react,
}
use flintlock.Planner.React.{conclude-ne-no_fuel}

-- No procedure returns child steps.
pub record IsLeafy {S P : Type 0} (o : Procedures S P) : Type 0 where
  pub no_children : (p : P) (s : S) (cs : List P) → (o.perform p s).0 ≡ ok cs → cs ≡ []

-- No operation runs out of the model's fuel.
pub record IsTotal {S P : Type 0} (o : Procedures S P) : Type 0 where
  pub should_do_total : (p : P) (s : S) → (o.should_do p s).0 ≢ no_fuel
  pub perform_total : (p : P) (s : S) → (o.perform p s).0 ≢ no_fuel
  pub verify_total : (p : P) (s : S) → (o.verify p s).0 ≢ no_fuel

module _ {S P : Type 0} (o : Procedures S P) where
  -- The plain loop over the steps: stop at the first error, count those that were done.
  unfoldable pub run_all : List P → S → Run S
  unfolding conclude
  run_all [] s = record { executed = 0; result = ok tt; state = s }
  run_all (p ∷ steps) s =
      let r = run_step o p [] s in
      conclude r.executed r.child_steps r.state λ _.
        let rest = run_all steps r.state in record rest { executed = r.executed + rest.executed }

  conclude_ext :
      {A : Type 0} (n : ℕ) (r : Outcome A) (s : S) (f g : A → Run S)
      → ((a : A) → r ≡ ok a → f a ≡ g a)
      → conclude n r s f ≡ conclude n r s g
  unfolding conclude
  conclude_ext n (ok a) s f g h = h a refl
  conclude_ext n (fail e) s f g h = refl
  conclude_ext n (panic x) s f g h = refl
  conclude_ext n no_fuel s f g h = refl

module _ {S P : Type 0} (o : Procedures S P) (t : IsTotal o) where
  verify_next-total : (p : P) (cs : List P) (s : S) → (verify_next o p cs s).child_steps ≢ no_fuel
  unfolding verify_next
  verify_next-total p cs s h = verified (o.verify p s).0 (t.verify_total p s) h
    where
      verified : (v : Outcome (Unit {0})) → v ≢ no_fuel → after_verify v cs ≢ no_fuel
      verified (ok u) d e = cc
      verified (fail u) d e = cc
      verified (panic u) d e = cc
      verified no_fuel d e = d refl

  do_next-total :
      (p : P) (r : Outcome (List P)) (s : S) → r ≢ no_fuel → (do_next o p r s).child_steps ≢ no_fuel
  unfolding do_next
  do_next-total p (ok cs) s h = verify_next-total p cs s
  do_next-total p (fail x) s h = λ e. cc
  do_next-total p (panic x) s h = λ e. cc
  do_next-total p no_fuel s h = λ e. h refl

  should_do_next-total :
      (p : P) (r : Outcome Bool) (s : S)
      → r ≢ no_fuel
      → (should_do_next o p [] r s).child_steps ≢ no_fuel
  unfolding should_do_next
  should_do_next-total p (ok true) s h =
      do_next-total p (o.perform p s).0 (o.perform p s).1 (t.perform_total p s)
  should_do_next-total p (ok false) s h = λ e. cc
  should_do_next-total p (fail x) s h = λ e. cc
  should_do_next-total p (panic x) s h = λ e. cc
  should_do_next-total p no_fuel s h = λ e. h refl

  run_step-total : (p : P) (s : S) → (run_step o p [] s).child_steps ≢ no_fuel
  unfolding run_step
  run_step-total p s h = elim (Option-cases (o.context_error s)) [
    | inl e ↦
        should_do_next-total p (o.should_do p s).0 (o.should_do p s).1 (t.should_do_total p s)
          (rw (e, run_step) at h)
    | inr (x, e) ↦ cc (rw (e, run_step) at h)
  ]

  run_all-total : (steps : List P) (s : S) → (run_all o steps s).result ≢ no_fuel
  unfolding run_all
  run_all-total [] s = λ e. cc
  run_all-total (p ∷ steps) s =
      let r = run_step o p [] s in
      conclude-ne-no_fuel r.executed r.child_steps r.state _ (run_step-total p s)
        λ _ _. run_all-total steps r.state

and_then-nil :
    {S : Type 0} (n : ℕ) (s : S) (next : S → Run S)
    → and_then n (record { executed = 0; result = ok tt; state = s }) next
      ≡ record (next s) { executed = n + (next s).executed }
unfolding and_then conclude
and_then-nil n s next = ground arith

module _ {S P : Type 0} (o : Procedures S P) (l : IsLeafy o) where
  do_next-no_children :
      (p : P) (r : Outcome (List P)) (s : S) (cs : List P)
      → ((x : List P) → r ≡ ok x → x ≡ [])
      → (do_next o p r s).child_steps ≡ ok cs
      → cs ≡ []
  unfolding do_next verify_next
  do_next-no_children p (ok x) s cs h e = verified ((o.verify p s).0) e
    where
      verified : (v : Outcome (Unit {0})) → after_verify v x ≡ ok cs → cs ≡ []
      verified (ok u) d = ground (arith, h x refl)
      verified (fail u) d = cc
      verified (panic u) d = cc
      verified no_fuel d = cc
  do_next-no_children p (fail x) s cs h e = cc
  do_next-no_children p (panic x) s cs h e = cc
  do_next-no_children p no_fuel s cs h e = cc

  should_do_next-no_children :
      (p : P) (r : Outcome Bool) (s : S) (cs : List P)
      → (should_do_next o p [] r s).child_steps ≡ ok cs
      → cs ≡ []
  unfolding should_do_next
  should_do_next-no_children p (ok true) s cs e =
      do_next-no_children p (o.perform p s).0 (o.perform p s).1 cs (λ x. l.no_children p s x) e
  should_do_next-no_children p (ok false) s cs e = cc
  should_do_next-no_children p (fail x) s cs e = cc
  should_do_next-no_children p (panic x) s cs e = cc
  should_do_next-no_children p no_fuel s cs e = cc

  run_step-no_children :
      (p : P) (s : S) (cs : List P) → (run_step o p [] s).child_steps ≡ ok cs → cs ≡ []
  unfolding run_step
  run_step-no_children p s cs h = elim (Option-cases (o.context_error s)) [
    | inl e ↦
        should_do_next-no_children p (o.should_do p s).0 (o.should_do p s).1 cs
          (rw (e, run_step) at h)
    | inr (x, e) ↦ cc (rw (e, run_step) at h)
  ]

  -- If no procedure returns child steps, the recursive actuator, called without child steps left
  -- over and with at least one level of nesting, gives the same count, result and state as the
  -- plain loop over the steps.
  pub react-eq-run_all :
      (depth : ℕ) (steps : List P) (s : S) → react o (suc depth) steps [] s ≡ run_all o steps s
  unfolding react run_all
  react-eq-run_all depth [] s = refl
  react-eq-run_all depth (p ∷ steps) s =
      let r = run_step o p [] s in
      conclude_ext o r.executed r.child_steps r.state _ _ λ cs e.
        rw (run_step-no_children p s cs e) (
          and_then-nil r.executed r.state (react o (suc depth) steps [])
          ∙ ap (λ (rest : Run S). record rest { executed = r.executed + rest.executed })
              (react-eq-run_all depth steps r.state))

  -- If no procedure returns child steps and no operation runs out of fuel, running a list of steps
  -- with one level of nesting, called without child steps left over, does not run out of fuel
  -- either, however long the list is.
  pub react-total :
      IsTotal o
      → (depth : ℕ) (steps : List P) (s : S) → (react o (suc depth) steps [] s).result ≢ no_fuel
  react-total t depth steps s = rw (react-eq-run_all depth steps s) (run_all-total o t steps s)

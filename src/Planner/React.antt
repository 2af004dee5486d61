-- ===== src/Planner/React.antt =====
-- The recursion of pkg/planner/actuator.go over the steps of a plan.
use flintlock.Prelude.{
  ℕ, zero, suc, ◌≢◌, ◌+◌, ◌≡◌, refl, Bool, true, false, List, [], ◌∷◌, Option-cases, inl, inr,
}
use flintlock.Outcome.{Outcome, ok, fail, panic, no_fuel}
use flintlock.Io.{Keeps}
use flintlock.Planner.{
  Procedures, Run, verify_next, do_next, should_do_next, run_step, conclude, and_then, react,
}

-- Every operation keeps a property of the state.
pub record AllKeep {S P : Type 0} (I : S → Type 0) (o : Procedures S P) : Type 0 where
  pub should_do_keeps : (p : P) → Keeps I (o.should_do p)
  pub perform_keeps : (p : P) → Keeps I (o.perform p)
  pub verify_keeps : (p : P) → Keeps I (o.verify p)

module _ {S P : Type 0} {I : S → Type 0} (o : Procedures S P) (k : AllKeep I o) where
  verify_next-Keeps : (p : P) (cs : List P) (s : S) → I s → I (verify_next o p cs s).state
  unfolding verify_next
  verify_next-Keeps p cs s i = (k.verify_keeps p).at s i

  do_next-Keeps : (p : P) (r : Outcome (List P)) (s : S) → I s → I (do_next o p r s).state
  unfolding do_next
  do_next-Keeps p (ok cs) s i = verify_next-Keeps p cs s i
  do_next-Keeps p (fail e) s i = i
  do_next-Keeps p (panic f) s i = i
  do_next-Keeps p no_fuel s i = i

  should_do_next-Keeps :
      (p : P) (cs : List P) (r : Outcome Bool) (s : S) → I s → I (should_do_next o p cs r s).state
  unfolding should_do_next
  should_do_next-Keeps p cs (ok true) s i =
      do_next-Keeps p (o.perform p s).0 (o.perform p s).1 ((k.perform_keeps p).at s i)
  should_do_next-Keeps p cs (ok false) s i = i
  should_do_next-Keeps p cs (fail e) s i = i
  should_do_next-Keeps p cs (panic f) s i = i
  should_do_next-Keeps p cs no_fuel s i = i

  run_step-Keeps : (p : P) (cs : List P) (s : S) → I s → I (run_step o p cs s).state
  unfolding run_step
  run_step-Keeps p cs s i = elim (Option-cases (o.context_error s)) [
    | inl e ↦
        rw (e, run_step)
          (should_do_next-Keeps p cs (o.should_do p s).0 (o.should_do p s).1
            ((k.should_do_keeps p).at s i))
    | inr (x, e) ↦ rw (e, run_step) i
  ]

module _ {S A : Type 0} where
  pub conclude-inv :
      (I : S → Type 0) (n : ℕ) (r : Outcome A) (s : S) (next : A → Run S)
      → I s
      → ((a : A) → I (next a).state)
      → I (conclude n r s next).state
  unfolding conclude
  conclude-inv I n (ok a) s next i h = h a
  conclude-inv I n (fail e) s next i h = i
  conclude-inv I n (panic f) s next i h = i
  conclude-inv I n no_fuel s next i h = i

  -- Inversion: a success is one of the call, and of what follows it.
  pub conclude-eq-ok :
      (n : ℕ) (r : Outcome A) (s : S) (next : A → Run S)
      → (conclude n r s next).result ≡ ok tt
      → (a : A) × (r ≡ ok a) × (conclude n r s next ≡ next a)
  unfolding conclude
  conclude-eq-ok n (ok a) s next h = (a, refl, refl)
  conclude-eq-ok n (fail e) s next h = cc
  conclude-eq-ok n (panic f) s next h = cc
  conclude-eq-ok n no_fuel s next h = cc

  pub conclude-ne-no_fuel :
      (n : ℕ) (r : Outcome A) (s : S) (next : A → Run S)
      → r ≢ no_fuel
      → ((a : A) → r ≡ ok a → (next a).result ≢ no_fuel)
      → (conclude n r s next).result ≢ no_fuel
  unfolding conclude
  conclude-ne-no_fuel n (ok a) s next h k = k a refl
  conclude-ne-no_fuel n (fail e) s next h k = λ x. cc
  conclude-ne-no_fuel n (panic f) s next h k = λ x. cc
  conclude-ne-no_fuel n no_fuel s next h k = absurd (h refl)

module _ {S P : Type 0} {I : S → Type 0} (o : Procedures S P) (k : AllKeep I o) where
  -- A property of the state that every operation of every procedure keeps is kept by a run of any
  -- steps, their child steps and failed steps included.
  pub react-Keeps :
      (depth : ℕ) (steps children : List P) (s : S) → I s → I (react o depth steps children s).state
  unfolding react and_then
  react-Keeps depth [] children s i = i
  react-Keeps zero (p ∷ steps) children s i = i
  react-Keeps (suc depth) (p ∷ steps) children s i =
      let r = run_step o p children s in
      conclude-inv I r.executed r.child_steps r.state _ (run_step-Keeps o k p children s i) λ cs.
        let inner = react o depth cs [] r.state in
        let j = react-Keeps depth cs [] r.state (run_step-Keeps o k p children s i) in
        conclude-inv I (r.executed + inner.executed) inner.result inner.state _ j
          λ _. react-Keeps (suc depth) steps cs inner.state j

-- ===== src/Tests/Actuator.antt =====
-- The actuator on a state that counts the steps to be done.
use flintlock.Prelude.{
  ℕ, zero, suc, ◌-◌, ◌≤◌, ◌<◌, ◌≡◌, not, ◌==◌, List, [], ◌∷◌, none, arith, if◌then◌else◌,
}
use flintlock.Outcome.{ok}
use flintlock.Io.{Io, Keeps}
use flintlock.Planner.{
  Procedures, react, run_step, conclude, and_then, should_do_next, do_next, verify_next,
}
use flintlock.Planner.React.{AllKeep}
use flintlock.Planner.Leaves.{IsLeafy, IsTotal, react-total}
use flintlock.Planner.Rounds.{MakesProgress}

-- one step takes one off the count, if there is something left
unfoldable count_down : Procedures ℕ (Unit {0})
count_down = record {
  should_do = λ p n. (ok (not (n == 0)), n);
  perform = λ p n. (ok [], n - 1);
  verify = λ p n. (ok tt, n);
  context_error = λ n. none;
}

unfoldable create_one : Io ℕ (List (Unit {0}))
create_one n = (ok (if n == 0 then [] else tt ∷ []), n)

count_down-IsLeafy : IsLeafy count_down
unfolding count_down
count_down-IsLeafy = record { no_children = λ p s cs h. cc }

count_down-IsTotal : IsTotal count_down
unfolding count_down
count_down-IsTotal = record {
  should_do_total = λ p s h. cc;
  perform_total = λ p s h. cc;
  verify_total = λ p s h. cc;
}

abbrev AtMostThree : ℕ → Type 0
AtMostThree n = n ≤ 3

count_down-AllKeep : AllKeep AtMostThree count_down
unfolding count_down
count_down-AllKeep = record {
  should_do_keeps = λ p. record { at = λ s h. h };
  perform_keeps = λ p. record { at = λ s h. omega (arith, h) };
  verify_keeps = λ p. record { at = λ s h. h };
}

create_one-Keeps : Keeps AtMostThree create_one
unfolding create_one
create_one-Keeps = record { at = λ s h. h }

single :
    (n : ℕ) (p : Unit {0}) (steps : List (Unit {0}))
    → (create_one (suc n)).0 ≡ ok (p ∷ steps)
    → steps ≡ []
unfolding create_one
single n p steps h = ground arith

react-falls : (n : ℕ) → (react count_down 1 (tt ∷ []) [] (suc n)).state < suc n
unfolding react run_step should_do_next do_next verify_next conclude and_then count_down
react-falls n = grind arith

falls :
    (s : ℕ) (p : Unit {0}) (steps : List (Unit {0}))
    → (create_one s).0 ≡ ok (p ∷ steps)
    → (react count_down 1 (p ∷ steps) [] s).state < s
unfolding create_one
falls zero p steps h = cc
falls (suc n) p steps h = rw (single n p steps h) (react-falls n)

count_down-MakesProgress : MakesProgress count_down 1 create_one (λ s. Unit) (λ s. s)
unfolding create_one
count_down-MakesProgress = record {
  create_total = λ s i h. cc;
  react_total =
      λ s p steps i h. react-total count_down count_down-IsLeafy count_down-IsTotal 0 (p ∷ steps) s;
  falls = λ s p steps i h r. (tt, falls s p steps h);
}

-- ===== src/Planner/Rounds.antt =====
-- The loop `executePlan` of pkg/planner/actuator.go.
use flintlock.Prelude.{ℕ, zero, suc, ◌+◌, ◌<◌, ◌≡◌, ◌≢◌, List, [], ◌∷◌, arith}
use flintlock.Outcome.{ok, no_fuel}
use flintlock.Io.{Io, Keeps}
use flintlock.Planner.{Procedures, Run, react, round, execute_plan}
use flintlock.Planner.React.{
  AllKeep, conclude-inv, conclude-eq-ok, conclude-ne-no_fuel, react-Keeps,
}

module _ {S P : Type 0} (o : Procedures S P) (depth : ℕ) (create : Io S (List P)) where
  round-done :
      (again : ℕ → S → Run S) (n : ℕ) (s : S) (steps : List P)
      → ((m : ℕ) (t : S)
          → (again m t).result ≡ ok tt
          → (u : S) × (create u ≡ (ok [], (again m t).state)))
      → (create s).0 ≡ ok steps
      → (round o depth again n (create s).1 steps).result ≡ ok tt
      → (u : S) × (create u ≡ (ok [], (round o depth again n (create s).1 steps).state))
  unfolding round
  round-done again n s [] ih e h = (s, λ i. (e i, (create s).1))
  round-done again n s (p ∷ rest) ih e h =
      let x = react o depth (p ∷ rest) [] (create s).1 in
      let (a, d, c) = conclude-eq-ok (n + x.executed) x.result x.state _ h in
      rw c (ih (n + x.executed) x.state (rw c at h))

  -- If the actuator succeeds, for any plan and any procedures, then the plan's Create gave no steps
  -- and left the state in which the actuator stopped.
  pub execute_plan-done :
      (rounds n : ℕ) (s : S)
      → (execute_plan o rounds depth create n s).result ≡ ok tt
      → (u : S) × (create u ≡ (ok [], (execute_plan o rounds depth create n s).state))
  unfolding execute_plan
  execute_plan-done zero n s h = cc h
  execute_plan-done (suc rounds) n s h =
      let (steps, e, c) = conclude-eq-ok n (create s).0 (create s).1 _ h in
      rw c (
        round-done (execute_plan o rounds depth create) n s steps (execute_plan-done rounds) e
          (rw c at h))

  -- A property of the state that the plan's Create and every operation of every procedure keep is
  -- kept by the whole execution, whatever number of rounds it takes and whether it succeeds, fails
  -- or panics.
  pub execute_plan-Keeps :
      {I : S → Type 0}
      → AllKeep I o
      → Keeps I create
      → (rounds n : ℕ) (s : S) → I s
      → I (execute_plan o rounds depth create n s).state
  unfolding execute_plan round
  execute_plan-Keeps k c zero n s i = i
  execute_plan-Keeps {I} k c (suc rounds) n s i =
      conclude-inv I n (create s).0 (create s).1 _ (c.at s i)
        λ steps. each (execute_plan-Keeps k c rounds) steps (c.at s i)
    where
      each :
          ((m : ℕ) (t : S) → I t → I (execute_plan o rounds depth create m t).state)
          → (steps : List P) → I (create s).1
          → I (round o depth (execute_plan o rounds depth create) n (create s).1 steps).state
      each ih [] j = j
      each ih (p ∷ rest) j =
          let x = react o depth (p ∷ rest) [] (create s).1 in
          let j' = react-Keeps o k depth (p ∷ rest) [] (create s).1 j in
          conclude-inv I (n + x.executed) x.result x.state _ j' λ _. ih (n + x.executed) x.state j'

-- A round that finds work and succeeds at it makes a measure of the state smaller.
pub record MakesProgress {S P : Type 0} (o : Procedures S P) (depth : ℕ) (create : Io S (List P))
    (I : S → Type 0) (measure : S → ℕ) : Type 0 where
  pub create_total : (s : S) → I s → (create s).0 ≢ no_fuel
  pub react_total :
      (s : S) (p : P) (steps : List P)
      → I s
      → (create s).0 ≡ ok (p ∷ steps)
      → (react o depth (p ∷ steps) [] (create s).1).result ≢ no_fuel
  pub falls :
      (s : S) (p : P) (steps : List P)
      → I s
      → (create s).0 ≡ ok (p ∷ steps)
      → (react o depth (p ∷ steps) [] (create s).1).result ≡ ok tt
      → I (react o depth (p ∷ steps) [] (create s).1).state
        × (measure (react o depth (p ∷ steps) [] (create s).1).state < measure s)

module _ {S P : Type 0} (o : Procedures S P) (depth : ℕ) (create : Io S (List P)) (I : S → Type 0)
    (measure : S → ℕ) (m : MakesProgress o depth create I measure) where
  -- The loop of the actuator ends, and no fuel above the measure is needed, when there is a measure
  -- of the state that every round makes smaller which finds work and succeeds at it, and neither
  -- planning nor a round's steps run out of fuel themselves.
  pub execute_plan-total :
      (rounds n : ℕ) (s : S)
      → I s
      → measure s < rounds
      → (execute_plan o rounds depth create n s).result ≢ no_fuel
  unfolding execute_plan round
  execute_plan-total zero n s i h = absurd (omega arith)
  execute_plan-total (suc rounds) n s i h =
      conclude-ne-no_fuel n (create s).0 (create s).1 _ (m.create_total s i)
        λ steps e. each (execute_plan-total rounds) steps e
    where
      each :
          ((k : ℕ) (t : S)
            → I t
            → measure t < rounds
            → (execute_plan o rounds depth create k t).result ≢ no_fuel)
          → (steps : List P) → (create s).0 ≡ ok steps
          → (round o depth (execute_plan o rounds depth create) n (create s).1 steps).result
            ≢ no_fuel
      each ih [] e = λ x. cc
      each ih (p ∷ rest) e =
          let x = react o depth (p ∷ rest) [] (create s).1 in
          conclude-ne-no_fuel (n + x.executed) x.result x.state _ (m.react_total s p rest i e)
            λ u d.
              let (j, lt) = m.falls s p rest i e d in ih (n + x.executed) x.state j (omega arith)

-- ===== src/Prelude/Family.antt =====
-- What each worker has, as a function of its index: a change at one index, and a sum over the first.
use Prim.Native.Nat.{ℕ, zero, suc, ◌+◌, ◌≤◌, ◌<◌}
use mathlib.Core.Path.{◌≡◌, refl}
use mathlib.Core.Logic.{◌≢◌}
use native.Mathlib.Decide.{ℕ_discrete}
use native.Mathlib.Omega.{arith}
use flintlock.Prelude.Tests.{◌==◌, if◌then◌else◌}

abbrev pub update : {A : Type 0} → (ℕ → A) → ℕ → A → ℕ → A
update at k new j = if k == j then new else at j

pub update-same : {A : Type 0} (at : ℕ → A) (k : ℕ) (new : A) → update at k new k ≡ new
update-same at k new = ground arith

pub update-other : {A : Type 0} (at : ℕ → A) (k j : ℕ) (new : A) → k ≢ j → update at k new j ≡ at j
update-other at k j new differ = ground arith

-- The sum of a measure of what the workers below an index have.
unfoldable pub sum_below : {A : Type 0} → (A → ℕ) → (ℕ → A) → ℕ → ℕ
sum_below measure at zero = 0
sum_below measure at (suc k) = measure (at k) + sum_below measure at k

module _ {A : Type 0} (measure : A → ℕ) (at : ℕ → A) (k : ℕ) (new : A) where
  untouched :
      (bound : ℕ)
      → bound ≤ k
      → sum_below measure (update at k new) bound ≡ sum_below measure at bound
  unfolding sum_below
  untouched zero beyond = refl
  untouched (suc bound) beyond =
      let same : update at k new bound ≡ at bound =
        update-other at k bound new (λ e. omega arith) in
      rw same (omega (arith, untouched bound (omega arith)))

  -- A change at one index takes its old measure away and adds the new one.
  pub sum_below-update :
      (bound : ℕ)
      → k < bound
      → measure (at k) + sum_below measure (update at k new) bound
        ≡ measure new + sum_below measure at bound
  unfolding sum_below
  sum_below-update zero low = absurd (omega arith)
  sum_below-update (suc bound) low = elim (ℕ_discrete k bound) [
    | yes last ↦ ground (arith, untouched bound (omega arith))
    | no earlier ↦
        let same : update at k new bound ≡ at bound = update-other at k bound new earlier in
        rw same (omega (arith, sum_below-update bound (omega arith)))
  ]

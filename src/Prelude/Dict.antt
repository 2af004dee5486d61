-- ===== src/Prelude/Dict.antt =====
-- A Go map with string keys as an association list; `lookup` is `m[k]` with its `ok`.
use Prim.Native.String.{String}
use mathlib.Core.Path.{◌≡◌, refl}
use mathlib.Core.List.{List, [], ◌∷◌}
use mathlib.Core.Option.{Option, none, some}
use native.Mathlib.Omega.{arith}
use flintlock.Prelude.Tests.{if◌then◌else◌}
use flintlock.Prelude.Text.{str_eq, eq_iff, eq_refl}

abbrev pub Dict {ℓ} : Type ℓ → Type ℓ
Dict V = List (String × V)

module _ {ℓ} {V : Type ℓ} where
  unfoldable pub lookup : String → Dict V → Option V
  lookup key [] = none
  lookup key ((found, value) ∷ rest) = if str_eq found key then some value else lookup key rest

  -- m[key] = value
  unfoldable pub insert : String → V → Dict V → Dict V
  insert key value [] = (key, value) ∷ []
  insert key value ((found, old) ∷ rest) =
      if str_eq found key then (found, value) ∷ rest else (found, old) ∷ insert key value rest

  -- What was put under a key is found there, and every other key gives what it gave.
  pub lookup-insert :
      (key other : String) (value : V) (m : Dict V)
      → lookup other (insert key value m)
        ≡ (if str_eq key other then some value else lookup other m)
  unfolding lookup insert
  lookup-insert key other value [] = refl
  lookup-insert key other value ((found, old) ∷ rest) =
      let ih = lookup-insert key other value rest in
      ground (arith, ih, eq_iff found key, eq_iff found other, eq_iff key other)

  pub lookup-insert_self : (k : String) (v : V) (m : Dict V) → lookup k (insert k v m) ≡ some v
  lookup-insert_self k v m = simp (lookup-insert, eq_refl)

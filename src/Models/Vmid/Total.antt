-- ===== src/Models/Vmid/Total.antt =====
-- The parser of identifiers answers every text.
use flintlock.Prelude.{◌≡◌, refl, String, Bool, true, false, List, [], ◌∷◌, ◌⊎◌, arith, inl, inr}
use flintlock.Outcome.{Outcome, Error, ok, fail, panic, no_fuel, ◌>>=◌}
use flintlock.Models.Vmid.{
  Vmid, new_vmid, split, parts_to_vmid, split_vmid_from_string, new_vmid_from_string,
}

abbrev returns : Outcome Vmid → Bool
returns (ok vmid) = true
returns (fail e) = true
returns _ = false

returns-cases :
    (r : Outcome Vmid)
    → returns r ≡ true
    → ((vmid : Vmid) × (r ≡ ok vmid)) ⊎ ((e : Error) × (r ≡ fail e))
returns-cases (ok vmid) h = inl (vmid, refl)
returns-cases (fail e) h = inr (e, refl)
returns-cases (panic f) h = cc
returns-cases no_fuel h = cc

new_vmid-returns : (name namespace uid : String) → returns (new_vmid name namespace uid) ≡ true
unfolding new_vmid
new_vmid-returns name namespace uid = ground arith

parts_to_vmid-returns :
    (id : String) (parts : List String) → returns (parts_to_vmid id parts) ≡ true
parts_to_vmid-returns id [] = refl
parts_to_vmid-returns id (a ∷ []) = refl
parts_to_vmid-returns id (a ∷ b ∷ []) = refl
parts_to_vmid-returns id (a ∷ b ∷ c ∷ []) = ground arith
parts_to_vmid-returns id (a ∷ b ∷ c ∷ d ∷ rest) = refl

-- A text is an identifier or an error.
pub new_vmid_from_string-cases :
    (id : String)
    → ((vmid : Vmid) × (new_vmid_from_string id ≡ ok vmid))
      ⊎ ((e : Error) × (new_vmid_from_string id ≡ fail e))
unfolding new_vmid_from_string split_vmid_from_string
new_vmid_from_string-cases id =
    go (parts_to_vmid id (split id)) (parts_to_vmid-returns id (split id))
  where
    go :
        (r : Outcome Vmid)
        → returns r ≡ true
        → ((vmid : Vmid) × ((do v ← r; new_vmid v.name v.namespace v.uid) ≡ ok vmid))
          ⊎ ((e : Error) × ((do v ← r; new_vmid v.name v.namespace v.uid) ≡ fail e))
    go (ok v) h = returns-cases _ (new_vmid-returns v.name v.namespace v.uid)
    go (fail e) h = inr (e, refl)
    go (panic f) h = cc
    go no_fuel h = cc

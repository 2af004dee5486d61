-- ===== src/Plans/Order.antt =====
-- The order in which core/plans adds the steps of a plan.
use flintlock.Prelude.{
  ℕ, ◌≤◌, Bool, true, false, List, [], ◌∷◌, ◌++◌, All, All-append, arith, if◌then◌else◌,
}
use flintlock.Io.{pure, Gives, Gives-bind_any, Gives-pure, Gives-if}
use flintlock.Ports.{Collection}
use flintlock.Steps.CloudInit.{Encoding}
use flintlock.Steps.Step.{
  Step, create_directory, virtiofs_mount, volume_mount, kernel_mount, initrd_mount, disk_mount,
  create_interface, create_microvm, start_microvm, delete_microvm, virtiofs_delete, repo_release,
  delete_interface, delete_directory, publish_event, should_do,
}
use flintlock.Plans.{add_step}

module _ {W : Type 0} where
  -- The place of a step in its plan: the first nine are those of the plan that creates a microvm.
  unfoldable pub rank : Step W → ℕ
  rank (create_directory dir mode) = 0
  rank (virtiofs_mount volume) = 1
  rank (volume_mount volume) = 2
  rank kernel_mount = 3
  rank initrd_mount = 4
  rank disk_mount = 5
  rank (create_interface iface) = 6
  rank (create_microvm provider) = 7
  rank (start_microvm provider) = 8
  rank (delete_microvm provider) = 10
  rank (virtiofs_delete volume) = 11
  rank repo_release = 12
  rank (delete_interface guest) = 13
  rank (delete_directory dir) = 14
  rank (publish_event topic event) = 15

  -- No step comes after one of a higher rank.
  abbrev pub IsOrdered : List (Step W) → Type 0
  IsOrdered [] = Unit
  IsOrdered (p ∷ rest) = All (λ q. rank p ≤ rank q) rest × IsOrdered rest

  -- An ordered list of steps of a rank up to `r`.
  abbrev pub UpTo : ℕ → List (Step W) → Type 0
  UpTo r steps = All (λ q. rank q ≤ r) steps × IsOrdered steps

  All-weaken :
      (r t : ℕ) (steps : List (Step W))
      → r ≤ t
      → All (λ q. rank q ≤ r) steps
      → All (λ q. rank q ≤ t) steps
  All-weaken r t [] h a = tt
  All-weaken r t (q ∷ rest) h a = (omega (arith, a.0), All-weaken r t rest h a.1)

  pub UpTo-weaken : (r t : ℕ) (steps : List (Step W)) → r ≤ t → UpTo r steps → UpTo t steps
  UpTo-weaken r t steps h u = (All-weaken r t steps h u.0, u.1)

  IsOrdered-snoc :
      (steps : List (Step W)) (p : Step W) → UpTo (rank p) steps → IsOrdered (steps ++ p ∷ [])
  IsOrdered-snoc [] p u = (tt, tt)
  IsOrdered-snoc (q ∷ rest) p u =
      (All-append _ rest (p ∷ []) u.1.0 (u.0.0, tt), IsOrdered-snoc rest p (u.0.1, u.1.1))

  UpTo-snoc :
      (r : ℕ) (steps : List (Step W)) (p : Step W)
      → r ≤ rank p
      → UpTo r steps
      → UpTo (rank p) (steps ++ p ∷ [])
  UpTo-snoc r steps p h u = (
    All-append (λ q. rank q ≤ rank p) steps (p ∷ []) (All-weaken r (rank p) steps h u.0)
        (omega arith, tt),
    IsOrdered-snoc steps p (UpTo-weaken r (rank p) steps h u),
  )

module _ {W : Type 0} (enc : Encoding) (ports : Collection W) where
  pub Gives-add_step :
      (r t : ℕ) (steps : List (Step W)) (p : Step W)
      → r ≤ rank p
      → rank p ≤ t
      → UpTo r steps
      → Gives (UpTo t) (add_step enc ports steps p)
  unfolding add_step
  Gives-add_step r t steps p h k u =
      Gives-bind_any (should_do enc ports p) _ λ needed. Gives-pure _ (chosen needed)
    where
      chosen : (needed : Bool) → UpTo t (if needed then steps ++ p ∷ [] else steps)
      chosen true = UpTo-weaken (rank p) t _ k (UpTo-snoc r steps p h u)
      chosen false = UpTo-weaken r t steps (omega (arith, h, k)) u

  pub Gives-add_if :
      (r t : ℕ) (c : Bool) (steps : List (Step W)) (p : Step W)
      → r ≤ rank p
      → rank p ≤ t
      → UpTo r steps
      → Gives (UpTo t) (if c then add_step enc ports steps p else pure steps)
  Gives-add_if r t c steps p h k u =
      Gives-if c _ _ (Gives-add_step r t steps p h k u)
        (Gives-pure steps (UpTo-weaken r t steps (omega (arith, h, k)) u))

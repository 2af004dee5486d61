-- ===== src/Io.antt =====
-- Code that changes a state and may fail. What was written before an error stays written.
use flintlock.Prelude.{arith, inl, inr, ◌⊎◌, ◌≡◌, refl, Bool, if◌then◌else◌}
use flintlock.Outcome.{Error, Outcome, ok, fail, panic, no_fuel, ok-injective}

abbrev pub Io : Type 0 → Type 0 → Type 0
Io S A = S → Outcome A × S

module _ {S A : Type 0} where
  abbrev pub pure : A → Io S A
  pure a s = (ok a, s)

  abbrev pub throw : Error → Io S A
  throw e s = (fail e, s)

  abbrev pub lift : Outcome A → Io S A
  lift r s = (r, s)

  abbrev pub gets : (S → A) → Io S A
  gets f s = (ok (f s), s)

abbrev pub modify : {S : Type 0} → (S → S) → Io S (Unit {0})
modify f s = (ok tt, f s)

module _ {S A B : Type 0} where
  abbrev pub proceed : Outcome A → (A → Io S B) → Io S B
  proceed (ok a) f s = f a s
  proceed (fail e) f s = (fail e, s)
  proceed (panic p) f s = (panic p, s)
  proceed no_fuel f s = (no_fuel, s)

  infixl 5 ◌>>=◌ ◌>>◌
  abbrev pub ◌>>=◌ : Io S A → (A → Io S B) → Io S B
  ◌>>=◌ m f s = proceed (m s).0 f (m s).1

  abbrev pub ◌>>◌ : Io S A → Io S B → Io S B
  m >> k = m >>= λ _. k

module _ {S A B : Type 0} where
  abbrev pub settle : Outcome A → (Error → Io S B) → (A → Io S B) → Io S B
  settle (ok a) failed next s = next a s
  settle (fail e) failed next s = failed e s
  settle (panic p) failed next s = (panic p, s)
  settle no_fuel failed next s = (no_fuel, s)

  -- `a, err := m; if err != nil { failed }; next`
  abbrev pub branch : Io S A → (Error → Io S B) → (A → Io S B) → Io S B
  branch m failed next s = settle (m s).0 failed next (m s).1

-- `if c { return err }`
abbrev pub fail_if : {S : Type 0} → Bool → Error → Io S (Unit {0})
fail_if c e = if c then throw e else pure tt

-- An action keeps a property of the state, whatever it comes to.
pub record Keeps {S A : Type 0} (P : S → Type 0) (m : Io S A) : Type 0 where
  pub at : (s : S) → P s → P (m s).1

module _ {S A B : Type 0} {P : S → Type 0} where
  proceed-Keeps :
      (r : Outcome A) (f : A → Io S B)
      → ((a : A) → Keeps P (f a))
      → (s : S) → P s
      → P (proceed r f s).1
  proceed-Keeps (ok a) f h s p = (h a).at s p
  proceed-Keeps (fail e) f h s p = p
  proceed-Keeps (panic e) f h s p = p
  proceed-Keeps no_fuel f h s p = p

  pub Keeps-bind :
      (m : Io S A) (f : A → Io S B) → Keeps P m → ((a : A) → Keeps P (f a)) → Keeps P (m >>= f)
  Keeps-bind m f hm hf = record { at = λ s p. proceed-Keeps (m s).0 f hf (m s).1 (hm.at s p) }

module _ {S A : Type 0} {P : S → Type 0} where
  pub Keeps-pure : (a : A) → Keeps P (pure a)
  Keeps-pure a = record { at = λ s p. p }

  pub Keeps-throw : (e : Error) → Keeps P (throw {A = A} e)
  Keeps-throw e = record { at = λ s p. p }

  pub Keeps-lift : (r : Outcome A) → Keeps P (lift r)
  Keeps-lift r = record { at = λ s p. p }

  pub Keeps-gets : (f : S → A) → Keeps P (gets f)
  Keeps-gets f = record { at = λ s p. p }

  pub Keeps-if : (b : Bool) (m n : Io S A) → Keeps P m → Keeps P n → Keeps P (if b then m else n)
  Keeps-if Bool.true m n hm hn = hm
  Keeps-if Bool.false m n hm hn = hn

pub ruleset keeps_rules = (Keeps-pure, Keeps-throw, Keeps-lift, Keeps-gets, Keeps-if, Keeps-bind)

-- Inversion of a success.
pub bind-eq-ok :
    {S A B : Type 0} (m : Io S A) (f : A → Io S B) (s t : S) (b : B)
    → (m >>= f) s ≡ (ok b, t)
    → (a : A) × (u : S) × (m s ≡ (ok a, u)) × (f a u ≡ (ok b, t))
bind-eq-ok {S} {A} {B} m f s t b h = go (m s).0 refl h
  where
    go :
        (r : Outcome A)
        → (m s).0 ≡ r
        → proceed r f (m s).1 ≡ (ok b, t)
        → (a : A) × (u : S) × (m s ≡ (ok a, u)) × (f a u ≡ (ok b, t))
    go (ok a) e d = (a, (m s).1, (λ i. (e i, (m s).1)), d)
    go (fail x) e d = cc
    go (panic x) e d = cc
    go no_fuel e d = cc

pub pure-eq-ok : {S A : Type 0} (a b : A) (s t : S) → pure a s ≡ (ok b, t) → (a ≡ b) × (s ≡ t)
pure-eq-ok a b s t h = (ok-injective a b (λ i. (h i).0), λ i. (h i).1)

-- Inversion of a success where an error is handled.
pub branch-eq-ok :
    {S A B : Type 0} (m : Io S A) (failed : Error → Io S B) (next : A → Io S B) (s t : S) (b : B)
    → branch m failed next s ≡ (ok b, t)
    → ((e : Error) × (u : S) × (m s ≡ (fail e, u)) × (failed e u ≡ (ok b, t)))
      ⊎ ((a : A) × (u : S) × (m s ≡ (ok a, u)) × (next a u ≡ (ok b, t)))
branch-eq-ok {S} {A} {B} m failed next s t b h = go (m s).0 refl h
  where
    go :
        (r : Outcome A)
        → (m s).0 ≡ r
        → settle r failed next (m s).1 ≡ (ok b, t)
        → ((e : Error) × (u : S) × (m s ≡ (fail e, u)) × (failed e u ≡ (ok b, t)))
          ⊎ ((a : A) × (u : S) × (m s ≡ (ok a, u)) × (next a u ≡ (ok b, t)))
    go (ok a) e d = inr (a, (m s).1, (λ i. (e i, (m s).1)), d)
    go (fail x) e d = inl (x, (m s).1, (λ i. (e i, (m s).1)), d)
    go (panic x) e d = cc
    go no_fuel e d = cc

module _ {S : Type 0} {P : S → Type 0} where
  pub Keeps-modify : (f : S → S) → ((s : S) → P s → P (f s)) → Keeps P (modify f)
  Keeps-modify f h = record { at = h }

  -- A rule for an action that is split by a decision on its own state.
  pub Keeps-gets_bind :
      {A B : Type 0} (f : S → A) (g : A → Io S B)
      → ((s : S) → P s → P (g (f s) s).1)
      → Keeps P (gets f >>= g)
  Keeps-gets_bind f g h = record { at = h }

-- What an action gives, if it succeeds.
pub record Gives {S A : Type 0} (Q : A → Type 0) (m : Io S A) : Type 0 where
  pub gives : (s : S) (a : A) → (m s).0 ≡ ok a → Q a

module _ {S A B : Type 0} {Q : B → Type 0} where
  pub Gives-bind :
      (R : A → Type 0) (m : Io S A) (f : A → Io S B)
      → Gives R m
      → ((a : A) → R a → Gives Q (f a))
      → Gives Q (m >>= f)
  Gives-bind R m f hm hf = record {
    gives = λ s b h.
        let (a, u, e, d) = bind-eq-ok m f s ((m >>= f) s).1 b (λ i. (h i, ((m >>= f) s).1)) in
        (hf a (hm.gives s a (λ i. (e i).0))).gives u b (λ i. (d i).0);
  }

  pub Gives-bind_any : (m : Io S A) (f : A → Io S B) → ((a : A) → Gives Q (f a)) → Gives Q (m >>= f)
  Gives-bind_any m f hf = Gives-bind (λ a. Unit) m f (record { gives = λ s a h. tt }) λ a u. hf a

module _ {S A : Type 0} {Q : A → Type 0} where
  pub Gives-pure : (a : A) → Q a → Gives {S = S} Q (pure a)
  Gives-pure a q = record { gives = λ s b h. grind (arith, q) }

  pub Gives-if : (b : Bool) (m n : Io S A) → Gives Q m → Gives Q n → Gives Q (if b then m else n)
  Gives-if Bool.true m n hm hn = hm
  Gives-if Bool.false m n hm hn = hn

module _ {S A : Type 0} where
  pub Gives-lift : (r : Outcome A) → Gives {S = S} (λ a. r ≡ ok a) (lift r)
  Gives-lift r = record { gives = λ s a h. h }

  pub Gives-self : (m : Io S A) → Gives (λ a. (s : S) × ((m s).0 ≡ ok a)) m
  Gives-self m = record { gives = λ s a h. (s, h) }

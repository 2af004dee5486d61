-- ===== src/Containerd/Repo/Newest.antt =====
-- Which content is read: the one with the highest version.
use mathlib.Core.List.{Memᴰ}
use mathlib.Core.List.Memᴰ.{head, tail}
use flintlock.Prelude.{
  ◌≡◌, refl, sym, ap, subst, ◌∙◌, ◌⊎◌, inl, inr, arith, String, Bool, true, false, List, [], ◌∷◌,
  Option, none, some, if◌then◌else◌,
}
use flintlock.Prelude.Int.{ℤ, pos, negsuc}
use flintlock.Outcome.{ok, >>=-eq-ok, ok-injective}
use flintlock.Io.{bind-eq-ok, pure-eq-ok, lift}
use flintlock.Ports.{RepositoryGetOptions}
use flintlock.Containerd.Client.{Info, ContentStore, LeaseManager, Codec}
use flintlock.Containerd.Labels.{all_filters, labels_of_options}
use flintlock.Containerd.Repo.{
  greater, version_of, Selection, consider, newest, find_digest_for_spec,
}

pub greater_irrefl : (a : ℤ) → greater a a ≡ false
greater_irrefl (pos a) = ground arith
greater_irrefl (negsuc a) = ground arith

pub greater_trans : (a b c : ℤ) → greater a b ≡ false → greater b c ≡ false → greater a c ≡ false
greater_trans a b c h k = ground arith

greater_trans_strict : (a b c : ℤ) → greater a b ≡ true → greater c b ≡ false → greater a c ≡ true
greater_trans_strict a b c h k = ground arith

pub greater_asym : (a b : ℤ) → greater a b ≡ true → greater b a ≡ false
greater_asym a b h = ground arith

-- The version of each of these, where it is a number, is at most `high`.
abbrev pub IsAtLeastAll : ℤ → List Info → Type 0
IsAtLeastAll high infos =
    (info : Info) (version : ℤ)
    → Memᴰ info infos
    → version_of info ≡ ok version
    → greater version high ≡ false

-- What was found among `infos` after starting from `before`.
pub record IsNewest (infos : List Info) (before after : Selection) : Type 0 where
  pub not_lower : greater before.high after.high ≡ false
  pub highest : IsAtLeastAll after.high infos
  pub source :
      (after ≡ before)
      ⊎ ((info : Info) × Memᴰ info infos
          × (version_of info ≡ ok after.high)
          × (greater after.high before.high ≡ true)
          × (after.digest ≡ some info.digest))

-- one call of the callback
consider-cases :
    (info : Info) (s t : Selection)
    → consider info s ≡ ok t
    → (version : ℤ) × (version_of info ≡ ok version)
      × (((greater version s.high ≡ true)
            × (record { high = version; digest = some info.digest } ≡ t))
          ⊎ ((greater version s.high ≡ false) × (s ≡ t)))
unfolding consider
consider-cases info s t h =
    let (version, e, d) = >>=-eq-ok (version_of info) _ t h in
    (version, e, split version (greater version s.high) refl d)
  where
    split :
        (version : ℤ) (b : Bool)
        → greater version s.high ≡ b
        → ok (if b then record { high = version; digest = some info.digest } else s) ≡ ok t
        → ((greater version s.high ≡ true)
            × (record { high = version; digest = some info.digest } ≡ t))
          ⊎ ((greater version s.high ≡ false) × (s ≡ t))
    split version true e d = inl (e, ok-injective _ t d)
    split version false e d = inr (e, ok-injective s t d)

consider-IsNewest :
    (info : Info) (s t : Selection) → consider info s ≡ ok t → IsNewest (info ∷ []) s t
consider-IsNewest info s t h =
    let (version, e, cases) = consider-cases info s t h in by_cases version e cases
  where
    only :
        (version high : ℤ)
        → version_of info ≡ ok version
        → greater version high ≡ false
        → IsAtLeastAll high (info ∷ [])
    only version high e g j v (head same) k =
        let v_is : version ≡ v = ok-injective version v (sym e ∙ ap version_of (sym same) ∙ k) in
        subst (λ x. greater x high ≡ false) v_is g
    only version high e g j v (tail m) k = elim m [ ]

    by_cases :
        (version : ℤ)
        → version_of info ≡ ok version
        → ((greater version s.high ≡ true)
            × (record { high = version; digest = some info.digest } ≡ t))
          ⊎ ((greater version s.high ≡ false) × (s ≡ t))
        → IsNewest (info ∷ []) s t
    by_cases version e (inl (g, same)) = subst (IsNewest (info ∷ []) s) same (record {
      not_lower = greater_asym version s.high g;
      highest = only version version e (greater_irrefl version);
      source = inr (info, head refl, e, g, refl);
    })
    by_cases version e (inr (g, same)) = subst (IsNewest (info ∷ []) s) same (record {
      not_lower = greater_irrefl s.high;
      highest = only version s.high e g;
      source = inl refl;
    })

-- What was found in a part and then in the rest.
IsNewest-cons :
    (info : Info) (rest : List Info) (s mid t : Selection)
    → IsNewest (info ∷ []) s mid
    → IsNewest rest mid t
    → IsNewest (info ∷ rest) s t
IsNewest-cons info rest s mid t one more = record {
  not_lower = greater_trans s.high mid.high t.high one.not_lower more.not_lower;
  highest = highest;
  source = source one.source more.source;
}
  where
    highest : IsAtLeastAll t.high (info ∷ rest)
    highest j v (head e) k =
        greater_trans v mid.high t.high (one.highest j v (head e) k) more.not_lower
    highest j v (tail m) k = more.highest j v m k

    Source : List Info → Selection → Selection → Type 0
    Source infos before after =
        (after ≡ before)
        ⊎ ((j : Info) × Memᴰ j infos
            × (version_of j ≡ ok after.high)
            × (greater after.high before.high ≡ true)
            × (after.digest ≡ some j.digest))

    source : Source (info ∷ []) s mid → Source rest mid t → Source (info ∷ rest) s t
    source was (inr (j, m, e, g, d)) =
        inr (j, tail m, e, greater_trans_strict t.high mid.high s.high g one.not_lower, d)
    source (inl same) (inl later) = inl (later ∙ same)
    source (inr (j, head m, e, g, d)) (inl later) =
        subst (λ x. Source (info ∷ rest) s x) (sym later) (inr (j, head m, e, g, d))
    source (inr (j, tail m, e, g, d)) (inl later) = elim m [ ]

pub newest-IsNewest :
    (infos : List Info) (s t : Selection) → newest infos s ≡ ok t → IsNewest infos s t
unfolding newest
newest-IsNewest [] s t h = subst (IsNewest [] s) (ok-injective s t h) (record {
  not_lower = greater_irrefl s.high;
  highest = λ j v m k. elim m [ ];
  source = inl refl;
})
newest-IsNewest (info ∷ rest) s t h =
    let (mid, e, d) = >>=-eq-ok (consider info s) (newest rest) t h in
    IsNewest-cons info rest s mid t (consider-IsNewest info s mid e) (newest-IsNewest rest mid t d)

-- The digest that is chosen: of the highest version above 0, or none where there is no such version.
abbrev pub IsHighest : List Info → Option String → Type 0
IsHighest infos none = IsAtLeastAll (pos 0) infos
IsHighest infos (some digest) =
    (info : Info) × (version : ℤ) × Memᴰ info infos
    × (info.digest ≡ digest)
    × (version_of info ≡ ok version)
    × (greater version (pos 0) ≡ true)
    × IsAtLeastAll version infos

-- where the choice starts
abbrev pub no_selection : Selection
no_selection = record { high = pos 0; digest = none }

pub newest-IsHighest :
    (infos : List Info) (t : Selection)
    → newest infos no_selection ≡ ok t
    → IsHighest infos t.digest
newest-IsHighest infos t h = by_source found.source
  where
    found : IsNewest infos no_selection t
    found = newest-IsNewest infos no_selection t h

    by_source :
        (t ≡ no_selection)
          ⊎ ((info : Info) × Memᴰ info infos
              × (version_of info ≡ ok t.high)
              × (greater t.high (pos 0) ≡ true)
              × (t.digest ≡ some info.digest))
        → IsHighest infos t.digest
    by_source (inl same) =
        subst (λ x. IsHighest infos x.digest) (sym same)
          (subst (λ x. IsAtLeastAll x.high infos) same found.highest)
    by_source (inr (info, m, e, g, d)) =
        subst (IsHighest infos) (sym d) (info, t.high, m, refl, e, g, found.highest)

module _ {W Writer : Type 0} (store : ContentStore W Writer) (leases : LeaseManager W)
    (codec : Codec) where
  -- When findDigestForSpec succeeds, its digest is that of content which the walk with the options'
  -- filter visited and whose version is above 0 and at least as high as every version visited; it
  -- gives none only if no visited version is above 0.
  pub find_digest_for_spec-IsHighest :
      (options : RepositoryGetOptions) (digest : Option String) (w u : W)
      → find_digest_for_spec store leases codec options w ≡ (ok digest, u)
      → (infos : List Info) × (store.walk (all_filters (labels_of_options options)) w
          ≡ (ok infos, u))
        × IsHighest infos digest
  unfolding find_digest_for_spec
  find_digest_for_spec-IsHighest options digest w u h =
      let (infos, v, walked, h1) =
        bind-eq-ok (store.walk (all_filters (labels_of_options options))) _ w u digest h in
      let (s, v1, found, h2) = bind-eq-ok (lift (newest infos no_selection)) _ v u digest h1 in
      let (same, at) = pure-eq-ok s.digest digest v1 u h2 in
      let ends : v ≡ u = (λ i. (found i).1) ∙ at in
      (
        infos,
        subst (λ x. store.walk (all_filters (labels_of_options options)) w ≡ (ok infos, x)) ends
            walked,
        subst (IsHighest infos) same (newest-IsHighest infos s (λ i. (found i).0)),
      )

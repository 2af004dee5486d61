-- ===== src/Containerd/Repo/Reads.antt =====
-- What is read back from the content store.
use mathlib.Core.List.{Memᴰ}
use flintlock.Prelude.{
  ◌≡◌, ◌⊎◌, refl, sym, ap, subst, ◌∙◌, inl, inr, arith, ℕ, ◌+◌, ◌≤◌, String, false, List, [], ◌∷◌,
  Option, none, some, if◌then◌else◌,
}
use flintlock.Prelude.Int.{ℤ, pos}
use flintlock.Outcome.{ok, ok-injective}
use flintlock.Io.{bind-eq-ok, pure-eq-ok}
use flintlock.Models.Microvm.{Microvm}
use flintlock.Containerd.Client.{Info, ContentStore, LeaseManager, Codec}
use flintlock.Containerd.Repo.{
  greater, version_of, newest, Selection, consider, options_of, find_digest_for_spec,
  get_with_digest, get_spec, read_found,
}
use flintlock.Containerd.Repo.Newest.{
  no_selection, newest-IsHighest, find_digest_for_spec-IsHighest, IsHighest,
}
use flintlock.Containerd.Repo.Stored.{
  Entry, StoreLaws, select, infos_of, labels_of, mem_of_mem-select, mem-infos_of,
  entry_of_mem-infos_of,
}

-- Each of these says its version.
abbrev HasVersions : List Info → Type 0
HasVersions infos = (info : Info) → Memᴰ info infos → (version : ℤ) × (version_of info ≡ ok version)

newest-total :
    (infos : List Info) (s : Selection)
    → HasVersions infos
    → (t : Selection) × (newest infos s ≡ ok t)
unfolding newest consider
newest-total [] s h = (s, refl)
newest-total (info ∷ rest) s h =
    let (version, e) = h info (Memᴰ.head refl) in
    let next =
      if greater version s.high then record { high = version; digest = some info.digest } else s in
    let (t, d) = newest-total rest next (λ j m. h j (Memᴰ.tail m)) in (t, rw e d)

module _ {W Writer : Type 0} (store : ContentStore W Writer) (leases : LeaseManager W)
    (codec : Codec) (m : Microvm) (laws : StoreLaws store leases m.id) where
  -- what is stored under the microvm's identifier
  abbrev pub versions_in : W → List Entry
  versions_in w = select (labels_of m.id) (laws.contents w)

  -- Of what is stored, the one whose version is above all others is found.
  pub find_digest-of_top :
      (u : W) (e : Entry) (k : ℕ)
      → Memᴰ e (versions_in u)
      → version_of e.info ≡ ok (pos (k + 1))
      → ((x : Entry)
          → Memᴰ x (versions_in u)
          → (x ≡ e) ⊎ ((j : ℕ) × (version_of x.info ≡ ok (pos j)) × (j ≤ k)))
      → find_digest_for_spec store leases codec (options_of m.id) u ≡ (ok (some e.info.digest), u)
  unfolding find_digest_for_spec
  find_digest-of_top u e k here top others =
      let (t, found) = newest-total infos no_selection versions in
      let is_e = chosen t.digest (newest-IsHighest infos t found) in
      rw (laws.walk_law u, found, is_e) refl
    where
      infos : List Info
      infos = infos_of (versions_in u)

      version_of_entry :
          (x : Entry)
          → ((x ≡ e) ⊎ ((j : ℕ) × (version_of x.info ≡ ok (pos j)) × (j ≤ k)))
          → (version : ℤ) × (version_of x.info ≡ ok version)
      version_of_entry x (inl same) = (pos (k + 1), ap (λ y. version_of y.info) same ∙ top)
      version_of_entry x (inr (j, v, le)) = (pos j, v)

      versions : HasVersions infos
      versions info there =
          let (x, at, same) = entry_of_mem-infos_of info (versions_in u) there in
          let (version, v) = version_of_entry x (others x at) in
          (version, ap version_of (sym same) ∙ v)

      too_low : (j : ℕ) → greater (pos (k + 1)) (pos j) ≡ false → j ≤ k → ⊥
      too_low j h le = ground arith

      digest_of_entry :
          (x : Entry) (version : ℤ)
          → version_of x.info ≡ ok version
          → greater (pos (k + 1)) version ≡ false
          → ((x ≡ e) ⊎ ((j : ℕ) × (version_of x.info ≡ ok (pos j)) × (j ≤ k)))
          → x.info.digest ≡ e.info.digest
      digest_of_entry x version v high (inl same) = λ i. (same i).info.digest
      digest_of_entry x version v high (inr (j, w, le)) =
          let is_j = ok-injective version (pos j) (sym v ∙ w) in
          let low : greater (pos (k + 1)) (pos j) ≡ false =
            subst (λ z. greater (pos (k + 1)) z ≡ false) is_j high in
          elim (too_low j low le) [ ]

      none_low : greater (pos (k + 1)) (pos 0) ≡ false → ⊥
      none_low h = ground arith

      chosen : (digest : Option String) → IsHighest infos digest → digest ≡ some e.info.digest
      chosen none low =
          elim (none_low (low e.info (pos (k + 1)) (mem-infos_of e (versions_in u) here) top)) [ ]
      chosen (some digest) (info, version, there, same, v, above, highest) =
          let (x, at, is_x) = entry_of_mem-infos_of info (versions_in u) there in
          let high = highest e.info (pos (k + 1)) (mem-infos_of e (versions_in u) here) top in
          let eq = digest_of_entry x version (ap version_of is_x ∙ v) high (others x at) in
          ap some (sym same ∙ ap (λ y. y.digest) (sym is_x) ∙ eq)

  pub get_spec-of_found :
      (u : W) (e : Entry) (x : Microvm)
      → find_digest_for_spec store leases codec (options_of m.id) u ≡ (ok (some e.info.digest), u)
      → Memᴰ e (versions_in u)
      → codec.unmarshal e.text ≡ ok x
      → get_spec store leases codec (options_of m.id) u ≡ (ok (some x), u)
  unfolding get_spec get_with_digest
  get_spec-of_found u e x found here decoded =
      let (there, has) = mem_of_mem-select (labels_of m.id) e (laws.contents u) here in
      rw (found, laws.read_law e u there, decoded) refl

  -- One read of what is stored changes nothing.
  pub get_spec-reads :
      (found : Option Microvm) (w u : W)
      → get_spec store leases codec (options_of m.id) w ≡ (ok found, u)
      → w ≡ u
  unfolding get_spec get_with_digest
  get_spec-reads found w u h =
      let (digest, v, chose, read) =
        bind-eq-ok (find_digest_for_spec store leases codec (options_of m.id)) _ w u found h in
      let (infos, walked, highest) =
        find_digest_for_spec-IsHighest store leases codec (options_of m.id) digest w v chose in
      let stays : w ≡ v = (λ i. (sym (laws.walk_law w) i).1) ∙ (λ i. (walked i).1) in
      let known : infos ≡ infos_of (versions_in w) =
        ok-injective infos (infos_of (versions_in w))
          ((λ i. (sym walked i).0) ∙ (λ i. (laws.walk_law w i).0)) in
      stays ∙ by_digest digest v stays (subst (λ x. IsHighest x digest) known highest) read
    where
      by_blob :
          (e : Entry) (v : W)
          → Memᴰ e (laws.contents v)
          → (get_with_digest store leases codec e.info.digest v).1 ≡ v
      by_blob e v there = rw (laws.read_law e v there) refl

      by_digest :
          (digest : Option String) (v : W)
          → w ≡ v
          → IsHighest (infos_of (versions_in w)) digest
          → read_found store leases codec digest v ≡ (ok found, u)
          → v ≡ u
      by_digest none v stays h read = (pure-eq-ok none found v u read).1
      by_digest (some digest) v stays (info, version, there, same, a, b, c) read =
          let (e, at, is_info) = entry_of_mem-infos_of info (versions_in w) there in
          let (stored, has) = mem_of_mem-select (labels_of m.id) e (laws.contents w) at in
          let (x, v1, got, last) =
            bind-eq-ok (get_with_digest store leases codec digest) _ v u found read in
          let is_digest : e.info.digest ≡ digest = ap (λ j. j.digest) is_info ∙ same in
          let blob = by_blob e v (subst (λ y. Memᴰ e (laws.contents y)) stays stored) in
          sym (subst (λ d. (get_with_digest store leases codec d v).1 ≡ v) is_digest blob)
          ∙ (λ i. (got i).1)
          ∙ (pure-eq-ok (some x) found v1 u last).1

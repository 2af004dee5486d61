-- ===== src/Containerd/Repo/SaveGet.antt =====
-- What Save answers is what Get then finds.
use mathlib.Core.List.{Memᴰ}
use flintlock.Prelude.{
  ◌≡◌, ◌⊎◌, refl, sym, ap, subst, ◌∙◌, inl, inr, ℕ, ◌+◌, ◌≤◌, ◌<◌, ◌^◌, String, Bool, true, false,
  Option, none, some, if◌then◌else◌,
}
use flintlock.Prelude.Int.{pos}
use flintlock.Outcome.{ok}
use flintlock.Io.{bind-eq-ok, pure-eq-ok, lift, pure}
use flintlock.Models.Vmid.{to_string}
use flintlock.Models.Microvm.{Microvm}
use flintlock.Containerd.Client.{ContentStore, LeaseManager, Codec}
use flintlock.Containerd.Labels.{get_vm_labels, content_ref_name}
use flintlock.Containerd.Lease.{
  with_owner_lease, get_existing_or_create_lease, find_lease, get_lease_name_for_owner, or_create,
}
use flintlock.Containerd.Repo.{
  version_of, options_of, get_spec, get, save, save_over, write_next_version, with_next_version,
  is_unchanged,
}
use flintlock.Containerd.Repo.Stored.{
  Entry, StoreLaws, has_labels, labels_of, mem-select, mem_of_mem-select, info_of,
  has_labels-info_of, version_of-info_of,
}
use flintlock.Containerd.Repo.Reads.{
  versions_in, find_digest-of_top, get_spec-of_found, get_spec-reads,
}

module _ {W Writer : Type 0} (store : ContentStore W Writer) (leases : LeaseManager W)
    (codec : Codec) (m : Microvm) (laws : StoreLaws store leases m.id) where
  -- No stored version of the microvm is newer than the one at hand.
  abbrev pub IsCurrent : W → Type 0
  IsCurrent w =
      (e : Entry)
      → Memᴰ e (versions_in store leases codec m laws w)
      → (k : ℕ) × (version_of e.info ≡ ok (pos k)) × (k ≤ m.version)

  with_owner_lease-contents :
      (owner lease : String) (w u : W)
      → with_owner_lease leases owner w ≡ (ok lease, u)
      → laws.contents u ≡ laws.contents w
  unfolding with_owner_lease get_existing_or_create_lease
  with_owner_lease-contents owner lease w u h =
      let (ids, v, listed, more) = bind-eq-ok (leases.list_leases _) _ w u lease h in
      created (find_lease (get_lease_name_for_owner owner) ids) v more
      ∙ ap laws.contents (λ i. (sym listed i).1)
      ∙ laws.list_law _ w
    where
      created :
          (found : Option String) (v : W)
          → or_create leases (get_lease_name_for_owner owner) found v ≡ (ok lease, u)
          → laws.contents u ≡ laws.contents v
      created none v h =
          ap laws.contents (λ i. (sym h i).1) ∙ laws.create_law (get_lease_name_for_owner owner) v
      created (some id) v h = ap laws.contents (sym (pure-eq-ok id lease v u h).1)

  -- What is stored after the next version was written: that version, and what was there.
  written-contents :
      (saved : Microvm) (w u : W)
      → write_next_version store leases codec m w ≡ (ok saved, u)
      → (with_next_version m ≡ saved)
        × (digest : String) × (text : String) × (codec.marshal (with_next_version m) ≡ ok text)
        × Memᴰ
            (record { info = info_of digest (with_next_version m); text = text })
            (laws.contents u)
        × ((e : Entry)
            → Memᴰ e (laws.contents u)
            → (e ≡ record { info = info_of digest (with_next_version m); text = text })
              ⊎ Memᴰ e (laws.contents w))
  unfolding write_next_version
  written-contents saved w u h =
      let next = with_next_version m in
      let (lease, w1, leased, h1) =
        bind-eq-ok (with_owner_lease leases (to_string m.id)) _ w u saved h in
      let (writer, w2, opened, h2) =
        bind-eq-ok (store.open_writer lease (content_ref_name next)) _ w1 u saved h1 in
      let (text, w3, coded, h3) = bind-eq-ok (lift (codec.marshal next)) _ w2 u saved h2 in
      let (t, w4, wrote, h4) = bind-eq-ok (store.write writer text) _ w3 u saved h3 in
      let (t1, w5, committed, h5) =
        bind-eq-ok (store.commit writer (get_vm_labels next)) _ w4 u saved h4 in
      let (same, at) = pure-eq-ok next saved w5 u h5 in
      let from_w2 =
        subst (λ x. store.write writer text x ≡ (ok tt, w4)) (λ i. (sym coded i).1) wrote in
      let (digest, there, only) =
        laws.commit_law lease (content_ref_name next) text (get_vm_labels next) writer w1 w2 w4 u
          opened from_w2
          (subst (λ x. store.commit writer (get_vm_labels next) w4 ≡ (ok tt, x)) at committed) in
      let before = with_owner_lease-contents (to_string m.id) lease w w1 leased in
      (
        same,
        digest,
        text,
        (λ i. (coded i).0),
        there,
        subst
            (λ c.
              (e : Entry)
              → Memᴰ e (laws.contents u)
              → (e ≡ record { info = info_of digest next; text = text }) ⊎ Memᴰ e c)
            before only,
      )

  -- Once the next version is written, the repository finds it.
  written-IsFound :
      (saved : Microvm) (w u : W)
      → ((text : String)
          → codec.marshal (with_next_version m) ≡ ok text
          → codec.unmarshal text ≡ ok (with_next_version m))
      → IsCurrent w
      → m.version + 1 < 2 ^ 63
      → write_next_version store leases codec m w ≡ (ok saved, u)
      → get_spec store leases codec (options_of m.id) u ≡ (ok (some saved), u)
  written-IsFound saved w u decodes current fits h =
      let (same, digest, text, coded, there, only) = written-contents saved w u h in
      let next = with_next_version m in
      let e : Entry = record { info = info_of digest next; text = text } in
      let here =
        mem-select (labels_of m.id) e (laws.contents u) there (has_labels-info_of digest next) in
      let top = version_of-info_of digest next fits in
      let found =
        find_digest-of_top store leases codec m laws u e m.version here top (others e only) in
      get_spec-of_found store leases codec m laws u e saved found here
        (decodes text coded ∙ ap ok same)
    where
      by_origin :
          (e x : Entry)
          → has_labels (labels_of m.id) x.info ≡ true
          → ((x ≡ e) ⊎ Memᴰ x (laws.contents w))
          → (x ≡ e) ⊎ ((j : ℕ) × (version_of x.info ≡ ok (pos j)) × (j ≤ m.version))
      by_origin e x has (inl is_e) = inl is_e
      by_origin e x has (inr old) =
          inr (current x (mem-select (labels_of m.id) x (laws.contents w) old has))

      others :
          (e : Entry)
          → ((x : Entry) → Memᴰ x (laws.contents u) → (x ≡ e) ⊎ Memᴰ x (laws.contents w))
          → (x : Entry) → Memᴰ x (versions_in store leases codec m laws u)
          → (x ≡ e) ⊎ ((j : ℕ) × (version_of x.info ≡ ok (pos j)) × (j ≤ m.version))
      others e only x at =
          let (there, has) = mem_of_mem-select (labels_of m.id) x (laws.contents u) at in
          by_origin e x has (only x there)

  -- What Save answers is what Get then finds: if no stored version of the microvm is newer than the
  -- one at hand, whose next version fits in 64 bits, and Save succeeds, then Get of the identifier
  -- in the state that Save left succeeds with the microvm that Save answered, and changes nothing.
  -- This holds whether Save wrote the next version or found no difference, provided that the
  -- content store keeps what containerd documents of walking, reading and committing, that a lease
  -- is no content, and that what is written as JSON is read back.
  pub save-get :
      (saved : Microvm) (w u : W)
      → ((text : String)
          → codec.marshal (with_next_version m) ≡ ok text
          → codec.unmarshal text ≡ ok (with_next_version m))
      → IsCurrent w
      → m.version + 1 < 2 ^ 63
      → save store leases codec m w ≡ (ok saved, u)
      → get store leases codec (options_of m.id) u ≡ (ok (some saved), u)
  unfolding save get
  save-get saved w u decodes current fits h =
      let (existing, v, read, h1) =
        bind-eq-ok (get_spec store leases codec (options_of m.id)) _ w u saved h in
      let stays = get_spec-reads store leases codec m laws existing w v read in
      let found = by_existing existing v stays read h1 in rw found refl
    where
      by_change :
          (b : Bool) (existing : Microvm) (v : W)
          → w ≡ v
          → get_spec store leases codec (options_of m.id) w ≡ (ok (some existing), v)
          → (if b then pure existing else write_next_version store leases codec m) v ≡ (ok saved, u)
          → get_spec store leases codec (options_of m.id) u ≡ (ok (some saved), u)
      by_change true existing v stays read h1 =
          let (same, at) = pure-eq-ok existing saved v u h1 in
          subst (λ x. get_spec store leases codec (options_of m.id) x ≡ (ok (some saved), x))
            (stays ∙ at) (read ∙ λ i. (ok (some (same i)), sym stays i))
      by_change false existing v stays read h1 =
          written-IsFound saved w u decodes current fits
            (subst (λ x. write_next_version store leases codec m x ≡ (ok saved, u)) (sym stays) h1)

      by_existing :
          (existing : Option Microvm) (v : W)
          → w ≡ v
          → get_spec store leases codec (options_of m.id) w ≡ (ok existing, v)
          → save_over store leases codec m existing v ≡ (ok saved, u)
          → get_spec store leases codec (options_of m.id) u ≡ (ok (some saved), u)
      by_existing none v stays read h1 =
          written-IsFound saved w u decodes current fits
            (subst (λ x. write_next_version store leases codec m x ≡ (ok saved, u)) (sym stays) h1)
      by_existing (some existing) v stays read h1 =
          by_change (is_unchanged store leases codec existing m) existing v stays read h1

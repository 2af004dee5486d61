-- ===== src/Containerd/Repo.antt =====
-- infrastructure/containerd/repo.go: the repository of microvms in the content store, where each save
-- adds content with the next version. The locks of the methods are left out.
pub mod Newest
pub mod Collected
pub mod Reads
pub mod Stored
pub mod SaveGet
use flintlock.Prelude.{
  ℕ, ◌+◌, ltb, String, Bool, true, false, ◌&&◌, List, [], ◌∷◌, ◌++◌, Option, none, some, is_empty,
  if◌then◌else◌,
}
use flintlock.Prelude.Int.{ℤ, pos, negsuc}
use flintlock.Prelude.Dict.{Dict, lookup, insert}
use flintlock.Prelude.Decimal.{atoi}
use flintlock.Outcome.{
  Outcome, ok, fail, core_spec_not_found, reading_content, version_not_a_number,
}
use flintlock.Outcome
use flintlock.Io.{Io, ◌>>=◌, ◌>>◌, pure, throw, lift, branch}
use flintlock.Models.Vmid.{Vmid, to_string}
use flintlock.Models.Volumes.{is_some}
use flintlock.Models.Microvm.{Microvm, ListMicrovmQuery}
use flintlock.Ports.{RepositoryGetOptions, MicrovmRepository}
use flintlock.Containerd.Client.{Info, ContentStore, LeaseManager, Codec}
use flintlock.Containerd.Labels.{
  all_filters, labels_of_options, convert_query_to_filter, get_vm_labels, content_ref_name,
  name_label, namespace_label, type_label, version_label, uid_label, microvm_spec_type,
}
use flintlock.Containerd.Lease.{with_owner_lease, delete_lease}

-- a > b
abbrev pub greater : ℤ → ℤ → Bool
greater (pos a) (pos b) = ltb b a
greater (pos a) (negsuc b) = true
greater (negsuc a) (pos b) = false
greater (negsuc a) (negsuc b) = ltb a b

-- info.Labels[label]
unfoldable pub label_of : String → Info → String
unfolding lookup
label_of label info = elim (lookup label info.labels) [ none ↦ "" | some value ↦ value ]

abbrev pub or_not_a_number : String → Option ℤ → Outcome ℤ
or_not_a_number text none = fail (version_not_a_number text)
or_not_a_number text (some version) = ok version

-- the version in the labels
unfoldable pub version_of : Info → Outcome ℤ
unfolding label_of
version_of info = or_not_a_number (label_of version_label info) (atoi (label_of version_label info))

-- the highest version so far, and the digest of its content
pub record Selection : Type 0 where
  pub high : ℤ
  pub digest : Option String

-- the callback of findDigestForSpec
unfoldable pub consider : Info → Selection → Outcome Selection
unfolding version_of
consider info s = Outcome.◌>>=◌ (version_of info) λ version.
    ok (if greater version s.high then record { high = version; digest = some info.digest } else s)

-- its calls on all that is visited
unfoldable pub newest : List Info → Selection → Outcome Selection
unfolding consider
newest [] s = ok s
newest (info ∷ rest) s = Outcome.◌>>=◌ (consider info s) (newest rest)

-- the two maps of GetAll, by uid
pub record Latest : Type 0 where
  pub versions : Dict ℤ
  pub digests : Dict String

-- the highest version of a uid so far, which starts at -1
abbrev pub or_minus_one : Option ℤ → ℤ
or_minus_one none = negsuc 0
or_minus_one (some high) = high

abbrev pub high_of : String → Latest → ℤ
high_of key l = or_minus_one (lookup key l.versions)

-- the callback of GetAll
unfoldable pub collect_one : Info → Latest → Outcome Latest
unfolding version_of insert lookup label_of
collect_one info l = Outcome.◌>>=◌ (version_of info) λ version. ok (
    if greater version (high_of (label_of uid_label info) l)
    then record {
      versions = insert (label_of uid_label info) version l.versions;
      digests = insert (label_of uid_label info) info.digest l.digests;
    }
    else l)

unfoldable pub collect : List Info → Latest → Outcome Latest
unfolding collect_one
collect [] l = ok l
collect (info ∷ rest) l = Outcome.◌>>=◌ (collect_one info l) (collect rest)

abbrev pub options_of : Vmid → RepositoryGetOptions
options_of id = record { name = id.name; namespace = id.namespace; version = ""; uid = id.uid }

-- microvm.Version++
abbrev pub with_next_version : Microvm → Microvm
with_next_version m = record m { version = m.version + 1 }

module _ {W Writer : Type 0} (store : ContentStore W Writer) (leases : LeaseManager W)
    (codec : Codec) where
  -- getWithDigest
  unfoldable pub get_with_digest : String → Io W Microvm
  get_with_digest digest =
      branch (store.read_blob digest) (λ e. throw reading_content)
        (λ text. lift (codec.unmarshal text))

  -- findDigestForSpec
  unfoldable pub find_digest_for_spec : RepositoryGetOptions → Io W (Option String)
  unfolding newest
  find_digest_for_spec options = do
    infos ← store.walk (all_filters (labels_of_options options))
    selected ← lift (newest infos (record { high = pos 0; digest = none }))
    pure selected.digest

  abbrev pub read_found : Option String → Io W (Option Microvm)
  read_found none = pure none
  read_found (some digest) = do m ← get_with_digest digest; pure (some m)

  -- get
  unfoldable pub get_spec : RepositoryGetOptions → Io W (Option Microvm)
  unfolding find_digest_for_spec get_with_digest
  get_spec options = do digest ← find_digest_for_spec options; read_found digest

  -- Get
  unfoldable pub get : RepositoryGetOptions → Io W (Option Microvm)
  unfolding get_spec
  get options = do
    spec ← get_spec options
    if is_some spec
        then pure spec
        else throw (core_spec_not_found options.name options.namespace options.version options.uid)

  -- Whether what is stored differs from what is to be saved.
  unfoldable pub is_unchanged : Microvm → Microvm → Bool
  is_unchanged existing m =
      is_empty (codec.spec_diff existing.spec m.spec)
      && is_empty (codec.status_diff existing.status m.status)

  -- the part of Save that writes; the version is counted up in the caller's microvm
  unfoldable pub write_next_version : Microvm → Io W Microvm
  unfolding with_owner_lease content_ref_name get_vm_labels
  write_next_version m = do
    lease ← with_owner_lease leases (to_string m.id)
    writer ← store.open_writer lease (content_ref_name (with_next_version m))
    text ← lift (codec.marshal (with_next_version m))
    store.write writer text
    store.commit writer (get_vm_labels (with_next_version m))
    pure (with_next_version m)

  abbrev pub save_over : Microvm → Option Microvm → Io W Microvm
  save_over m none = write_next_version m
  save_over m (some existing) =
      if is_unchanged existing m then pure existing else write_next_version m

  -- Save
  unfoldable pub save : Microvm → Io W Microvm
  unfolding get_spec is_unchanged write_next_version
  save m = do existing ← get_spec (options_of m.id); save_over m existing

  -- the loop over the digests at the end of GetAll
  unfoldable pub read_all : Dict String → Io W (List Microvm)
  unfolding get_with_digest
  read_all [] = pure []
  read_all ((uid, digest) ∷ rest) =
      let more = read_all rest in do m ← get_with_digest digest; ms ← more; pure (m ∷ ms)

  -- GetAll
  unfoldable pub get_all : ListMicrovmQuery → Io W (List Microvm)
  unfolding collect read_all
  get_all query = do
    infos ←
        store.walk (all_filters ((type_label, microvm_spec_type) ∷ convert_query_to_filter query))
    latest ← lift (collect infos (record { versions = []; digests = [] }))
    read_all latest.digests

  -- ReleaseLease
  unfoldable pub release_lease : Microvm → Io W (Unit {0})
  unfolding delete_lease to_string
  release_lease m = delete_lease leases (to_string m.id)

  -- the loop of Delete
  unfoldable pub delete_all : List Info → Io W (Unit {0})
  delete_all [] = pure tt
  delete_all (info ∷ rest) = let more = delete_all rest in do store.delete info.digest; more

  -- Delete: the uid is not asked for
  unfoldable pub delete : Microvm → Io W (Unit {0})
  unfolding delete_all
  delete m = do
    infos ←
        store.walk (all_filters ((name_label, m.id.name) ∷ (namespace_label, m.id.namespace) ∷ []))
    delete_all infos

  -- Exists
  unfoldable pub exists : Vmid → Io W Bool
  unfolding find_digest_for_spec
  exists id = do digest ← find_digest_for_spec (options_of id); pure (is_some digest)

  -- the repository that the core calls
  abbrev pub repository : MicrovmRepository W
  repository = record {
    save = save;
    get = get;
    get_all = get_all;
    exists = exists;
    release_lease = release_lease;
  }

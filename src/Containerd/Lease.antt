-- ===== src/Containerd/Lease.antt =====
-- infrastructure/containerd/lease.go: one lease for the content and the images of an owner.
use Prim.Native.String.{◌++◌ as ◌+++◌}
use flintlock.Prelude.{String, List, [], ◌∷◌, Option, none, some, str_eq, if◌then◌else◌}
use flintlock.Io.{Io, ◌>>=◌, pure}
use flintlock.Containerd.Client.{LeaseManager}

-- getLeaseNameForOwner
unfoldable pub get_lease_name_for_owner : String → String
get_lease_name_for_owner owner = "flintlock/" +++ owner

-- the loop over the leases that were listed
unfoldable pub find_lease : String → List String → Option String
find_lease name [] = none
find_lease name (id ∷ rest) = if str_eq id name then some id else find_lease name rest

module _ {W : Type 0} (manager : LeaseManager W) where
  abbrev pub or_create : String → Option String → Io W String
  or_create name none = manager.create_lease name
  or_create name (some id) = pure id

  -- getExistingOrCreateLease
  unfoldable pub get_existing_or_create_lease : String → Io W String
  unfolding find_lease
  get_existing_or_create_lease name = do
    existing ← manager.list_leases ("id==" +++ name)
    or_create name (find_lease name existing)

  -- withOwnerLease: the lease of the owner
  unfoldable pub with_owner_lease : String → Io W String
  unfolding get_lease_name_for_owner get_existing_or_create_lease
  with_owner_lease owner = get_existing_or_create_lease (get_lease_name_for_owner owner)

  -- deleteLease
  unfoldable pub delete_lease : String → Io W (Unit {0})
  unfolding get_lease_name_for_owner
  delete_lease owner = manager.delete_lease (get_lease_name_for_owner owner)

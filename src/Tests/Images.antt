-- ===== src/Tests/Images.antt =====
-- The image service over a host that remembers leases and snapshots.
use flintlock.Prelude.{
  ◌≡◌, refl, sym, ap, subst, ◌∙◌, arith, String, Bool, true, false, ◌||◌, List, [], ◌∷◌, Option,
  some, any, str_eq, eq_refl, eq_of-str_eq, if◌then◌else◌,
}
use flintlock.Outcome.{ok, ok-injective}
use flintlock.Steps.Settle.{MountsImages}
use flintlock.Containerd.Client.{LeaseManager}
use flintlock.Containerd.Lease.{find_lease}
use flintlock.Containerd.Mounts.{SnapshotMount}
use flintlock.Containerd.Images.{ImageClient, ImageConfig, image_service}
use flintlock.Containerd.Images.Mounted.{HaveSources, Stays, ImageLaws, image_service-MountsImages}

pub record Memory : Type 0 where
  pub leased : List String
  pub snapshots : List String

abbrev leases : LeaseManager Memory
leases = record {
  list_leases = λ filter w. (ok w.leased, w);
  create_lease = λ name w. (ok name, record w { leased = name ∷ w.leased });
  delete_lease = λ name w. (ok tt, w);
}

abbrev one_mount : List SnapshotMount
one_mount = record { source = "/dev/mapper/one" } ∷ []

abbrev client : ImageClient Memory (Unit {0})
client = record {
  pull = λ lease name w. (ok tt, w);
  get_image = λ lease name w. (ok tt, w);
  is_not_found = λ e. false;
  is_unpacked = λ image s w. (ok false, w);
  unpack = λ image s w. (ok tt, w);
  root_fs = λ image w. (ok "sha256:1", w);
  walk_snapshots = λ s w. (ok w.snapshots, w);
  prepare = λ s key parent labels w. (ok one_mount, record w { snapshots = key ∷ w.snapshots });
  mounts = λ s key w. (ok one_mount, w);
}

abbrev IsLeased : String → Memory → Type 0
IsLeased name w = find_lease name w.leased ≡ some name

abbrev HasSnapshot : String → Memory → Type 0
HasSnapshot key w = any (λ name. str_eq name key) w.snapshots ≡ true

created : (name : String) (ids : List String) → find_lease name (name ∷ ids) ≡ some name
unfolding find_lease
created name ids = rw (eq_refl name) refl

leased_or :
    (b : Bool) (x name : String) (rest : Option String)
    → str_eq x name ≡ b
    → (b ≡ false → rest ≡ some name)
    → (if b then some x else rest) ≡ some name
leased_or true x name rest e h = ap some (eq_of-str_eq x name e)
leased_or false x name rest e h = h refl

found_is :
    (name id : String) (ids : List String)
    → find_lease name ids ≡ some id
    → find_lease name ids ≡ some name
unfolding find_lease
found_is name id [] h = cc
found_is name id (x ∷ ids) h = leased_or (str_eq x name) x name (find_lease name ids) refl λ e.
    found_is name id ids (subst (λ b. (if b then some x else find_lease name ids) ≡ some id) e h)

still_leased :
    (name new : String) (w : Memory)
    → IsLeased name w
    → find_lease name (new ∷ w.leased) ≡ some name
unfolding find_lease
still_leased name new w h =
    leased_or (str_eq new name) new name (find_lease name w.leased) refl λ e. h

or_true : (a b : Bool) → b ≡ true → a || b ≡ true
or_true a b h = ground arith

stays :
    (P : Memory → Type 0)
    → ((name : String) (w : Memory) → P w → P (record w { leased = name ∷ w.leased }))
    → ((key : String) (w : Memory) → P w → P (record w { snapshots = key ∷ w.snapshots }))
    → Stays client leases P
stays P lease snapshot = record {
  list_keeps = λ filter. record { at = λ w p. p };
  create_keeps = λ name. record { at = lease name };
  pull_keeps = λ l name. record { at = λ w p. p };
  unpacked_keeps = λ image s. record { at = λ w p. p };
  unpack_keeps = λ image s. record { at = λ w p. p };
  root_fs_keeps = λ image. record { at = λ w p. p };
  walk_keeps = λ s. record { at = λ w p. p };
  prepare_keeps = λ s key parent labels. record { at = snapshot key };
  mounts_keep = λ s key. record { at = λ w p. p };
}

-- What a list of the leases, or of the snapshots, gave is what there is.
listed : (ids : List String) (w u : Memory) → leases.list_leases "" w ≡ (ok ids, u) → ids ≡ u.leased
listed ids w u e = sym (ok-injective w.leased ids (λ i. (e i).0)) ∙ λ i. (e i).1.leased

walked :
    (names : List String) (w u : Memory)
    → client.walk_snapshots "" w ≡ (ok names, u)
    → names ≡ u.snapshots
walked names w u e = sym (ok-injective w.snapshots names (λ i. (e i).0)) ∙ λ i. (e i).1.snapshots

made : (key : String) (w : Memory) → HasSnapshot key (record w { snapshots = key ∷ w.snapshots })
made key w = rw (eq_refl key) refl

client-ImageLaws : ImageLaws client leases
client-ImageLaws = record {
  Leased = IsLeased;
  Pulled = λ name w. Unit;
  Snapshot = λ s key. HasSnapshot key;
  leased_stays = λ name. stays (IsLeased name) (λ new. still_leased name new) (λ key w p. p);
  pulled_stays = λ name. stays (λ w. Unit) (λ n w p. p) (λ key w p. p);
  snapshot_stays =
      λ s key. stays (HasSnapshot key) (λ n w p. p) (λ new w p. or_true (str_eq new key) _ p);
  list_law = λ name w h. (w.leased, refl, h);
  listed_law = λ name id ids w u e h.
      subst (λ x. find_lease name x ≡ some name) (listed ids w u e) (found_is name id ids h);
  created_law = λ name id w u h. subst (IsLeased name) (λ i. (h i).1) (created name w.leased);
  pulled_law = λ lease name image w u h. tt;
  get_law = λ lease name w h. (tt, refl);
  walk_law = λ s key w h. (w.snapshots, refl, h);
  walked_law = λ s key names w u e h.
      subst (λ x. any (λ name. str_eq name key) x ≡ true) (walked names w u e) h;
  prepared_law = λ s key parent labels mounts w u h. (
    subst (HasSnapshot key) (λ i. (h i).1) (made key w),
    subst HaveSources (ok-injective one_mount mounts (λ i. (h i).0)) (refl, tt),
  );
  mounts_law = λ s key mounts w u h.
      subst HaveSources (ok-injective one_mount mounts (λ i. (h i).0)) (refl, tt);
}

abbrev devices : ImageConfig
devices = record { snapshotter_kernel = "native"; snapshotter_volume = "devmapper" }

image_service-MountsImages_example : MountsImages (image_service client leases devices)
image_service-MountsImages_example =
    image_service-MountsImages client leases client-ImageLaws devices refl refl

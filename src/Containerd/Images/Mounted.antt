-- ===== src/Containerd/Images/Mounted.antt =====
-- The image service keeps the promises that the core's steps rely on.
use Prim.Native.String.{◌++◌ as ◌+++◌}
use flintlock.Prelude.{
  ◌≡◌, refl, sym, ap, subst, ◌∙◌, String, Bool, true, false, List, [], ◌∷◌, Option, none, some, any,
  All, str_eq, is_empty, if◌then◌else◌,
}
use flintlock.Prelude.Dict.{Dict}
use flintlock.Outcome.{ok, fail, unsupported_snapshotter, ok-injective, >>=-eq-ok}
use flintlock.Io.{bind-eq-ok, pure-eq-ok, Keeps, Keeps-bind, Keeps-if, Keeps-pure, Keeps-lift, pure}
use flintlock.Models.Volumes.{Mount, dev, hostpath, ImageUse, volume_use, kernel_use, initrd_use}
use flintlock.Ports.{ImageMountSpec}
use flintlock.Steps.Settle.{MountsImages}
use flintlock.Containerd.Client.{LeaseManager}
use flintlock.Containerd.Lease.{
  with_owner_lease, get_existing_or_create_lease, get_lease_name_for_owner, find_lease, or_create,
}
use flintlock.Containerd.Mounts.{
  SnapshotMount, get_overlay_mount_path, convert_mount_to_model, convert_mounts_to_model,
}
use flintlock.Containerd.Images.{
  ImageClient, ImageConfig, snapshot_key, get_snapshotter, snapshot_exists, image_exists,
  pull_image, mounts_of_snapshot, snapshot_and_mount, pull_and_mount, is_mounted, image_service,
}

-- Each mount has a source.
abbrev pub HaveSources : List SnapshotMount → Type 0
HaveSources mounts = All (λ m. is_empty m.source ≡ false) mounts

-- The mounts of this snapshotter keep their sources.
abbrev pub KeepsSources : String → Type 0
KeepsSources s = str_eq s "overlayfs" ≡ false

convert_mount-source :
    (s : String) (m : SnapshotMount) (mount : Mount)
    → KeepsSources s
    → convert_mount_to_model s m ≡ ok mount
    → mount.source ≡ m.source
unfolding convert_mount_to_model get_overlay_mount_path
convert_mount-source s m mount h e =
    by_names (str_eq s "overlayfs") (str_eq s "native") (str_eq s "devmapper") h e
  where
    by_names :
        (overlay native_one devmapper : Bool)
        → overlay ≡ false
        → (if overlay
            then ok (record { type = hostpath; source = "" })
            else if native_one
            then ok (record { type = hostpath; source = m.source })
            else if devmapper
            then ok (record { type = dev; source = m.source })
            else fail (unsupported_snapshotter s))
          ≡ ok mount
        → mount.source ≡ m.source
    by_names true _ _ h e = cc
    by_names false true _ h e = λ i. (ok-injective mount _ (sym e) i).source
    by_names false false true h e = λ i. (ok-injective mount _ (sym e) i).source
    by_names false false false h e = cc

convert_mounts-source :
    (s : String) (ms : List SnapshotMount) (mount : Mount) (rest : List Mount)
    → KeepsSources s
    → HaveSources ms
    → convert_mounts_to_model s ms ≡ ok (mount ∷ rest)
    → is_empty mount.source ≡ false
unfolding convert_mounts_to_model
convert_mounts-source s [] mount rest k h e =
    let impossible : [] ≡ mount ∷ rest = ok-injective _ _ e in cc
convert_mounts-source s (m ∷ ms) mount rest k h e =
    let (converted, one, more) = >>=-eq-ok (convert_mount_to_model s m) _ (mount ∷ rest) e in
    let (others, _, last) = >>=-eq-ok (convert_mounts_to_model s ms) _ (mount ∷ rest) more in
    let first : converted ≡ mount = ap (first_of mount) (ok-injective _ _ last) in
    subst (λ x. is_empty x ≡ false)
      (sym (convert_mount-source s m converted k one) ∙ ap (λ x. x.source) first) h.0
  where
    first_of : Mount → List Mount → Mount
    first_of d [] = d
    first_of d (x ∷ xs) = x

module _ {W Image : Type 0} (client : ImageClient W Image) (leases : LeaseManager W) where
  -- Every call keeps a property.
  pub record Stays (P : W → Type 0) : Type 0 where
    pub list_keeps : (filter : String) → Keeps P (leases.list_leases filter)
    pub create_keeps : (name : String) → Keeps P (leases.create_lease name)
    pub pull_keeps : (lease name : String) → Keeps P (client.pull lease name)
    pub unpacked_keeps : (image : Image) (s : String) → Keeps P (client.is_unpacked image s)
    pub unpack_keeps : (image : Image) (s : String) → Keeps P (client.unpack image s)
    pub root_fs_keeps : (image : Image) → Keeps P (client.root_fs image)
    pub walk_keeps : (s : String) → Keeps P (client.walk_snapshots s)
    pub prepare_keeps :
        (s key parent : String) (labels : Dict String)
        → Keeps P (client.prepare s key parent labels)
    pub mounts_keep : (s key : String) → Keeps P (client.mounts s key)

  -- What containerd documents: a lease, an image and a snapshot, once made, are found, and none of the
  -- calls takes them away; finding them changes nothing; a mount has a source.
  pub record ImageLaws : Type 1 where
    pub Leased : String → W → Type 0
    pub Pulled : String → W → Type 0
    pub Snapshot : String → String → W → Type 0
    pub leased_stays : (name : String) → Stays (Leased name)
    pub pulled_stays : (name : String) → Stays (Pulled name)
    pub snapshot_stays : (s key : String) → Stays (Snapshot s key)
    pub list_law :
        (name : String) (w : W)
        → Leased name w
        → (ids : List String) × (leases.list_leases ("id==" +++ name) w ≡ (ok ids, w))
          × (find_lease name ids ≡ some name)
    pub listed_law :
        (name id : String) (ids : List String) (w u : W)
        → leases.list_leases ("id==" +++ name) w ≡ (ok ids, u)
        → find_lease name ids ≡ some id
        → Leased name u
    pub created_law :
        (name id : String) (w u : W) → leases.create_lease name w ≡ (ok id, u) → Leased name u
    pub pulled_law :
        (lease name : String) (image : Image) (w u : W)
        → client.pull lease name w ≡ (ok image, u)
        → Pulled name u
    pub get_law :
        (lease name : String) (w : W)
        → Pulled name w
        → (image : Image) × (client.get_image lease name w ≡ (ok image, w))
    pub walk_law :
        (s key : String) (w : W)
        → Snapshot s key w
        → (names : List String) × (client.walk_snapshots s w ≡ (ok names, w))
          × (any (λ name. str_eq name key) names ≡ true)
    pub walked_law :
        (s key : String) (names : List String) (w u : W)
        → client.walk_snapshots s w ≡ (ok names, u)
        → any (λ name. str_eq name key) names ≡ true
        → Snapshot s key u
    pub prepared_law :
        (s key parent : String) (labels : Dict String) (mounts : List SnapshotMount) (w u : W)
        → client.prepare s key parent labels w ≡ (ok mounts, u)
        → Snapshot s key u × HaveSources mounts
    pub mounts_law :
        (s key : String) (mounts : List SnapshotMount) (w u : W)
        → client.mounts s key w ≡ (ok mounts, u)
        → HaveSources mounts

  module _ (laws : ImageLaws) (config : ImageConfig) where
    with_owner_lease-Leased :
        (owner lease : String) (w u : W)
        → with_owner_lease leases owner w ≡ (ok lease, u)
        → laws.Leased (get_lease_name_for_owner owner) u
    unfolding with_owner_lease get_existing_or_create_lease
    with_owner_lease-Leased owner lease w u h =
        let name = get_lease_name_for_owner owner in
        let (ids, v, listed, more) =
          bind-eq-ok (leases.list_leases ("id==" +++ name)) _ w u lease h in
        by_found (find_lease name ids) ids v refl listed more
      where
        by_found :
            (found : Option String) (ids : List String) (v : W)
            → find_lease (get_lease_name_for_owner owner) ids ≡ found
            → leases.list_leases ("id==" +++ get_lease_name_for_owner owner) w ≡ (ok ids, v)
            → or_create leases (get_lease_name_for_owner owner) found v ≡ (ok lease, u)
            → laws.Leased (get_lease_name_for_owner owner) u
        by_found none ids v e listed more = laws.created_law _ lease v u more
        by_found (some id) ids v e listed more =
            subst (laws.Leased _) (pure-eq-ok id lease v u more).1
              (laws.listed_law _ id ids w v listed e)

    with_owner_lease-Keeps :
        (P : W → Type 0) → Stays P → (owner : String) → Keeps P (with_owner_lease leases owner)
    unfolding with_owner_lease get_existing_or_create_lease
    with_owner_lease-Keeps P stays owner =
        Keeps-bind _ _ (stays.list_keeps _)
          λ ids. by_found (find_lease (get_lease_name_for_owner owner) ids)
      where
        by_found :
            (found : Option String)
            → Keeps P (or_create leases (get_lease_name_for_owner owner) found)
        by_found none = stays.create_keeps _
        by_found (some id) = Keeps-pure id

    snapshot_exists-Keeps :
        (P : W → Type 0)
        → Stays P
        → (s key : String) → Keeps P (snapshot_exists client leases config s key)
    unfolding snapshot_exists
    snapshot_exists-Keeps P stays s key = Keeps-bind _ _ (stays.walk_keeps s) λ names. Keeps-pure _

    mounts_of_snapshot-Keeps :
        (P : W → Type 0)
        → Stays P
        → (b : Bool) (s key parent owner usage : String)
        → Keeps P (mounts_of_snapshot client leases config b s key parent owner usage)
    unfolding mounts_of_snapshot
    mounts_of_snapshot-Keeps P stays true s key parent owner usage = stays.mounts_keep s key
    mounts_of_snapshot-Keeps P stays false s key parent owner usage =
        stays.prepare_keeps s key parent _

    snapshot_and_mount-Keeps :
        (P : W → Type 0)
        → Stays P
        → (image : Image) (owner usage s : String)
        → Keeps P (snapshot_and_mount client leases config image owner usage s)
    unfolding snapshot_and_mount
    snapshot_and_mount-Keeps P stays image owner usage s =
        Keeps-bind _ _ (stays.unpacked_keeps image s) λ unpacked.
          Keeps-bind _ _ (Keeps-if unpacked _ _ (Keeps-pure tt) (stays.unpack_keeps image s)) λ t.
            Keeps-bind _ _ (stays.root_fs_keeps image) λ parent.
              Keeps-bind _ _ (snapshot_exists-Keeps P stays s _) λ exists.
                Keeps-bind _ _ (mounts_of_snapshot-Keeps P stays exists s _ parent owner usage)
                  λ mounts. Keeps-lift _

    -- Once a snapshot was mounted, it is there.
    snapshot_and_mount-Snapshot :
        (image : Image) (owner usage s : String) (mounts : List Mount) (w u : W)
        → snapshot_and_mount client leases config image owner usage s w ≡ (ok mounts, u)
        → laws.Snapshot s (snapshot_key owner usage) u
          × ((sources : List SnapshotMount) × HaveSources sources
              × (convert_mounts_to_model s sources ≡ ok mounts))
    unfolding snapshot_and_mount snapshot_exists mounts_of_snapshot
    snapshot_and_mount-Snapshot image owner usage s mounts w u h =
        let key = snapshot_key owner usage in
        let (unpacked, w1, a, h1) = bind-eq-ok (client.is_unpacked image s) _ w u mounts h in
        let (t, w2, b, h2) =
          bind-eq-ok (if unpacked then pure tt else client.unpack image s) _ w1 u mounts h1 in
        let (parent, w3, c, h3) = bind-eq-ok (client.root_fs image) _ w2 u mounts h2 in
        let (exists, w4, d, h4) =
          bind-eq-ok (snapshot_exists client leases config s key) _ w3 u mounts h3 in
        let (sources, w5, e, h5) =
          bind-eq-ok (mounts_of_snapshot client leases config exists s key parent owner usage) _ w4
            u mounts h4 in
        let (here, have) = made exists parent sources w3 w4 w5 d e in
        (subst (laws.Snapshot s key) (λ i. (h5 i).1) here, (sources, have, (λ i. (h5 i).0)))
      where
        made :
            (exists : Bool) (parent : String) (sources : List SnapshotMount) (w3 w4 w5 : W)
            → snapshot_exists client leases config s (snapshot_key owner usage) w3 ≡ (ok exists, w4)
            → mounts_of_snapshot client leases config exists s
                (snapshot_key owner usage)
                parent
                owner
                usage
                w4
              ≡ (ok sources, w5)
            → laws.Snapshot s (snapshot_key owner usage) w5 × HaveSources sources
        made false parent sources w3 w4 w5 d e = laws.prepared_law s _ parent _ sources w4 w5 e
        made true parent sources w3 w4 w5 d e =
            let key = snapshot_key owner usage in
            let (names, v, walked, last) = bind-eq-ok (client.walk_snapshots s) _ w3 w4 true d in
            let (found, at) = pure-eq-ok _ true v w4 last in
            let here =
              subst (laws.Snapshot s key) at (laws.walked_law s key names w3 v walked found) in
            (
              subst (laws.Snapshot s key) (λ i. (e i).1)
                  (((laws.snapshot_stays s key).mounts_keep s key).at w4 here),
              laws.mounts_law s key sources w4 w5 e,
            )

    -- What is leased, pulled and has its snapshot is mounted.
    is_mounted-of_all :
        (input : ImageMountSpec) (w : W)
        → laws.Leased (get_lease_name_for_owner input.owner) w
        → laws.Pulled input.image_name w
        → laws.Snapshot
            (get_snapshotter config input.use_for)
            (snapshot_key input.owner input.owner_usage_id)
            w
        → (is_mounted client leases config input w).0 ≡ ok true
    unfolding is_mounted image_exists snapshot_exists with_owner_lease get_existing_or_create_lease
    is_mounted-of_all input w leased pulled there =
        let (ids, listed, found) = laws.list_law _ w leased in
        let (image, got) =
          laws.get_law (get_lease_name_for_owner input.owner) input.image_name w pulled in
        let (names, walked, has) = laws.walk_law _ _ w there in
        rw (listed, found, got, walked, has) refl

    pull_and_mount-IsMounted :
        (input : ImageMountSpec) (mounts : List Mount) (w u : W)
        → pull_and_mount client leases config input w ≡ (ok mounts, u)
        → ((is_mounted client leases config input u).0 ≡ ok true)
          × ((sources : List SnapshotMount) × HaveSources sources
              × (convert_mounts_to_model (get_snapshotter config input.use_for) sources
                  ≡ ok mounts))
    unfolding pull_and_mount pull_image
    pull_and_mount-IsMounted input mounts w u h =
        let name = get_lease_name_for_owner input.owner in
        let s = get_snapshotter config input.use_for in
        let (lease, w1, a, h1) = bind-eq-ok (with_owner_lease leases input.owner) _ w u mounts h in
        let (image, w2, pulling, h2) =
          bind-eq-ok (pull_image client leases config input.image_name input.owner) _ w1 u mounts
            h1 in
        let (lease1, w3, b, last) =
          bind-eq-ok (with_owner_lease leases input.owner) _ w1 w2 image pulling in
        let pulled = laws.pulled_law lease1 input.image_name image w3 w2 last in
        let leased =
          subst (laws.Leased name) (λ i. (last i).1)
            (((laws.leased_stays name).pull_keeps lease1 input.image_name).at w3
              (with_owner_lease-Leased input.owner lease1 w1 w3 b)) in
        let (snapshot, rest) =
          snapshot_and_mount-Snapshot image input.owner input.owner_usage_id s mounts w2 u h2 in
        let keeps : (P : W → Type 0) → Stays P → P w2 → P u = λ P stays p.
          subst P (λ i. (h2 i).1)
            ((snapshot_and_mount-Keeps P stays image input.owner input.owner_usage_id s).at w2 p) in
        (
          is_mounted-of_all input u (keeps (laws.Leased name) (laws.leased_stays name) leased)
              (keeps (laws.Pulled input.image_name) (laws.pulled_stays input.image_name) pulled)
              snapshot,
          rest,
        )

    -- The image service keeps the promises that the steps on mounts need: after PullAndMount has
    -- succeeded, IsMounted succeeds and says so for the same image, owner and use, and the first
    -- mount has a source. The proviso is that neither snapshotter is overlayfs and that containerd
    -- keeps what it documents of leases, images and snapshots.
    pub image_service-MountsImages :
        KeepsSources config.snapshotter_kernel
        → KeepsSources config.snapshotter_volume
        → MountsImages (image_service client leases config)
    unfolding get_snapshotter
    image_service-MountsImages kernel volume = record {
      mounted = λ input w mounts h.
          let u = (pull_and_mount client leases config input w).1 in
          (pull_and_mount-IsMounted input mounts w u (λ i. (h i, u))).0;
      has_source = λ input w mount rest h.
          let u = (pull_and_mount client leases config input w).1 in
          let (_, (sources, have, converted)) =
            pull_and_mount-IsMounted input (mount ∷ rest) w u (λ i. (h i, u)) in
          convert_mounts-source (get_snapshotter config input.use_for) sources mount rest
            (keeps_sources input.use_for) have converted;
    }
      where
        keeps_sources : (use_for : ImageUse) → KeepsSources (get_snapshotter config use_for)
        keeps_sources volume_use = volume
        keeps_sources kernel_use = kernel
        keeps_sources initrd_use = kernel

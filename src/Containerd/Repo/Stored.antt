-- ===== src/Containerd/Repo/Stored.antt =====
-- The content store seen as the list of what is stored, and what is found there by its labels.
use mathlib.Core.List.{Memᴰ}
use mathlib.Core.List.Memᴰ.{head, tail}
use flintlock.Prelude.{
  ◌≡◌, refl, sym, ap, ◌∙◌, ◌⊎◌, inl, inr, arith, ◌<◌, ◌^◌, String, Bool, true, false, ◌&&◌, List,
  [], ◌∷◌, ◌++◌, map, is_empty, Bool-cases, str_eq, eq_refl, if◌then◌else◌,
}
use flintlock.Prelude.Int.{pos}
use flintlock.Prelude.Dict.{Dict, lookup}
use flintlock.Prelude.Decimal.{itoa, atoi-itoa}
use flintlock.Outcome.{ok}
use flintlock.Models.Vmid.{Vmid}
use flintlock.Models.Microvm.{Microvm}
use flintlock.Containerd.Client.{Info, ContentStore, LeaseManager}
use flintlock.Containerd.Labels.{
  all_filters, labels_of_options, get_vm_labels, name_label, namespace_label, uid_label, asked,
}
use flintlock.Containerd.Repo.{label_of, version_of, or_not_a_number, options_of}

-- what is stored: its information and its text
pub record Entry : Type 0 where
  pub info : Info
  pub text : String

abbrev pub has_labels : List (String × String) → Info → Bool
has_labels [] info = true
has_labels ((label, value) ∷ rest) info = str_eq (label_of label info) value && has_labels rest info

abbrev pub select : List (String × String) → List Entry → List Entry
select labels [] = []
select labels (e ∷ rest) =
    if has_labels labels e.info then e ∷ select labels rest else select labels rest

abbrev pub infos_of : List Entry → List Info
infos_of = map λ e. e.info

-- the labels of an identifier
abbrev pub labels_of : Vmid → List (String × String)
labels_of id = labels_of_options (options_of id)

-- What containerd documents: the walk with the filter on the labels of `id` visits what has them, what
-- is stored can be read under its digest, reading changes nothing, leases are no content, and what is
-- written and committed is stored with the labels given, beside what was there.
pub record StoreLaws {W Writer : Type 0} (store : ContentStore W Writer) (leases : LeaseManager W)
    (id : Vmid) : Type 0 where
  pub contents : W → List Entry
  pub walk_law :
      (w : W)
      → store.walk (all_filters (labels_of id)) w
        ≡ (ok (infos_of (select (labels_of id) (contents w))), w)
  pub read_law :
      (e : Entry) (w : W) → Memᴰ e (contents w) → store.read_blob e.info.digest w ≡ (ok e.text, w)
  pub list_law : (filter : String) (w : W) → contents (leases.list_leases filter w).1 ≡ contents w
  pub create_law : (name : String) (w : W) → contents (leases.create_lease name w).1 ≡ contents w
  pub commit_law :
      (lease ref text : String) (labels : Dict String) (writer : Writer) (w w1 w2 w3 : W)
      → store.open_writer lease ref w ≡ (ok writer, w1)
      → store.write writer text w1 ≡ (ok tt, w2)
      → store.commit writer labels w2 ≡ (ok tt, w3)
      → (digest : String) × Memᴰ
          (record { info = record { digest = digest; labels = labels }; text = text })
          (contents w3)
        × ((e : Entry)
            → Memᴰ e (contents w3)
            → (e ≡ record { info = record { digest = digest; labels = labels }; text = text })
              ⊎ Memᴰ e (contents w))

pub mem-select :
    (labels : List (String × String)) (e : Entry) (es : List Entry)
    → Memᴰ e es
    → has_labels labels e.info ≡ true
    → Memᴰ e (select labels es)
mem-select labels e [] m h = elim m [ ]
mem-select labels e (x ∷ es) (head same) h =
    let hx = ap (λ y. has_labels labels y.info) (sym same) ∙ h in rw hx (head same)
mem-select labels e (x ∷ es) (tail m) h = elim (Bool-cases (has_labels labels x.info)) [
  | inl b ↦ rw b (tail (mem-select labels e es m h))
  | inr b ↦ rw b (mem-select labels e es m h)
]

pub mem_of_mem-select :
    (labels : List (String × String)) (e : Entry) (es : List Entry)
    → Memᴰ e (select labels es)
    → Memᴰ e es × (has_labels labels e.info ≡ true)
mem_of_mem-select labels e [] m = elim m [ ]
mem_of_mem-select labels e (x ∷ es) m =
    by_test (has_labels labels x.info) refl (mem_of_mem-select labels e es) m
  where
    by_test :
        (b : Bool)
        → has_labels labels x.info ≡ b
        → (Memᴰ e (select labels es) → Memᴰ e es × (has_labels labels e.info ≡ true))
        → Memᴰ e (if b then x ∷ select labels es else select labels es)
        → Memᴰ e (x ∷ es) × (has_labels labels e.info ≡ true)
    by_test true h more (head same) = (head same, ap (λ y. has_labels labels y.info) same ∙ h)
    by_test true h more (tail m) = let (there, has) = more m in (tail there, has)
    by_test false h more m = let (there, has) = more m in (tail there, has)

pub mem-infos_of : (e : Entry) (es : List Entry) → Memᴰ e es → Memᴰ e.info (infos_of es)
mem-infos_of e [] m = elim m [ ]
mem-infos_of e (x ∷ es) (head same) = head (λ i. (same i).info)
mem-infos_of e (x ∷ es) (tail m) = tail (mem-infos_of e es m)

pub entry_of_mem-infos_of :
    (info : Info) (es : List Entry)
    → Memᴰ info (infos_of es)
    → (e : Entry) × Memᴰ e es × (e.info ≡ info)
entry_of_mem-infos_of info [] m = elim m [ ]
entry_of_mem-infos_of info (x ∷ es) (head same) = (x, head refl, sym same)
entry_of_mem-infos_of info (x ∷ es) (tail m) =
    let (e, there, same) = entry_of_mem-infos_of info es m in (e, tail there, same)

-- The information under which a microvm is stored.
abbrev pub info_of : String → Microvm → Info
info_of digest m = record { digest = digest; labels = get_vm_labels m }

has_labels-append :
    (xs ys : List (String × String)) (info : Info)
    → has_labels xs info ≡ true
    → has_labels ys info ≡ true
    → has_labels (xs ++ ys) info ≡ true
has_labels-append [] ys info h k = k
has_labels-append ((label, value) ∷ xs) ys info h k =
    ground (arith, has_labels-append xs ys info, h, k)

has_labels-asked :
    (label value : String) (info : Info)
    → label_of label info ≡ value
    → has_labels (asked label value) info ≡ true
has_labels-asked label value info h = elim (Bool-cases (is_empty value)) [
  | inl e ↦ rw e refl
  | inr e ↦ rw (e, h, eq_refl value) refl
]

-- It has the labels of the microvm's identifier, and the microvm's version.
pub has_labels-info_of :
    (digest : String) (m : Microvm) → has_labels (labels_of m.id) (info_of digest m) ≡ true
unfolding labels_of_options get_vm_labels label_of lookup
has_labels-info_of digest m =
    let info = info_of digest m in
    let uid = asked uid_label m.id.uid in
    let namespace = asked namespace_label m.id.namespace in
    has_labels-append (asked name_label m.id.name) (namespace ++ (uid ++ [])) info
      (has_labels-asked name_label m.id.name info refl)
      (has_labels-append namespace (uid ++ []) info
        (has_labels-asked namespace_label m.id.namespace info refl)
        (has_labels-append uid [] info (has_labels-asked uid_label m.id.uid info refl) refl))

pub version_of-info_of :
    (digest : String) (m : Microvm)
    → m.version < 2 ^ 63
    → version_of (info_of digest m) ≡ ok (pos m.version)
unfolding version_of get_vm_labels label_of lookup
version_of-info_of digest m h = ap (or_not_a_number (itoa m.version)) (atoi-itoa m.version h)

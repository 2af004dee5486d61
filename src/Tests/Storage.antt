-- ===== src/Tests/Storage.antt =====
-- The repository over a content store whose digests are the texts themselves.
use mathlib.Core.List.{Memᴰ}
use mathlib.Core.List.Memᴰ.{head, tail}
use flintlock.Prelude.{
  ◌≡◌, refl, sym, subst, ◌∙◌, ◌⊎◌, inl, inr, arith, String, List, [], ◌∷◌, map, some,
}
use flintlock.Prelude.Int.{pos}
use flintlock.Prelude.Dict.{Dict}
use flintlock.Prelude.Decimal.{atoi}
use flintlock.Outcome.{ok}
use flintlock.Models.Microvm.{Microvm, pending}
use flintlock.Containerd.Client.{Info, ContentStore, LeaseManager, Codec}
use flintlock.Containerd.Labels.{
  all_filters, get_vm_labels, labels_of_options, uid_label, version_label,
}
use flintlock.Containerd.Repo.{
  options_of, find_digest_for_spec, Latest, save, get, with_next_version,
}
use flintlock.Containerd.Repo.Newest.{IsHighest, find_digest_for_spec-IsHighest}
use flintlock.Containerd.Repo.Stored.{Entry, StoreLaws, select, infos_of, labels_of}
use flintlock.Containerd.Repo.SaveGet.{IsCurrent, save-get}
use flintlock.Tests.Host.{microvm_with}

-- what was committed, and the text that was written last
pub record Contents : Type 0 where
  pub committed : List (Dict String × String)
  pub written : String

abbrev entry_of : Dict String × String → Entry
entry_of (labels, text) = record { info = record { digest = text; labels = labels }; text = text }

abbrev entries : Contents → List Entry
entries w = map entry_of w.committed

abbrev stored : Microvm
stored = microvm_with pending 0 0 0

abbrev leases : LeaseManager Contents
leases = record {
  list_leases = λ filter w. (ok [], w);
  create_lease = λ name w. (ok name, w);
  delete_lease = λ name w. (ok tt, w);
}

-- its walk is the one that is asked for: that of the labels of `stored`
abbrev texts : ContentStore Contents (Unit {0})
texts = record {
  walk = λ filter w. (ok (infos_of (select (labels_of stored.id) (entries w))), w);
  delete = λ digest w. (ok tt, w);
  read_blob = λ digest w. (ok digest, w);
  open_writer = λ lease ref w. (ok tt, w);
  write = λ writer text w. (ok tt, record w { written = text });
  commit = λ writer labels w. (ok tt, record w { committed = (labels, w.written) ∷ w.committed });
}

abbrev codec : Codec
codec = record {
  marshal = λ m. ok "first version";
  unmarshal = λ text. ok (with_next_version stored);
  spec_diff = λ a b. "";
  status_diff = λ a b. "";
}

has_text :
    (e : Entry) (ws : List (Dict String × String))
    → Memᴰ e (map entry_of ws)
    → e.info.digest ≡ e.text
has_text e [] m = elim m [ ]
has_text e ((labels, text) ∷ ws) (Memᴰ.head same) =
    (λ i. (same i).info.digest) ∙ λ i. (sym same i).text
has_text e ((labels, text) ∷ ws) (Memᴰ.tail m) = has_text e ws m

added : (e x : Entry) (es : List Entry) → Memᴰ e (x ∷ es) → (e ≡ x) ⊎ Memᴰ e es
added e x es (Memᴰ.head same) = inl same
added e x es (Memᴰ.tail m) = inr m

commits :
    (text : String) (labels : Dict String) (w w1 w2 w3 : Contents)
    → w ≡ w1
    → record w1 { written = text } ≡ w2
    → record w2 { committed = (labels, w2.written) ∷ w2.committed } ≡ w3
    → w3.committed ≡ (labels, text) ∷ w.committed
commits text labels w w1 w2 w3 a b c =
    (λ i. (sym c i).committed) ∙ (λ i. (labels, (sym b i).written) ∷ (sym b i).committed) ∙ λ i.
    (labels, text) ∷ (sym a i).committed

abbrev texts-StoreLaws : StoreLaws texts leases stored.id
texts-StoreLaws = record {
  contents = entries;
  walk_law = λ w. refl;
  read_law = λ e w m i. (ok (has_text e w.committed m i), w);
  list_law = λ filter w. refl;
  create_law = λ name w. refl;
  commit_law = λ lease ref text labels writer w w1 w2 w3 a b c.
      let grown = commits text labels w w1 w2 w3 (λ i. (a i).1) (λ i. (b i).1) (λ i. (c i).1) in
      (
        text,
        subst (λ ws. Memᴰ (entry_of (labels, text)) (map entry_of ws)) (sym grown) (Memᴰ.head refl),
        λ e m.
            added e (entry_of (labels, text)) (entries w)
              (subst (λ ws. Memᴰ e (map entry_of ws)) grown m),
      );
}

abbrev no_content : Contents
no_content = record { committed = []; written = "" }

abbrev one_content : Contents
one_content = record {
  committed = (get_vm_labels (with_next_version stored), "first version") ∷ [];
  written = "first version";
}

saves : save texts leases codec stored no_content ≡ (ok (with_next_version stored), one_content)
unfolding save
saves = refl

none_before : IsCurrent texts leases codec stored texts-StoreLaws no_content
none_before e m = elim m [ ]

save-get_example :
    get texts leases codec (options_of stored.id) one_content
    ≡ (ok (some (with_next_version stored)), one_content)
save-get_example =
    save-get texts leases codec stored texts-StoreLaws (with_next_version stored) no_content
      one_content (λ text e. refl) none_before (omega arith) saves

-- content of two microvms, with versions that texts would sort otherwise
abbrev content : String → String → String → Info
content digest uid version = record {
  digest = digest;
  labels = (uid_label, uid) ∷ (version_label, version) ∷ [];
}

abbrev several : List Info
several =
    content "a" "01ABC" "1"
    ∷ content "b" "01ABC" "10"
    ∷ content "c" "01XYZ" "2"
    ∷ content "d" "01ABC" "9"
    ∷ []

abbrev walked : ContentStore Contents (Unit {0})
walked = record texts { walk = λ filter w. (ok several, w) }

finds :
    find_digest_for_spec walked leases codec (options_of stored.id) no_content
    ≡ (ok (some "b"), no_content)
unfolding find_digest_for_spec atoi
finds = refl

find_digest_for_spec-IsHighest_example :
    (infos : List Info) × (walked.walk
        (all_filters (labels_of_options (options_of stored.id)))
        no_content
      ≡ (ok infos, no_content))
    × IsHighest infos (some "b")
find_digest_for_spec-IsHighest_example =
    find_digest_for_spec-IsHighest walked leases codec (options_of stored.id) (some "b") no_content
      no_content finds

abbrev latest : Latest
latest = record {
  versions = ("01ABC", pos 10) ∷ ("01XYZ", pos 2) ∷ [];
  digests = ("01ABC", "b") ∷ ("01XYZ", "c") ∷ [];
}

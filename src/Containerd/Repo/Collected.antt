-- ===== src/Containerd/Repo/Collected.antt =====
-- infrastructure/containerd/repo.go: the digest that GetAll has for a uid, beside findDigestForSpec.
use mathlib.Core.List.{Memᴰ}
use flintlock.Prelude.{◌≡◌, String, Bool, true, List, [], ◌∷◌, str_eq, if◌then◌else◌}
use flintlock.Prelude.Int.{ℤ, pos}
use flintlock.Prelude.Dict.{Dict, lookup, insert}
use flintlock.Outcome.{ok}
use flintlock.Containerd.Client.{Info}
use flintlock.Containerd.Labels.{uid_label}
use flintlock.Containerd.Repo.{greater, version_of, label_of, Selection, Latest, high_of}

-- GetAll's choice for one uid
abbrev pub selection_at : String → Latest → Selection
selection_at uid l = record { high = high_of uid l; digest = lookup uid l.digests }

-- what carries a uid
abbrev pub of_uid : String → List Info → List Info
of_uid uid [] = []
of_uid uid (info ∷ rest) =
    if str_eq (label_of uid_label info) uid then info ∷ of_uid uid rest else of_uid uid rest

abbrev replace_if : Bool → String → ℤ → String → Latest → Latest
replace_if b uid version digest l =
    if b
    then record { versions = insert uid version l.versions; digests = insert uid digest l.digests }
    else l

-- The versions start at 1.
abbrev pub HavePositive : List Info → Type 0
HavePositive infos =
    (info : Info) (version : ℤ)
    → Memᴰ info infos
    → version_of info ≡ ok version
    → greater version (pos 0) ≡ true

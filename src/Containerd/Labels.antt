-- ===== src/Containerd/Labels.antt =====
-- infrastructure/containerd/content.go, and the filters of repo.go: the labels that content carries.
use Prim.Native.String.{◌++◌ as ◌+++◌}
use flintlock.Prelude.{String, List, [], ◌∷◌, ◌++◌, map, is_empty, str_eq, if◌then◌else◌}
use flintlock.Prelude.Dict.{Dict}
use flintlock.Prelude.Decimal.{itoa}
use flintlock.Models.Vmid.{to_string}
use flintlock.Models.Microvm.{Microvm, ListMicrovmQuery}
use flintlock.Ports.{RepositoryGetOptions}

-- defaults.Domain
abbrev pub domain : String
domain = "dev.liquidmetal.flintlockd"

abbrev pub microvm_spec_type : String
microvm_spec_type = "microvm"

abbrev pub name_label : String
name_label = domain +++ "/name"

abbrev pub namespace_label : String
namespace_label = domain +++ "/ns"

abbrev pub type_label : String
type_label = domain +++ "/type"

abbrev pub version_label : String
version_label = domain +++ "/version"

abbrev pub uid_label : String
uid_label = domain +++ "/uid"

-- contentRefName
unfoldable pub content_ref_name : Microvm → String
unfolding to_string
content_ref_name m = domain +++ ("/microvm/" +++ to_string m.id)

-- labelFilter, of a label and its value
unfoldable pub label_filter : String × String → String
label_filter (name, value) = "labels.\"" +++ (name +++ ("\"==\"" +++ (value +++ "\"")))

-- strings.Join
unfoldable pub join : String → List String → String
join sep [] = ""
join sep (s ∷ []) = s
join sep (s ∷ rest) = s +++ (sep +++ join sep rest)

-- a filter that asks for each label's value
abbrev pub all_filters : List (String × String) → String
all_filters labels = join "," (map label_filter labels)

-- getVMLabels
unfoldable pub get_vm_labels : Microvm → Dict String
unfolding itoa
get_vm_labels m =
    (name_label, m.id.name)
    ∷ (namespace_label, m.id.namespace)
    ∷ (type_label, microvm_spec_type)
    ∷ (version_label, itoa m.version)
    ∷ (uid_label, m.id.uid)
    ∷ []

abbrev pub asked : String → String → List (String × String)
asked label value = if is_empty value then [] else (label, value) ∷ []

-- the labels that findDigestForSpec filters by
unfoldable pub labels_of_options : RepositoryGetOptions → List (String × String)
labels_of_options options =
    asked name_label options.name
    ++ (asked namespace_label options.namespace
        ++ (asked uid_label options.uid ++ asked version_label options.version))

abbrev label_of_key : String → String
label_of_key key =
    if str_eq key "namespace"
    then namespace_label
    else if str_eq key "name"
    then name_label
    else key

-- convertQueryToFilter, in the order of the dictionary, where Go's is any
unfoldable pub convert_query_to_filter : ListMicrovmQuery → List (String × String)
convert_query_to_filter [] = []
convert_query_to_filter ((key, value) ∷ rest) =
    asked (label_of_key key) value ++ convert_query_to_filter rest

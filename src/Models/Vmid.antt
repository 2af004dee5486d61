-- ===== src/Models/Vmid.antt =====
-- core/models/vmid.go
pub mod RoundTrip
pub mod Total
use Prim.Native.Char.{Char, code}
use Prim.Native.String.{◌++◌ as ◌+++◌}
use flintlock.Prelude.{ℕ, ◌==◌, Bool, String, List, [], ◌∷◌, if◌then◌else◌, str_eq, is_empty, ◌&&◌}
use flintlock.Outcome.{
  Outcome, ok, fail, ◌>>=◌, name_required, namespace_required, uid_required, incorrect_vmid_format,
}

pub record Vmid : Type 0 where
  pub name : String
  pub namespace : String
  pub uid : String

abbrev pub default_namespace : String
default_namespace = "default"

-- NewVMID
unfoldable pub new_vmid : String → String → String → Outcome Vmid
new_vmid name namespace uid =
    if is_empty name
    then fail name_required
    else ok (record {
      name = name;
      namespace = if is_empty namespace then default_namespace else namespace;
      uid = uid;
    })

-- NewVMIDForce
unfoldable pub new_vmid_force : String → String → String → Vmid
new_vmid_force name namespace uid = record { name = name; namespace = namespace; uid = uid }

abbrev pub is_slash : Char → Bool
is_slash c = code c == b'/'

abbrev pub slash : Char
slash = "/"

-- Put a character in front of the first part.
abbrev pub push_char : Char → List String → List String
push_char c [] = String.◌∷◌ c String.[] ∷ []
push_char c (part ∷ parts) = String.◌∷◌ c part ∷ parts

-- strings.Split(id, "/")
unfoldable pub split : String → List String
split String.[] = "" ∷ []
split (String.◌∷◌ c s) = let parts = split s in if is_slash c then "" ∷ parts else push_char c parts

-- the three tests after the count of parts
abbrev checked_parts : String → String → String → Outcome Vmid
checked_parts namespace name uid =
    if is_empty namespace
    then fail namespace_required
    else if is_empty name
    then fail name_required
    else if is_empty uid
    then fail uid_required
    else ok (record { name = name; namespace = namespace; uid = uid })

abbrev parts_to_vmid : String → List String → Outcome Vmid
parts_to_vmid id (namespace ∷ name ∷ uid ∷ []) = checked_parts namespace name uid
parts_to_vmid id _ = fail (incorrect_vmid_format id)

-- splitVMIDFromString, its three results as a record
unfoldable pub split_vmid_from_string : String → Outcome Vmid
unfolding split
split_vmid_from_string id = parts_to_vmid id (split id)

-- NewVMIDFromString
unfoldable pub new_vmid_from_string : String → Outcome Vmid
unfolding split_vmid_from_string new_vmid
new_vmid_from_string id = do v ← split_vmid_from_string id; new_vmid v.name v.namespace v.uid

-- String, and MarshalText
unfoldable pub to_string : Vmid → String
to_string v = v.namespace +++ String.◌∷◌ slash (v.name +++ String.◌∷◌ slash v.uid)

-- UnmarshalText: it overwrites all three fields
unfoldable pub unmarshal_text : String → Vmid → Outcome Vmid
unfolding split_vmid_from_string
unmarshal_text text v = do
  parts ← split_vmid_from_string text
  ok (record v { name = parts.name; namespace = parts.namespace; uid = parts.uid })

-- IsEmpty
unfoldable pub is_empty_vmid : Vmid → Bool
is_empty_vmid v = is_empty v.name && is_empty v.namespace

-- SetUID
abbrev pub set_uid : String → Vmid → Vmid
set_uid uid v = record v { uid = uid }

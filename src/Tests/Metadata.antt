-- ===== src/Tests/Metadata.antt =====
-- The instance's metadata with a small encoding.
use Prim.Native.String.{String}
use flintlock.Prelude.{
  ◌≡◌, refl, subst, false, [], ◌∷◌, some, is_empty, str_eq, eq_of-str_eq, str_eq-of_ne,
  if◌then◌else◌, Bool-cases, inl, inr,
}
use flintlock.Prelude.Dict.{Dict}
use flintlock.Outcome.{Outcome, ok, fail, external}
use flintlock.Models.Microvm.{Microvm, pending}
use flintlock.App.Commands.{InstanceEncoding, with_spec}
use flintlock.App.Commands.InstanceData.{RoundTrips}
use flintlock.Tests.Host.{microvm_with}

-- only the identifier can be written: a text that begins with "i" is that of an identifier
abbrev write : Dict String → Outcome String
write [] = fail (external 1)
write ((key, value) ∷ []) =
    if str_eq key "instance_id" then ok (String.◌∷◌ "i" value) else fail (external 1)
write (a ∷ b ∷ rest) = fail (external 1)

abbrev read : String → Outcome (Dict String)
read String.[] = fail (external 1)
read (String.◌∷◌ c value) = ok (("instance_id", value) ∷ [])

abbrev small : InstanceEncoding
small = record {
  decode_base64 = λ text. ok text;
  encode_base64 = λ text. text;
  unmarshal = read;
  marshal = write;
}

read-write : (m : Dict String) (text : String) → write m ≡ ok text → read text ≡ ok m
read-write [] text h = cc
read-write (a ∷ b ∷ rest) text h = cc
read-write ((key, value) ∷ []) text h = elim (Bool-cases (str_eq key "instance_id")) [
  | inl e ↦
      let same : String.◌∷◌ "i" value ≡ text = cc (rw e at h) in
      subst (λ t. read t ≡ ok ((key, value) ∷ [])) same (rw (eq_of-str_eq key "instance_id" e) refl)
  | inr e ↦ cc (rw e at h)
]

write-ne : (m : Dict String) (text : String) → write m ≡ ok text → is_empty text ≡ false
write-ne [] text h = cc
write-ne (a ∷ b ∷ rest) text h = cc
write-ne ((key, value) ∷ []) text h = elim (Bool-cases (str_eq key "instance_id")) [
  | inl e ↦
      let same : String.◌∷◌ "i" value ≡ text = cc (rw e at h) in
      subst (λ t. is_empty t ≡ false) same (str_eq-of_ne (String.◌∷◌ "i" value) "" (λ d. cc))
  | inr e ↦ cc (rw e at h)
]

small-RoundTrips : RoundTrips small
small-RoundTrips = record {
  decode_encode = λ text. refl;
  unmarshal_marshal = read-write;
  not_empty = write-ne;
}

abbrev vm : Microvm
vm = microvm_with pending 0 0 0

abbrev with_data : Microvm
with_data = with_spec (λ s. record s { metadata = some (("meta-data", "i01ABC") ∷ []) }) vm

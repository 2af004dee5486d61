-- ===== src/Models/Vmid/RoundTrip.antt =====
-- Printing an identifier of core/models/vmid.go and parsing it again.
use Prim.Native.Char.{Char}
use Prim.Native.String.{◌++◌ as ◌+++◌}
use text.Mathlib.TextEquality.{Char-path}
use text.Mathlib.TextLemmas.{nil-append, cons-append}
use flintlock.Prelude.{
  ◌≡◌, ◌≢◌, ◌↔◌, refl, sym, ap, ◌∙◌, true, false, String, List, [], ◌∷◌, inl, inr, arith, All,
  Bool-cases, eq_iff, is_empty,
}
use flintlock.Outcome.{ok, ◌>>=◌}
use flintlock.Models.Vmid.{
  Vmid, slash, is_slash, push_char, split, split_vmid_from_string, checked_parts, parts_to_vmid,
  new_vmid_from_string, new_vmid, to_string,
}

-- No character of the text is a slash.
abbrev pub NoSlash : String → Type 0
NoSlash String.[] = Unit
NoSlash (String.◌∷◌ c s) = (is_slash c ≡ false) × NoSlash s

-- The identifiers that have a printed form of their own.
pub record IsPrintable (v : Vmid) : Type 0 where
  pub namespace_set : v.namespace ≢ ""
  pub name_set : v.name ≢ ""
  pub uid_set : v.uid ≢ ""
  pub namespace_plain : NoSlash v.namespace
  pub name_plain : NoSlash v.name
  pub uid_plain : NoSlash v.uid

split-NoSlash : (p : String) → NoSlash p → split p ≡ p ∷ []
unfolding split
split-NoSlash String.[] h = refl
split-NoSlash (String.◌∷◌ c s) h = rw (h.0, split-NoSlash s h.1)

split-append : (p rest : String) → NoSlash p → split (p +++ String.◌∷◌ slash rest) ≡ p ∷ split rest
unfolding split
split-append String.[] rest h = rw nil-append refl
split-append (String.◌∷◌ c s) rest h = rw (cons-append, h.0, split-append s rest h.1)

pub is_empty-of_ne : (s : String) → s ≢ "" → is_empty s ≡ false
is_empty-of_ne s h = ground (arith, eq_iff s "")

pub split-to_string :
    (v : Vmid) → IsPrintable v → split (to_string v) ≡ v.namespace ∷ v.name ∷ v.uid ∷ []
unfolding to_string
split-to_string v h = rw (
  split-append v.namespace _ h.namespace_plain,
  split-append v.name _ h.name_plain,
  split-NoSlash v.uid h.uid_plain,
)

-- What is printed is parsed back to the same identifier.
pub from_string-to_string : (v : Vmid) → IsPrintable v → new_vmid_from_string (to_string v) ≡ ok v
unfolding new_vmid_from_string new_vmid
from_string-to_string v h =
    rw
      (
        split-to_string v h,
        is_empty-of_ne v.namespace h.namespace_set,
        is_empty-of_ne v.name h.name_set,
        is_empty-of_ne v.uid h.uid_set,
      )
      (ground (arith, is_empty-of_ne v.namespace h.namespace_set, is_empty-of_ne v.name h.name_set))

-- strings.Join(parts, "/")
join : List String → String
join [] = ""
join (p ∷ []) = p
join (p ∷ q ∷ r) = p +++ String.◌∷◌ slash (join (q ∷ r))

join-push_char :
    (c : Char) (parts : List String)
    → parts ≢ []
    → join (push_char c parts) ≡ String.◌∷◌ c (join parts)
unfolding join
join-push_char c [] h = absurd (h refl)
join-push_char c (p ∷ []) h = refl
join-push_char c (p ∷ q ∷ r) h = rw cons-append refl

push_char-ne-nil : (c : Char) (parts : List String) → push_char c parts ≢ []
push_char-ne-nil c [] h = cc
push_char-ne-nil c (p ∷ r) h = cc

split-ne-nil : (s : String) → split s ≢ []
unfolding split
split-ne-nil String.[] h = cc
split-ne-nil (String.◌∷◌ c s) h = elim (Bool-cases (is_slash c)) [
  | inl e ↦ cc (rw (e, split) at h)
  | inr e ↦ push_char-ne-nil c (split s) (rw (e, split) at h)
]

Char-of_slash : (c : Char) → is_slash c ≡ true → c ≡ slash
Char-of_slash c h = Char-path c slash (ground arith)

join-nil-cons :
    (parts : List String) → parts ≢ [] → join ("" ∷ parts) ≡ String.◌∷◌ slash (join parts)
unfolding join
join-nil-cons [] h = absurd (h refl)
join-nil-cons (p ∷ r) h = rw nil-append refl

join-split : (s : String) → join (split s) ≡ s
unfolding split
join-split String.[] = unfold join in refl
join-split (String.◌∷◌ c s) = elim (Bool-cases (is_slash c)) [
  | inl e ↦ rw e (rw (join-nil-cons (split s) (split-ne-nil s), join-split s, Char-of_slash c e))
  | inr e ↦ rw e (rw (join-push_char c (split s) (split-ne-nil s), join-split s))
]

All-push_char :
    (c : Char) (parts : List String)
    → is_slash c ≡ false
    → All NoSlash parts
    → All NoSlash (push_char c parts)
All-push_char c [] e h = ((e, tt), tt)
All-push_char c (p ∷ r) e h = ((e, h.0), h.1)

split-All-NoSlash : (s : String) → All NoSlash (split s)
unfolding split
split-All-NoSlash String.[] = (tt, tt)
split-All-NoSlash (String.◌∷◌ c s) = elim (Bool-cases (is_slash c)) [
  | inl e ↦ rw e (tt, split-All-NoSlash s)
  | inr e ↦ rw e (All-push_char c (split s) e (split-All-NoSlash s))
]

split_then_new :
    (s : String) (parts : List String) (v : Vmid)
    → (parts_to_vmid s parts >>= λ w. new_vmid w.name w.namespace w.uid) ≡ ok v
    → parts_to_vmid s parts ≡ ok v
unfolding new_vmid
split_then_new s [] v h = cc
split_then_new s (p ∷ []) v h = cc
split_then_new s (p ∷ q ∷ []) v h = cc
split_then_new s (p ∷ q ∷ r ∷ t ∷ u) v h = cc
split_then_new s (p ∷ q ∷ r ∷ []) v h = ground arith

checked_parts-eq-ok :
    (p q r : String) (v : Vmid)
    → checked_parts p q r ≡ ok v
    → NoSlash p
    → NoSlash q
    → NoSlash r
    → (p ∷ q ∷ r ∷ [] ≡ v.namespace ∷ v.name ∷ v.uid ∷ []) × IsPrintable v
checked_parts-eq-ok p q r v h hp hq hr = ground (arith, eq_iff p "", eq_iff q "", eq_iff r "")

-- The namespace is set, so that `new_vmid` keeps what was split off.
split-of_new :
    (s : String) (v : Vmid) → new_vmid_from_string s ≡ ok v → split_vmid_from_string s ≡ ok v
unfolding new_vmid_from_string split_vmid_from_string new_vmid
split-of_new s v h = split_then_new s (split s) v h

parts_to_vmid-eq-ok :
    (s : String) (parts : List String) (v : Vmid)
    → parts_to_vmid s parts ≡ ok v
    → All NoSlash parts
    → (parts ≡ v.namespace ∷ v.name ∷ v.uid ∷ []) × IsPrintable v
parts_to_vmid-eq-ok s [] v h a = cc
parts_to_vmid-eq-ok s (p ∷ []) v h a = cc
parts_to_vmid-eq-ok s (p ∷ q ∷ []) v h a = cc
parts_to_vmid-eq-ok s (p ∷ q ∷ r ∷ t ∷ u) v h a = cc
parts_to_vmid-eq-ok s (p ∷ q ∷ r ∷ []) v h a = checked_parts-eq-ok p q r v h a.0 a.1.0 a.1.1.0

-- A text that is accepted as an identifier is the printed form of the identifier that it gives,
-- whose three parts are neither empty nor contain a slash.
pub to_string-from_string :
    (s : String) (v : Vmid) → new_vmid_from_string s ≡ ok v → (to_string v ≡ s) × IsPrintable v
unfolding new_vmid_from_string to_string join
to_string-from_string s v h =
    let parsed : split_vmid_from_string s ≡ ok v = split-of_new s v h in
    let (e, printable) = parts_to_vmid-eq-ok s (split s) v parsed (split-All-NoSlash s) in
    (ap join (sym e) ∙ join-split s, printable)

-- Parsing the printed form of an identifier gives the identifier back exactly when its namespace,
-- name and uid are neither empty nor contain a slash.
pub round_trip_iff : (v : Vmid) → (new_vmid_from_string (to_string v) ≡ ok v) ↔ IsPrintable v
round_trip_iff v = (λ h. (to_string-from_string (to_string v) v h).1, from_string-to_string v)

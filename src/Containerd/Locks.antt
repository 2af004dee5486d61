-- ===== src/Containerd/Locks.antt =====
-- infrastructure/containerd/repo.go: the locks of the repository, one for each name. A mutex is known
-- by a number, its address, and `next` is the address of the next one that is allocated. Who holds a
-- lock is not followed.
use Prim.Native.String.{◌++◌ as ◌+++◌}
use text.Mathlib.TextLemmas.{nil-append, cons-append}
use flintlock.Prelude.{
  ◌≡◌, ◌≢◌, ◌⊎◌, subst, refl, sym, ap, ◌∙◌, ◌↔◌, ℕ, ◌+◌, ◌<◌, String, List, [], ◌∷◌, Option, none,
  some, arith, str_eq, eq_of-str_eq, Bool-cases, inl, inr, Option-cases,
}
use flintlock.Prelude.Dict.{Dict, lookup, insert, lookup-insert, lookup-insert_self}
use flintlock.Models.Vmid.{Vmid, slash, to_string}
use flintlock.Models.Microvm.{Microvm}
use flintlock.Ports.{RepositoryGetOptions}

pub record Locks : Type 0 where
  pub locks : Dict ℕ
  pub next : ℕ

-- NewMicroVMRepoWithClient
abbrev pub no_locks : Locks
no_locks = record { locks = []; next = 0 }

-- getMutex, with what the map has under the name
abbrev mutex_of : Option ℕ → String → Locks → ℕ × Locks
mutex_of (some named_mu) name l = (named_mu, l)
mutex_of none name l = (l.next, record { locks = insert name l.next l.locks; next = l.next + 1 })

-- getMutex
unfoldable pub get_mutex : String → Locks → ℕ × Locks
get_mutex name l = mutex_of (lookup name l.locks) name l

-- The mutexes that the operations lock: Save, ReleaseLease and Delete for writing, and Get and Exists
-- for reading.
abbrev pub save_mutex : Microvm → Locks → ℕ × Locks
save_mutex m = get_mutex (to_string m.id)

abbrev pub release_lease_mutex : Microvm → Locks → ℕ × Locks
release_lease_mutex m = get_mutex (to_string m.id)

abbrev pub delete_mutex : Microvm → Locks → ℕ × Locks
delete_mutex m = get_mutex (to_string m.id)

abbrev pub get_options_mutex : RepositoryGetOptions → Locks → ℕ × Locks
get_options_mutex options = get_mutex options.name

abbrev pub exists_mutex : Vmid → Locks → ℕ × Locks
exists_mutex vmid = get_mutex vmid.name

-- the locks after these names were asked for, one after the other
unfoldable pub get_mutexes : List String → Locks → Locks
unfolding get_mutex
get_mutexes [] l = l
get_mutexes (name ∷ names) l = get_mutexes names (get_mutex name l).1

-- Every mutex was allocated, and for one name.
pub record IsWell (l : Locks) : Type 0 where
  pub allocated : (name : String) (mu : ℕ) → lookup name l.locks ≡ some mu → mu < l.next
  pub own :
      (name other : String) (mu : ℕ)
      → lookup name l.locks ≡ some mu
      → lookup other l.locks ≡ some mu
      → name ≡ other

no_locks-IsWell : IsWell no_locks
unfolding lookup
no_locks-IsWell = record { allocated = λ name mu h. cc; own = λ name other mu h h'. cc }

some-injective : (a b : ℕ) → some a ≡ some b → a ≡ b
some-injective a b h = cc

module _ (name : String) (l : Locks) where
  get_mutex-lookup : lookup name (get_mutex name l).1.locks ≡ some (get_mutex name l).0
  unfolding get_mutex
  get_mutex-lookup = elim (Option-cases (lookup name l.locks)) [
    | inl new ↦ rw new (lookup-insert_self name l.next l.locks)
    | inr (mu, old) ↦ rw old old
  ]

  get_mutex-keeps :
      (other : String) (mu : ℕ)
      → lookup other l.locks ≡ some mu
      → lookup other (get_mutex name l).1.locks ≡ some mu
  unfolding get_mutex
  get_mutex-keeps other mu h = elim (Option-cases (lookup name l.locks)) [
    | inl new ↦
        rw new (ground (arith, lookup-insert name other l.next l.locks, eq_of-str_eq name other))
    | inr old ↦ rw old.1 h
  ]

  found_new :
      (other : String) (mu : ℕ)
      → lookup other (insert name l.next l.locks) ≡ some mu
      → ((name ≡ other) × (mu ≡ l.next)) ⊎ (lookup other l.locks ≡ some mu)
  found_new other mu h = elim (Bool-cases (str_eq name other)) [
    | inl same ↦ inl (
      eq_of-str_eq name other same,
      some-injective mu l.next (ground (arith, lookup-insert name other l.next l.locks)),
    )
    | inr differ ↦ inr (ground (arith, lookup-insert name other l.next l.locks))
  ]

  insert-own :
      IsWell l
      → (one other : String) (mu : ℕ)
      → ((name ≡ one) × (mu ≡ l.next)) ⊎ (lookup one l.locks ≡ some mu)
      → ((name ≡ other) × (mu ≡ l.next)) ⊎ (lookup other l.locks ≡ some mu)
      → one ≡ other
  insert-own well one other mu (inl a) (inl b) = sym a.0 ∙ b.0
  insert-own well one other mu (inl a) (inr b) =
      absurd (omega (arith, well.allocated other mu b, a.1))
  insert-own well one other mu (inr a) (inl b) =
      absurd (omega (arith, well.allocated one mu a, b.1))
  insert-own well one other mu (inr a) (inr b) = well.own one other mu a b

  insert-allocated :
      IsWell l
      → (other : String) (mu : ℕ)
      → ((name ≡ other) × (mu ≡ l.next)) ⊎ (lookup other l.locks ≡ some mu)
      → mu < l.next + 1
  insert-allocated well other mu (inl a) = omega (arith, a.1)
  insert-allocated well other mu (inr a) = omega (arith, well.allocated other mu a)

  get_mutex-IsWell : IsWell l → IsWell (get_mutex name l).1
  unfolding get_mutex
  get_mutex-IsWell well = elim (Option-cases (lookup name l.locks)) [
    | inl new ↦ rw new (record {
      allocated = λ other mu h. insert-allocated well other mu (found_new other mu h);
      own = λ one other mu h h'.
          insert-own well one other mu (found_new one mu h) (found_new other mu h');
    })
    | inr old ↦ rw old.1 well
  ]

get_mutexes-keeps :
    (names : List String) (l : Locks) (other : String) (mu : ℕ)
    → lookup other l.locks ≡ some mu
    → lookup other (get_mutexes names l).locks ≡ some mu
unfolding get_mutexes
get_mutexes-keeps [] l other mu h = h
get_mutexes-keeps (name ∷ names) l other mu h =
    get_mutexes-keeps names (get_mutex name l).1 other mu (get_mutex-keeps name l other mu h)

get_mutexes-IsWell : (names : List String) (l : Locks) → IsWell l → IsWell (get_mutexes names l)
unfolding get_mutexes
get_mutexes-IsWell [] l h = h
get_mutexes-IsWell (name ∷ names) l h =
    get_mutexes-IsWell names (get_mutex name l).1 (get_mutex-IsWell name l h)

-- Two calls of getMutex
pub get_mutex_iff :
    (before between : List String) (name other : String)
    → let first = get_mutex name (get_mutexes before no_locks) in
      ((get_mutex other (get_mutexes between first.1)).0 ≡ first.0) ↔ (name ≡ other)
get_mutex_iff before between name other =
    let l = get_mutexes before no_locks in
    let first = get_mutex name l in
    let then = get_mutexes between first.1 in
    let second = get_mutex other then in
    let well : IsWell second.1 = get_mutex-IsWell other then (
      get_mutexes-IsWell between first.1
        (get_mutex-IsWell name l (get_mutexes-IsWell before no_locks no_locks-IsWell))) in
    let kept : lookup name then.locks ≡ some first.0 =
      get_mutexes-keeps between first.1 name first.0 (get_mutex-lookup name l) in
    let still : lookup name second.1.locks ≡ some first.0 =
      get_mutex-keeps other then name first.0 kept in
    let found : lookup other second.1.locks ≡ some second.0 = get_mutex-lookup other then in
    (
      (λ e. well.own name other first.0 still (found ∙ ap some e)),
      (λ e.
          some-injective second.0 first.0
            (sym found ∙ subst (λ x. lookup x second.1.locks ≡ some first.0) e still)),
    )

-- the number of characters
unfoldable size : String → ℕ
size String.[] = 0
size (String.◌∷◌ c s) = size s + 1

size-append : (s t : String) → size (s +++ t) ≡ size s + size t
unfolding size
size-append String.[] t = rw nil-append (omega arith)
size-append (String.◌∷◌ c s) t = rw (cons-append, size) (omega (arith, size-append s t))

-- A printed identifier is longer than the name in it.
to_string-ne_name : (v : Vmid) → v.name ≢ to_string v
unfolding to_string size
to_string-ne_name v e = omega (
  arith,
  ap size e,
  size-append v.namespace (String.◌∷◌ slash (v.name +++ String.◌∷◌ slash v.uid)),
  size-append v.name (String.◌∷◌ slash v.uid),
)

-- Whatever mutexes were asked for before and in between, Save, Delete and ReleaseLease of a microvm
-- lock the same mutex, but Get with its name and Exists of its identifier lock another one: readers
-- and writers of one microvm do not exclude each other.
pub readers-NotExcluded :
    (before between : List String) (m : Microvm) (options : RepositoryGetOptions)
    → options.name ≡ m.id.name
    → let writer = save_mutex m (get_mutexes before no_locks) in
      ((get_options_mutex options (get_mutexes between writer.1)).0 ≢ writer.0)
      × ((exists_mutex m.id (get_mutexes between writer.1)).0 ≢ writer.0)
      × ((delete_mutex m (get_mutexes between writer.1)).0 ≡ writer.0)
      × ((release_lease_mutex m (get_mutexes between writer.1)).0 ≡ writer.0)
readers-NotExcluded before between m options e =
    let key = to_string m.id in
    (
      (λ h.
          to_string-ne_name m.id
            (sym e ∙ sym ((get_mutex_iff before between key options.name).0 h))),
      (λ h. to_string-ne_name m.id (sym ((get_mutex_iff before between key m.id.name).0 h))),
      (get_mutex_iff before between key key).1 refl,
      (get_mutex_iff before between key key).1 refl,
    )

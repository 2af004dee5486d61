-- ===== src/Network/Names/Free.antt =====
-- A name that is chosen for a new interface has its form, and no interface had it.
use Prim.Native.String.{◌++◌ as ◌+++◌}
use flintlock.Prelude.{
  ℕ, zero, suc, ◌≡◌, refl, ap, sym, ◌∙◌, String, Bool, true, false, inl, inr, if◌then◌else◌,
}
use flintlock.Outcome.{Error, ok, fail, >>=-eq-ok, ok-injective, iface_name_failed}
use flintlock.Io.{throw, lift, pure, branch-eq-ok, pure-eq-ok}
use flintlock.Models.Network.{IfaceType}
use flintlock.Network.Netlink.{Netlink}
use flintlock.Network.Names.{
  take_bytes, encode_to_string, device_prefix, generate_random_name, try_names, new_iface_name,
  iface_length, retry_generate, random_bytes_length,
}

abbrev pub text_length : String → ℕ
text_length String.[] = 0
text_length (String.◌∷◌ c s) = suc (text_length s)

take_bytes-length : (n : ℕ) (s t : String) → take_bytes n s ≡ ok t → text_length t ≡ n
unfolding take_bytes
take_bytes-length zero s t h = let e = ok-injective "" t h in rw (sym e) refl
take_bytes-length (suc n) String.[] t h = cc
take_bytes-length (suc n) (String.◌∷◌ c s) t h =
    let (rest, e, d) = >>=-eq-ok (take_bytes n s) (λ rest. ok (String.◌∷◌ c rest)) t h in
    let ih = take_bytes-length n s rest e in
    let e1 = ok-injective (String.◌∷◌ c rest) t d in rw (sym e1) (ap suc ih)

module _ {W N : Type 0} (netlink : Netlink W N) where
  -- The name is the prefix of the type and seven more characters, and the last thing done was to look
  -- for an interface of that name, which netlink did not find.
  pub record IsFree (dev_prefix name : String) (after : W) : Type 0 where
    pub suffix : String
    pub form : name ≡ dev_prefix +++ suffix
    pub suffix_length : text_length suffix ≡ iface_length
    pub before : W
    pub reason : Error
    pub looked_up : netlink.link_by_name name before ≡ (fail reason, after)
    pub not_found : netlink.says_not_found reason ≡ true

  generate_random_name-form :
      (dev_prefix name : String) (w u : W)
      → generate_random_name netlink dev_prefix w ≡ (ok name, u)
      → (suffix : String) × (name ≡ dev_prefix +++ suffix) × (text_length suffix ≡ iface_length)
  unfolding generate_random_name
  generate_random_name-form dev_prefix name w u h =
      elim (branch-eq-ok (netlink.read_random random_bytes_length) _ _ w u name h) [
        | inl (e, v, d, bad) ↦ cc
        | inr (id, v, d, rest) ↦
            elim (branch-eq-ok (lift (take_bytes iface_length (encode_to_string id))) _ _ v u name
              rest) [
                | inl (e, v, d, bad) ↦ cc
                | inr (suffix, v1, taken, last) ↦ (
                  suffix,
                  sym (pure-eq-ok (dev_prefix +++ suffix) name v1 u last).0,
                  take_bytes-length iface_length (encode_to_string id) suffix (λ i. (taken i).0),
                )
              ]
      ]

  try_names-IsFree :
      (n : ℕ) (dev_prefix name : String) (w u : W)
      → try_names netlink n dev_prefix w ≡ (ok name, u)
      → IsFree dev_prefix name u
  unfolding try_names
  try_names-IsFree zero dev_prefix name w u h = cc
  try_names-IsFree (suc n) dev_prefix name w u h =
      elim (branch-eq-ok (generate_random_name netlink dev_prefix) _ _ w u name h) [
        | inl (e, v, d, next) ↦ try_names-IsFree n dev_prefix name v u next
        | inr (drawn, v, d, looks) ↦
            elim (branch-eq-ok (netlink.link_by_name drawn) _ _ v u name looks) [
              | inr (link, v1, d1, next) ↦ try_names-IsFree n dev_prefix name v1 u next
              | inl (e, v1, d1, ends) ↦
                  chosen drawn e v v1 d1 d (netlink.says_not_found e) refl ends
            ]
      ]
    where
      chosen :
          (drawn : String) (e : Error) (v v1 : W)
          → netlink.link_by_name drawn v ≡ (fail e, v1)
          → generate_random_name netlink dev_prefix w ≡ (ok drawn, v)
          → (found : Bool) → netlink.says_not_found e ≡ found
          → (if found then pure drawn else throw iface_name_failed) v1 ≡ (ok name, u)
          → IsFree dev_prefix name u
      chosen drawn e v v1 d d1 false b ends = cc
      chosen drawn e v v1 d d1 true b ends =
          let (same, at) = pure-eq-ok drawn name v1 u ends in
          let (suffix, form, count) = generate_random_name-form dev_prefix drawn w v d1 in
          record {
            suffix = suffix;
            form = sym same ∙ form;
            suffix_length = count;
            before = v;
            reason = e;
            looked_up = rw (sym same, sym at) d;
            not_found = b;
          }

  -- A name that NewIfaceName gives is the prefix of the interface's type and seven more characters,
  -- and the last thing done was to look for an interface of that name, which netlink did not find.
  pub new_iface_name-IsFree :
      (type : IfaceType) (name : String) (w u : W)
      → new_iface_name netlink type w ≡ (ok name, u)
      → (dev_prefix : String) × (device_prefix type ≡ ok dev_prefix) × IsFree dev_prefix name u
  unfolding new_iface_name
  new_iface_name-IsFree type name w u h =
      elim (branch-eq-ok (lift (device_prefix type)) _ _ w u name h) [
        | inl (e, v, d, bad) ↦ cc
        | inr (dev_prefix, v, d, tried) ↦
            (dev_prefix, (λ i. (d i).0), try_names-IsFree retry_generate dev_prefix name v u tried)
      ]

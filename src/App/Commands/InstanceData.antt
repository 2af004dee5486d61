-- ===== src/App/Commands/InstanceData.antt =====
-- The identifier that addInstanceData of core/application/commands.go puts into the metadata.
use flintlock.Prelude.{
  ◌≡◌, refl, subst, String, false, some, is_empty, arith, Bool-cases, Option-cases, inl, inr,
}
use flintlock.Prelude.Dict.{Dict, lookup, insert, lookup-insert_self}
use flintlock.Outcome.{Outcome, ok, fail, panic, no_fuel}
use flintlock.Models.Microvm.{Microvm}
use flintlock.Steps.Status.{map_get}
use flintlock.App.Commands.{
  InstanceEncoding, add_instance_data, existing_data, set_instance_id, store_data, text_at,
  instance_data_key, instance_id_key,
}

-- Base64 and YAML give back what they were given, and what they give is not empty.
pub record RoundTrips (enc : InstanceEncoding) : Type 0 where
  pub decode_encode : (text : String) → enc.decode_base64 (enc.encode_base64 text) ≡ ok text
  pub unmarshal_marshal :
      (m : Dict String) (text : String) → enc.marshal m ≡ ok text → enc.unmarshal text ≡ ok m
  pub not_empty :
      (m : Dict String) (text : String)
      → enc.marshal m ≡ ok text
      → is_empty (enc.encode_base64 text) ≡ false

module _ (enc : InstanceEncoding) where
  store_data-eq-ok :
      (vm v : Microvm) (r : Outcome String)
      → store_data enc vm r ≡ ok v
      → (text : String) × (m : Dict String) × (r ≡ ok text)
        × (v.spec.metadata ≡ some (insert instance_data_key (enc.encode_base64 text) m))
  unfolding store_data
  store_data-eq-ok vm v (ok text) h = elim (Option-cases vm.spec.metadata) [
    | inl e ↦ cc (rw (e, store_data) at h)
    | inr (m, e) ↦ (text, m, refl, grind arith)
  ]
  store_data-eq-ok vm v (fail e) h = cc
  store_data-eq-ok vm v (panic f) h = cc
  store_data-eq-ok vm v no_fuel h = cc

  -- The data that is there has an identifier, so that nothing is added.
  add_instance_data-present :
      (v : Microvm) (m data_now : Dict String) (text uid : String)
      → v.spec.metadata ≡ some (insert instance_data_key (enc.encode_base64 text) m)
      → is_empty (enc.encode_base64 text) ≡ false
      → enc.decode_base64 (enc.encode_base64 text) ≡ ok text
      → enc.unmarshal text ≡ ok data_now
      → lookup instance_id_key data_now ≡ some uid
      → is_empty uid ≡ false
      → add_instance_data enc v ≡ ok v
  unfolding add_instance_data existing_data set_instance_id
  add_instance_data-present v m data_now text uid e n d u l i =
      rw (e, lookup-insert_self instance_data_key (enc.encode_base64 text) m, n, d, u, l, i) refl

module _ (enc : InstanceEncoding) (law : RoundTrips enc) where
  set_instance_id-idempotent :
      (vm v : Microvm) (found : Outcome (Dict String))
      → existing_data enc (text_at (map_get instance_data_key vm.spec.metadata)) ≡ found
      → is_empty vm.id.uid ≡ false
      → set_instance_id enc vm found ≡ ok v
      → add_instance_data enc v ≡ ok v
  unfolding set_instance_id add_instance_data
  set_instance_id-idempotent vm v (ok data_now) e n h =
      elim (Bool-cases (is_empty (text_at (lookup instance_id_key data_now)))) [
        | inl i ↦
            let (text, m, t, d) = store_data-eq-ok enc vm v _ (rw (i, set_instance_id) at h) in
            let next = insert instance_id_key vm.id.uid data_now in
            add_instance_data-present enc v m next text vm.id.uid d (law.not_empty next text t)
              (law.decode_encode text) (law.unmarshal_marshal next text t)
              (lookup-insert_self instance_id_key vm.id.uid data_now) n
        | inr i ↦
            let same : vm ≡ v = cc (rw (i, set_instance_id) at h) in
            subst (λ (x : Microvm). add_instance_data enc x ≡ ok x) same (rw (e, i) refl)
      ]
  set_instance_id-idempotent vm v (fail x) e n h = cc
  set_instance_id-idempotent vm v (panic x) e n h = cc
  set_instance_id-idempotent vm v no_fuel e n h = cc

  -- If addInstanceData succeeds on a microvm whose uid is not empty, then on its result it succeeds
  -- again and changes nothing, provided that base64 and YAML give back what they were given and
  -- encode nothing as the empty text.
  pub add_instance_data-idempotent :
      (vm v : Microvm)
      → is_empty vm.id.uid ≡ false
      → add_instance_data enc vm ≡ ok v
      → add_instance_data enc v ≡ ok v
  unfolding add_instance_data
  add_instance_data-idempotent vm v n h = set_instance_id-idempotent vm v _ refl n h

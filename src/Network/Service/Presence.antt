-- ===== src/Network/Service/Presence.antt =====
-- What is created is found, and what is deleted is not.
use flintlock.Prelude.{
  subst, ap, ◌≡◌, refl, sym, ◌∙◌, ◌⊎◌, String, Bool, true, false, inl, inr, Option, none, some,
  if◌then◌else◌, ◌&&◌,
}
use flintlock.Outcome.{Error, ok, fail, ok-injective, fail-injective}
use flintlock.Io.{bind-eq-ok, branch-eq-ok, pure-eq-ok, pure, lift, throw}
use flintlock.Models.Network.{IfaceType, is_tap}
use flintlock.Ports.{IfaceCreateInput, IfaceDetails}
use flintlock.Network.Netlink.{Netlink, Link}
use flintlock.Network.Service.{
  NetworkConfig, iface_create, iface_delete, iface_exists, get_iface, requested_link, add_link,
  parent_link, check_parent, get_parent_iface_name,
}

-- What netlink documents of its calls: a lookup only reads, it finds a link or fails with an error that
-- says more than the bare `LinkNotFoundError{}`; a link that is set up or given a master stays, and a
-- link that was deleted is not found.
pub record NetlinkLaws {W N : Type 0} (netlink : Netlink W N) : Type 0 where
  pub lookup :
      (name : String) (w : W)
      → ((link : Link N) × (netlink.link_by_name name w ≡ (ok link, w)))
        ⊎ ((e : Error) × (netlink.link_by_name name w ≡ (fail e, w))
            × (netlink.is_link_not_found e ≡ false))
  pub up_keeps :
      (name : String) (link other : Link N) (w u : W)
      → netlink.link_by_name name w ≡ (ok other, w)
      → netlink.link_set_up link w ≡ (ok tt, u)
      → (found : Link N) × (netlink.link_by_name name u ≡ (ok found, u))
  pub master_keeps :
      (name : String) (link other : Link N) (parent : Option (Link N)) (w u : W)
      → netlink.link_by_name name w ≡ (ok other, w)
      → netlink.link_set_master link parent w ≡ (ok tt, u)
      → (found : Link N) × (netlink.link_by_name name u ≡ (ok found, u))
  pub del_removes :
      (name : String) (link : Link N) (w u : W)
      → netlink.link_by_name name w ≡ (ok link, w)
      → netlink.link_del link w ≡ (ok tt, u)
      → (e : Error) × (netlink.link_by_name name u ≡ (fail e, u))
        × (netlink.is_link_not_found e ≡ false)

module _ {W N : Type 0} (netlink : Netlink W N) (laws : NetlinkLaws netlink) where
  exists-of_found :
      (name : String) (link : Link N) (w : W)
      → netlink.link_by_name name w ≡ (ok link, w)
      → iface_exists netlink name w ≡ (ok true, w)
  unfolding iface_exists get_iface
  exists-of_found name link w h = rw h refl

  not_exists-of_missing :
      (name : String) (e : Error) (w : W)
      → netlink.link_by_name name w ≡ (fail e, w)
      → netlink.is_link_not_found e ≡ false
      → iface_exists netlink name w ≡ (ok false, w)
  unfolding iface_exists get_iface
  not_exists-of_missing name e w h other = rw (h, other) refl

  requested_link-name :
      (input : IfaceCreateInput) (parent : Option (Link N)) (type : IfaceType) (link : Link N)
      → requested_link netlink input parent type ≡ ok link
      → link.attrs.name ≡ input.device_name
  unfolding requested_link
  requested_link-name input parent IfaceType.tap link h =
      λ i. (sym (ok-injective _ link h) i).attrs.name
  requested_link-name input none IfaceType.macvtap link h = cc
  requested_link-name input (some p) IfaceType.macvtap link h =
      λ i. (sym (ok-injective _ link h) i).attrs.name
  requested_link-name input parent IfaceType.unsupported link h = cc
  requested_link-name input parent (IfaceType.other_iface_type t) link h = cc

  kept_by_master :
      (b : Bool) (name : String) (created : Link N) (parent : Option (Link N)) (w u : W)
      → ((found : Link N) × (netlink.link_by_name name w ≡ (ok found, w)))
      → (if b then netlink.link_set_master created parent else pure tt) w ≡ (ok tt, u)
      → (found : Link N) × (netlink.link_by_name name u ≡ (ok found, u))
  kept_by_master true name created parent w u (found, here) h =
      laws.master_keeps name created found parent w u here h
  kept_by_master false name created parent w u (found, here) h =
      let (_, same) = pure-eq-ok tt tt w u h in
      (found, subst (λ v. netlink.link_by_name name v ≡ (ok found, v)) same here)

  add_link-found :
      (input : IfaceCreateInput) (parent : Option (Link N)) (link : Link N) (details : IfaceDetails)
      (w u : W)
      → add_link netlink input parent link w ≡ (ok details, u)
      → (details.device_name ≡ input.device_name)
        × ((found : Link N) × (netlink.link_by_name link.attrs.name u ≡ (ok found, u)))
  unfolding add_link
  add_link-found input parent link details w u h =
      let (t, w1, added, h1) = bind-eq-ok (netlink.link_add link) _ w u details h in
      let (created, w2, found, h2) =
        bind-eq-ok (netlink.link_by_name link.attrs.name) _ w1 u details h1 in
      let (t1, w3, up, h3) = bind-eq-ok (netlink.link_set_up created) _ w2 u details h2 in
      let (t2, w4, master, h4) =
        bind-eq-ok
          (if is_tap input.type && input.attach
            then netlink.link_set_master created parent
            else pure tt)
          _ w3 u details h3 in
      let (same, at) = pure-eq-ok _ details w4 u h4 in
      (
        (λ i. (sym same i).device_name),
        subst (λ v. (found : Link N) × (netlink.link_by_name link.attrs.name v ≡ (ok found, v))) at
            (kept_by_master (is_tap input.type && input.attach) link.attrs.name created parent w3 w4
              (laws.up_keeps link.attrs.name created created w2 w3
                (stays w1 w2 created link.attrs.name found) up)
              master),
      )
    where
      stays :
          (w1 w2 : W) (created : Link N) (name : String)
          → netlink.link_by_name name w1 ≡ (ok created, w2)
          → netlink.link_by_name name w2 ≡ (ok created, w2)
      stays w1 w2 created name found = elim (laws.lookup name w1) [
        | inl (link, here) ↦
            subst (λ v. netlink.link_by_name name v ≡ (ok created, w2))
              ((λ i. (sym here i).1) ∙ (λ i. (found i).1)) found
        | inr (e, here, other) ↦ cc
      ]

  -- An interface that was created is found under its name.
  pub iface_create-iface_exists :
      (config : NetworkConfig) (input : IfaceCreateInput) (details : IfaceDetails) (w u : W)
      → iface_create netlink config input w ≡ (ok details, u)
      → (details.device_name ≡ input.device_name)
        × (iface_exists netlink details.device_name u ≡ (ok true, u))
  unfolding iface_create
  iface_create-iface_exists config input details w u h =
      let name = get_parent_iface_name config input in
      let (t, w1, checked, h1) = bind-eq-ok (check_parent netlink name input) _ w u details h in
      let (parent, w2, looked, h2) = bind-eq-ok (parent_link netlink name) _ w1 u details h1 in
      let (link, w3, asked, h3) =
        bind-eq-ok (lift (requested_link netlink input parent input.type)) _ w2 u details h2 in
      let (named, (found, here)) = add_link-found input parent link details w3 u h3 in
      let same = requested_link-name input parent input.type link (λ i. (asked i).0) in
      (
        named,
        exists-of_found details.device_name found u
            (subst (λ n. netlink.link_by_name n u ≡ (ok found, u)) (same ∙ sym named) here),
      )

  -- An interface that was deleted is not found.
  pub iface_delete-iface_exists :
      (name : String) (w u : W)
      → iface_delete netlink name w ≡ (ok tt, u)
      → iface_exists netlink name u ≡ (ok false, u)
  unfolding iface_delete
  iface_delete-iface_exists name w u h =
      by_lookup (laws.lookup name w)
        (branch-eq-ok (netlink.link_by_name name) _ netlink.link_del w u tt h)
    where
      by_lookup :
          ((link : Link N) × (netlink.link_by_name name w ≡ (ok link, w)))
            ⊎ ((e : Error) × (netlink.link_by_name name w ≡ (fail e, w))
                × (netlink.is_link_not_found e ≡ false))
          → ((e : Error) × (v : W) × (netlink.link_by_name name w ≡ (fail e, v))
              × ((if netlink.is_link_not_found e then throw e else pure tt) v ≡ (ok tt, u)))
            ⊎ ((link : Link N) × (v : W) × (netlink.link_by_name name w ≡ (ok link, v))
                × (netlink.link_del link v ≡ (ok tt, u)))
          → iface_exists netlink name u ≡ (ok false, u)
      by_lookup (inr (e, missing, other)) (inl (e1, v, failed, ends)) =
          let known =
            ap netlink.is_link_not_found
              (fail-injective e1 e ((λ i. (sym failed i).0) ∙ (λ i. (missing i).0))) in
          let left =
            subst (λ b. (if b then throw e1 else pure tt) v ≡ (ok tt, u)) (known ∙ other) ends in
          let same =
            (λ i. (sym missing i).1) ∙ (λ i. (failed i).1) ∙ (pure-eq-ok tt tt v u left).1 in
          not_exists-of_missing name e u
            (subst (λ x. netlink.link_by_name name x ≡ (fail e, x)) same missing) other
      by_lookup (inr (e, missing, other)) (inr (link, v, found, ends)) = cc
      by_lookup (inl (link, here)) (inl (e1, v, failed, ends)) = cc
      by_lookup (inl (link, here)) (inr (link1, v, found, ends)) =
          let at_v : netlink.link_by_name name w ≡ (ok link1, w) = cc in
          let gone : netlink.link_del link1 w ≡ (ok tt, u) = cc in
          let (e, missing, other) = laws.del_removes name link1 w u at_v gone in
          not_exists-of_missing name e u missing other

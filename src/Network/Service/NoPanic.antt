-- ===== src/Network/Service/NoPanic.antt =====
-- Creating an interface never follows a nil pointer.
use flintlock.Prelude.{
  ◌≡◌, ◌≢◌, ap, subst, refl, arith, String, Bool, true, false, Option, none, some, ◌&&◌, Bool-cases,
  inl, inr, is_empty, if◌then◌else◌,
}
use flintlock.Outcome.{Outcome, ok, fail, panic, ok-injective, no_fuel, Fault}
use flintlock.Io.{Io, ◌>>=◌, pure, proceed, lift}
use flintlock.Models.Network.{IfaceType, is_tap, is_macvtap}
use flintlock.Ports.{IfaceCreateInput}
use flintlock.Network.Netlink.{Netlink, Link}
use flintlock.Network.Service.{
  NetworkConfig, iface_create, requested_link, add_link, parent_link, check_parent,
  get_parent_iface_name,
}

-- The action returns or gives an error.
abbrev pub NoPanic : {S A : Type 0} → Io S A → Type 0
NoPanic m = (s : _) (fault : Fault) → (m s).0 ≢ panic fault

module _ {S A B : Type 0} where
  proceed-NoPanic :
      (r : Outcome A) (f : A → Io S B) (s : S) (fault : Fault)
      → r ≢ panic fault
      → ((a : A) → (r ≡ ok a) → NoPanic (f a))
      → (proceed r f s).0 ≢ panic fault
  proceed-NoPanic (ok a) f s fault h k = k a refl s fault
  proceed-NoPanic (fail e) f s fault h k = λ e. cc
  proceed-NoPanic (panic p) f s fault h k = λ e. h (ap as_first e)
    where
      as_first : Outcome B → Outcome A
      as_first (panic q) = panic q
      as_first _ = no_fuel
  proceed-NoPanic no_fuel f s fault h k = λ e. cc

  bind-NoPanic :
      (m : Io S A) (f : A → Io S B)
      → NoPanic m
      → ((s : S) (a : A) → ((m s).0 ≡ ok a) → NoPanic (f a))
      → NoPanic (m >>= f)
  bind-NoPanic m f hm hf s fault =
      proceed-NoPanic (m s).0 f (m s).1 fault (hm s fault) λ a e. hf s a e

-- Netlink's own calls do not panic.
pub record IsCalm {W N : Type 0} (netlink : Netlink W N) : Type 0 where
  pub lookup_calm : (name : String) → NoPanic (netlink.link_by_name name)
  pub add_calm : (link : Link N) → NoPanic (netlink.link_add link)
  pub up_calm : (link : Link N) → NoPanic (netlink.link_set_up link)
  pub master_calm : (link parent : Link N) → NoPanic (netlink.link_set_master link (some parent))

module _ {W N : Type 0} (netlink : Netlink W N) (calm : IsCalm netlink) where
  pure-NoPanic : {A : Type 0} (a : A) → NoPanic {S = W} (pure a)
  pure-NoPanic a s fault e = cc

  -- The parent of an interface, once looked up, is there whenever the service reads it.
  abbrev IsGuarded : IfaceCreateInput → Option (Link N) → Type 0
  IsGuarded input none =
      (is_macvtap input.type ≡ false) × (is_tap input.type && input.attach ≡ false)
  IsGuarded input (some link) = Unit

  IsGuarded-check_parent :
      (name : String) (input : IfaceCreateInput) (s : W) (t : Unit {0})
      → (check_parent netlink name input s).0 ≡ ok t
      → is_empty name ≡ true
      → IsGuarded input none
  unfolding check_parent
  IsGuarded-check_parent name input s t h e = ground arith

  IsGuarded-parent_link :
      (name : String) (input : IfaceCreateInput) (s v : W) (t : Unit {0}) (parent : Option (Link N))
      → (check_parent netlink name input s).0 ≡ ok t
      → (parent_link netlink name v).0 ≡ ok parent
      → IsGuarded input parent
  unfolding parent_link
  IsGuarded-parent_link name input s v t (some link) h d = tt
  IsGuarded-parent_link name input s v t none h d = elim (Bool-cases (is_empty name)) [
    | inl e ↦ IsGuarded-check_parent name input s t h e
    | inr e ↦ absurd_lookup (netlink.link_by_name name v).0 (netlink.link_by_name name v).1 (
        subst
          (λ b.
            ((if b then pure none else netlink.link_by_name name >>= λ link. pure (some link)) v).0
            ≡ ok none)
          e d)
  ]
    where
      absurd_lookup :
          (r : Outcome (Link N)) (u : W)
          → (proceed r (λ link. pure (some link)) u).0 ≡ ok none
          → IsGuarded input none
      absurd_lookup (ok link) u h =
          let impossible : some link ≡ none = ok-injective (some link) none h in cc
      absurd_lookup (fail e) u h = cc
      absurd_lookup (panic e) u h = cc
      absurd_lookup no_fuel u h = cc

  requested_link-NoPanic :
      (input : IfaceCreateInput) (parent : Option (Link N))
      → IsGuarded input parent
      → NoPanic {S = W} (lift (requested_link netlink input parent input.type))
  unfolding requested_link
  requested_link-NoPanic input parent g s fault = known input.type parent g
    where
      known :
          (type : IfaceType) (parent : Option (Link N))
          → IsGuarded (record input { type = type }) parent
          → requested_link netlink input parent type ≢ panic fault
      known IfaceType.tap parent g = λ e. cc
      known IfaceType.macvtap none g = λ e. cc
      known IfaceType.macvtap (some link) g = λ e. cc
      known IfaceType.unsupported parent g = λ e. cc
      known (IfaceType.other_iface_type text) parent g = λ e. cc

  add_link-NoPanic :
      (input : IfaceCreateInput) (parent : Option (Link N)) (link : Link N)
      → IsGuarded input parent
      → NoPanic (add_link netlink input parent link)
  unfolding add_link
  add_link-NoPanic input parent link g = bind-NoPanic _ _ (calm.add_calm link) λ s t e.
      bind-NoPanic _ _ (calm.lookup_calm link.attrs.name) λ s created e.
        bind-NoPanic _ _ (calm.up_calm created)
          λ s t e. bind-NoPanic _ _ (attached created) λ s t e. pure-NoPanic _
    where
      with_parent :
          (b : Bool) (parent : Option (Link N)) (created : Link N)
          → (parent ≡ none → b ≡ false)
          → NoPanic (if b then netlink.link_set_master created parent else pure tt)
      with_parent false parent created h = pure-NoPanic tt
      with_parent true none created h = λ s fault e. cc (h refl)
      with_parent true (some p) created h = calm.master_calm created p

      guard :
          (parent : Option (Link N))
          → IsGuarded input parent
          → parent ≡ none
          → is_tap input.type && input.attach ≡ false
      guard none g e = g.1
      guard (some p) g e = cc

      attached :
          (created : Link N)
          → NoPanic (
              if is_tap input.type && input.attach
              then netlink.link_set_master created parent
              else pure tt)
      attached created =
          with_parent (is_tap input.type && input.attach) parent created (guard parent g)

  check_parent-NoPanic :
      (name : String) (input : IfaceCreateInput) → NoPanic (check_parent netlink name input)
  unfolding check_parent
  check_parent-NoPanic name input s fault = λ e. ground arith

  parent_link-NoPanic : (name : String) → NoPanic (parent_link netlink name)
  unfolding parent_link
  parent_link-NoPanic name = elim (Bool-cases (is_empty name)) [
    | inl e ↦ rw e (pure-NoPanic none)
    | inr e ↦ rw e (bind-NoPanic _ _ (calm.lookup_calm name) λ s link e. pure-NoPanic (some link))
  ]

  -- IfaceCreate does not panic: whenever it reads the link of the parent, to copy its attributes to
  -- a macvtap or to attach a tap to it, that link is not nil. The proviso is that netlink's own
  -- calls do not panic.
  pub iface_create-NoPanic :
      (config : NetworkConfig) (input : IfaceCreateInput) (w : W) (fault : Fault)
      → (iface_create netlink config input w).0 ≢ panic fault
  unfolding iface_create
  iface_create-NoPanic config input w fault =
      let name = get_parent_iface_name config input in
      (bind-NoPanic (check_parent netlink name input) _ (check_parent-NoPanic name input)
          λ s t checked.
            bind-NoPanic (parent_link netlink name) _ (parent_link-NoPanic name) λ v parent looked.
              let g = IsGuarded-parent_link name input s v t parent checked looked in
              bind-NoPanic _ _ (requested_link-NoPanic input parent g)
                λ u link asked. add_link-NoPanic input parent link g)
        w fault

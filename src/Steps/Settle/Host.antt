-- ===== src/Steps/Settle/Host.antt =====
-- Directories and interfaces are settled once.
use flintlock.Prelude.{
  ◌<◌, ℕ, ◌≡◌, refl, sym, subst, String, ap, Bool, true, false, if◌then◌else◌, Option, none, some,
  arith, is_empty, Bool-cases, inl, inr,
}
use flintlock.Prelude.Dict.{Dict, lookup-insert_self}
use flintlock.Outcome.{Outcome, ok}
use flintlock.Io.{pure, bind-eq-ok}
use flintlock.Ports.{Session, on_world, Collection, FileSystem, IfaceDetails}
use flintlock.Models.Network.{NetworkInterface, NetworkInterfaceStatus}
use flintlock.Steps.Status.{map_get, put_interface_status}
use flintlock.Steps.Runtime.{
  create_directory_should_do, create_directory_do, delete_directory_should_do, delete_directory_do,
}
use flintlock.Steps.Network.{
  create_interface_should_do, create_interface_do, ensure_host_name, record_details,
  create_interface_with, host_name, create_input, delete_interface_should_do, delete_interface_do,
}
use flintlock.Steps.Settle.{KeepsDirectories, HasInterfaces}
use text.Mathlib.TextPositions.{eq_refl}

module _ {W : Type 0} (fs : FileSystem W) (law : KeepsDirectories fs) where
  there_to_change :
      (dir : String) (mode : ℕ) (b : Bool) (s t u : Session W)
      → on_world (fs.dir_exists dir) s ≡ (ok b, t)
      → (if b then pure tt else on_world (fs.mkdir dir mode)) t ≡ (ok tt, u)
      → (fs.dir_exists dir u.world).0 ≡ ok true
  there_to_change dir mode true s t u e d = grind (arith, law.still_there)
  there_to_change dir mode false s t u e d = grind (arith, law.made)

  mode_settles :
      (dir : String) (mode : ℕ) (u t : Session W)
      → mode < 0o1000
      → (fs.dir_exists dir u.world).0 ≡ ok true
      → on_world (fs.chmod dir mode) u ≡ (ok tt, t)
      → (create_directory_should_do fs dir mode t).0 ≡ ok false
  unfolding create_directory_should_do
  mode_settles dir mode u t small there h =
      grind (arith, law.changed, eq_refl (fs.dir_mode_string mode))

  pub create_directory_settles :
      (dir : String) (mode : ℕ) (s t : Session W)
      → mode < 0o1000
      → create_directory_do fs dir mode s ≡ (ok tt, t)
      → (create_directory_should_do fs dir mode t).0 ≡ ok false
  unfolding create_directory_do
  create_directory_settles dir mode s t small h =
      let (b, s1, asked, h1) = bind-eq-ok (on_world (fs.dir_exists dir)) _ s t tt h in
      let (t2, s2, made, h2) =
        bind-eq-ok (if b then pure tt else on_world (fs.mkdir dir mode)) _ s1 t tt h1 in
      mode_settles dir mode s2 t small (there_to_change dir mode b s s1 s2 asked made) h2

  pub delete_directory_settles :
      (dir : String) (s t : Session W)
      → delete_directory_do fs dir s ≡ (ok tt, t)
      → (delete_directory_should_do fs dir t).0 ≡ ok false
  unfolding delete_directory_do delete_directory_should_do
  delete_directory_settles dir s t h = grind (arith, law.removed, law.still_gone)

module _ {W : Type 0} (ports : Collection W) (law : HasInterfaces ports) where
  ensure_named :
      (iface : NetworkInterface) (status : NetworkInterfaceStatus) (s u : Session W) (name : String)
      → ensure_host_name ports iface status s ≡ (ok name, u)
      → is_empty name ≡ false
  unfolding ensure_host_name put_interface_status
  ensure_named iface status s u name h = grind (arith, law.named)

  recorded :
      (iface : NetworkInterface) (name : String) (details : IfaceDetails)
      (m : Option (Dict NetworkInterfaceStatus)) (v t : Session W)
      → v.vm.status.network_interfaces ≡ m
      → record_details ports iface name details v ≡ (ok tt, t)
      → (host_name (map_get iface.guest_device_name t.vm.status.network_interfaces) ≡ name)
        × (t.world ≡ v.world)
  unfolding record_details put_interface_status
  recorded iface name details none v t e h = grind arith
  recorded iface name details (some m) v t e h = grind (arith, lookup-insert_self)

  there_now :
      (iface : NetworkInterface) (name : String) (b : Bool) (u v x : Session W)
      (details : IfaceDetails)
      → on_world (ports.network_service.iface_exists name) u ≡ (ok b, v)
      → (if b
            then on_world (ports.network_service.iface_details name)
            else on_world (ports.network_service.iface_create (create_input ports iface name)))
          v
        ≡ (ok details, x)
      → (ports.network_service.iface_exists name x.world).0 ≡ ok true
  unfolding create_input
  there_now iface name true u v x details e d = grind (arith, law.still_there)
  there_now iface name false u v x details e d =
      ground (arith, law.created (create_input ports iface name) v.world details)

  wanted_no_more :
      (iface : NetworkInterface) (name : String) (t : Session W)
      → host_name (map_get iface.guest_device_name t.vm.status.network_interfaces) ≡ name
      → is_empty name ≡ false
      → (ports.network_service.iface_exists name t.world).0 ≡ ok true
      → (create_interface_should_do ports iface t).0 ≡ ok false
  unfolding create_interface_should_do
  wanted_no_more iface name t e n h = grind arith

  details_settle :
      (iface : NetworkInterface) (name : String) (b : Bool) (u v x t : Session W)
      (details : IfaceDetails)
      → is_empty name ≡ false
      → on_world (ports.network_service.iface_exists name) u ≡ (ok b, v)
      → (if b
            then on_world (ports.network_service.iface_details name)
            else on_world (ports.network_service.iface_create (create_input ports iface name)))
          v
        ≡ (ok details, x)
      → record_details ports iface name details x ≡ (ok tt, t)
      → (create_interface_should_do ports iface t).0 ≡ ok false
  details_settle iface name b u v x t details named asked given stored =
      let (host, world) =
        recorded iface name details x.vm.status.network_interfaces x t refl stored in
      wanted_no_more iface name t host named (
        subst (λ (w : W). (ports.network_service.iface_exists name w).0 ≡ ok true) (sym world)
          (there_now iface name b u v x details asked given))

  with_status_settles :
      (iface : NetworkInterface) (status : Option NetworkInterfaceStatus) (s t : Session W)
      → create_interface_with ports iface status s ≡ (ok tt, t)
      → (create_interface_should_do ports iface t).0 ≡ ok false
  unfolding create_interface_with
  with_status_settles iface none s t h = cc (ap (λ (p : Outcome (Unit {0}) × Session W). p.0) h)
  with_status_settles iface (some status) s t h =
      let (name, u, named, h1) = bind-eq-ok (ensure_host_name ports iface status) _ s t tt h in
      let (b, v, asked, h2) =
        bind-eq-ok (on_world (ports.network_service.iface_exists name)) _ u t tt h1 in
      let (details, x, given, h3) =
        bind-eq-ok
          (if b
            then on_world (ports.network_service.iface_details name)
            else on_world (ports.network_service.iface_create (create_input ports iface name)))
          _ v t tt h2 in
      details_settle iface name b u v x t details (ensure_named iface status s u name named) asked
        given h3

  pub create_interface_settles :
      (iface : NetworkInterface) (s t : Session W)
      → create_interface_do ports iface s ≡ (ok tt, t)
      → (create_interface_should_do ports iface t).0 ≡ ok false
  unfolding create_interface_do
  create_interface_settles iface s t h = elim (Bool-cases (is_empty iface.guest_device_name)) [
    | inl e ↦ cc (rw e at h)
    | inr e ↦
        with_status_settles iface (map_get iface.guest_device_name s.vm.status.network_interfaces) s
          t (rw e at h)
  ]

  pub delete_interface_settles :
      (guest : String) (s t : Session W)
      → delete_interface_do ports guest s ≡ (ok tt, t)
      → (delete_interface_should_do ports guest t).0 ≡ ok false
  unfolding delete_interface_do delete_interface_should_do
  delete_interface_settles guest s t h = grind (arith, law.deleted, law.still_gone)

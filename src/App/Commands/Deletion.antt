-- ===== src/App/Commands/Deletion.antt =====
-- What core/application/commands.go writes to delete a microvm.
use flintlock.Prelude.{◌≡◌, refl, String, false, Option, none, some, is_empty, Bool-cases, inl, inr}
use flintlock.Outcome.{ok}
use flintlock.Io.{Gives, Gives-bind, Gives-self}
use flintlock.Ports.{Collection}
use flintlock.Models.Microvm.{Microvm, deleting}
use flintlock.App.Commands.{mark_deleted, delete_found, delete_microvm}

module _ {W : Type 0} (ports : Collection W) where
  -- The microvm that is stored is the one that was found, marked as deleted now, with no retries.
  pub record IsMarked (uid : String) (found stored : Microvm) : Type 0 where
    pub was_found :
        (w : W) × ((ports.repo.get
            (record { name = ""; namespace = ""; version = ""; uid = uid })
            w).0
          ≡ ok (some found))
    pub same_id : stored.id ≡ found.id
    pub is_deleting : stored.status.state ≡ deleting
    pub no_retries : stored.status.retry ≡ 0
    pub is_dated : (w : W) × ((ports.clock w).0 ≡ ok stored.spec.deleted_at)
    pub is_saved : (w : W) × (saved : Microvm) × ((ports.repo.save stored w).0 ≡ ok saved)

  marked :
      (uid : String) (found : Option Microvm)
      → ((w : W) × ((ports.repo.get
              (record { name = ""; namespace = ""; version = ""; uid = uid })
              w).0
            ≡ ok found))
      → Gives
          (λ u. (f : Microvm) × (stored : Microvm) × IsMarked uid f stored)
          (delete_found ports uid found)
  unfolding delete_found
  marked uid none e = record { gives = λ s u h. cc }
  marked uid (some found) e =
      Gives-bind (λ now. (w : W) × ((ports.clock w).0 ≡ ok now)) ports.clock _
        (Gives-self ports.clock)
        λ now dated.
          Gives-bind
            (λ saved. (w : W) × ((ports.repo.save (mark_deleted now found) w).0 ≡ ok saved))
            (ports.repo.save (mark_deleted now found)) _ (Gives-self _)
            λ saved (w, h). record {
              gives = λ s u d. (
                found,
                mark_deleted now found,
                record {
                  was_found = e;
                  same_id = refl;
                  is_deleting = refl;
                  no_retries = refl;
                  is_dated = dated;
                  is_saved = (w, saved, h);
                },
              );
            }

  -- DeleteMicroVM succeeds only if the identifier is not empty and it has found a microvm with it,
  -- and has saved that one again under the same identity, marked as deleted at the time of the
  -- clock, in the state deleting and with no retries.
  pub delete_microvm-IsMarked :
      (uid : String) (w : W)
      → (delete_microvm ports uid w).0 ≡ ok tt
      → (is_empty uid ≡ false)
        × ((found : Microvm) × (stored : Microvm) × IsMarked uid found stored)
  unfolding delete_microvm
  delete_microvm-IsMarked uid w h = elim (Bool-cases (is_empty uid)) [
    | inl e ↦ cc (rw (e, delete_microvm) at h)
    | inr e ↦
        let get = ports.repo.get (record { name = ""; namespace = ""; version = ""; uid = uid }) in
        (
          e,
          (Gives-bind (λ found. (u : W) × ((get u).0 ≡ ok found)) get (delete_found ports uid)
                (Gives-self get) (marked uid)).gives
              w tt (rw (e, delete_microvm) at h),
        )
  ]

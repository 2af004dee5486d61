-- ===== src/App/Query.antt =====
-- core/application/query.go
use flintlock.Prelude.{String, List, Option, none, some, is_empty, if◌then◌else◌}
use flintlock.Outcome.{app_uid_required, spec_not_found}
use flintlock.Io.{Io, ◌>>=◌, pure, throw}
use flintlock.Ports.{Collection}
use flintlock.Models.Microvm.{Microvm, ListMicrovmQuery}

module _ {W : Type 0} (ports : Collection W) where
  found_or_error : String → Option Microvm → Io W Microvm
  found_or_error uid none = throw (spec_not_found "" "" uid)
  found_or_error uid (some found) = pure found

  -- GetMicroVM
  unfoldable pub get_microvm : String → Io W Microvm
  unfolding found_or_error
  get_microvm uid = if is_empty uid then throw app_uid_required else (do
    found ← ports.repo.get (record { name = ""; namespace = ""; version = ""; uid = uid })
    found_or_error uid found)

  -- GetAllMicroVM: a nil list is answered as an empty one
  unfoldable pub get_all_microvm : ListMicrovmQuery → Io W (List Microvm)
  get_all_microvm query = ports.repo.get_all query

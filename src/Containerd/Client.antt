-- ===== src/Containerd/Client.antt =====
-- What infrastructure/containerd uses of the containerd client, as operations on a world `W`, in the
-- containerd namespace of the configuration. `Writer` is the type of an open content writer.
use flintlock.Prelude.{String, List}
use flintlock.Prelude.Dict.{Dict}
use flintlock.Outcome.{Outcome}
use flintlock.Io.{Io}
use flintlock.Models.Microvm.{Microvm, MicrovmSpec, MicrovmStatus}

-- content.Info; a nil map of labels reads like an empty one.
pub record Info : Type 0 where
  pub digest : String
  pub labels : Dict String

-- `walk filter` gives what `Walk` visits, in its order: the callers' callbacks only collect. A writer is
-- opened under a lease and a reference.
pub record ContentStore (W Writer : Type 0) : Type 0 where
  pub walk : String → Io W (List Info)
  pub delete : String → Io W (Unit {0})
  pub read_blob : String → Io W String
  pub open_writer : String → String → Io W Writer
  pub write : Writer → String → Io W (Unit {0})
  pub commit : Writer → Dict String → Io W (Unit {0})

-- The lease manager: leases are known by their identifiers.
pub record LeaseManager (W : Type 0) : Type 0 where
  pub list_leases : String → Io W (List String)
  pub create_lease : String → Io W String
  pub delete_lease : String → Io W (Unit {0})

-- json.Marshal and json.Unmarshal of a microvm, and cmp.Diff, which gives the empty text for equal values
pub record Codec : Type 0 where
  pub marshal : Microvm → Outcome String
  pub unmarshal : String → Outcome Microvm
  pub spec_diff : MicrovmSpec → MicrovmSpec → String
  pub status_diff : MicrovmStatus → MicrovmStatus → String

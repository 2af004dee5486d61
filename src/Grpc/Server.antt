-- ===== src/Grpc/Server.antt =====
-- infrastructure/grpc/server.go, over the use cases of core/application.
use flintlock.Prelude.{String, List, [], ◌∷◌, map, Option, none, some, is_empty, if◌then◌else◌}
use flintlock.Prelude.Int.{pos, int32}
use flintlock.Outcome.{invalid_argument}
use flintlock.Io.{Io, ◌>>=◌, ◌>>◌, pure, throw, lift}
use flintlock.Models.Microvm.{Microvm, ListMicrovmQuery}
use flintlock.Grpc.Wire
use flintlock.Grpc.Sanitize.{sanitize_microvm_image_references}
use flintlock.Grpc.Convert.{
  convert_microvm_to_model, convert_model_to_microvm_spec, convert_model_to_microvm_status,
}

-- the message about a microvm
unfoldable pub to_message : Microvm → Wire.Microvm
unfolding convert_model_to_microvm_spec convert_model_to_microvm_status
to_message mvm = record {
  version = int32 (pos mvm.version);
  spec = convert_model_to_microvm_spec mvm;
  status = convert_model_to_microvm_status mvm;
}

pub record ListMicrovmsRequest : Type 0 where
  pub namespace : String
  pub name : Option String

module _ {W : Type 0} (create_uc : Option Microvm → Io W Microvm) where
  -- CreateMicroVM, of the request's microvm, which is nil also where the request is
  unfoldable pub create_microvm : Option Wire.MicrovmSpec → Io W Wire.Microvm
  unfolding to_message
  create_microvm none = throw invalid_argument
  create_microvm (some microvm) = do
    model_spec ← lift (convert_microvm_to_model (sanitize_microvm_image_references microvm))
    created ← create_uc (some model_spec)
    pure (to_message created)

-- DeleteMicroVM, of the request's uid, which is empty also where the request is nil
unfoldable pub delete_microvm : {W : Type 0} → (String → Io W (Unit {0})) → String → Io W (Unit {0})
delete_microvm delete_uc uid = if is_empty uid then throw invalid_argument else delete_uc uid

module _ {W : Type 0} (get_uc : String → Io W Microvm) where
  -- GetMicroVM, likewise
  unfoldable pub get_microvm : String → Io W Wire.Microvm
  unfolding to_message
  get_microvm uid =
      if is_empty uid
      then throw invalid_argument
      else (do found ← get_uc uid; pure (to_message found))

module _ {W : Type 0} (get_all_uc : ListMicrovmQuery → Io W (List Microvm)) where
  abbrev query_of : ListMicrovmsRequest → ListMicrovmQuery
  query_of req =
      ("namespace", req.namespace) ∷ elim req.name [ none ↦ [] | some name ↦ ("name", name) ∷ [] ]

  -- ListMicroVMs
  unfoldable pub list_microvms : Option ListMicrovmsRequest → Io W (List Wire.Microvm)
  unfolding to_message
  list_microvms none = throw invalid_argument
  list_microvms (some req) = do found ← get_all_uc (query_of req); pure (map to_message found)

  module _ (send : Wire.Microvm → Io W (Unit {0})) where
    -- the loop of ListMicroVMsStream
    unfoldable pub send_all : List Microvm → Io W (Unit {0})
    unfolding to_message
    send_all [] = pure tt
    send_all (mvm ∷ rest) = let next = send_all rest in do send (to_message mvm); next

    stream_in : String → Io W (Unit {0})
    unfolding send_all
    stream_in namespace =
        if is_empty namespace
        then throw invalid_argument
        else (do found ← get_all_uc (("namespace", namespace) ∷ []); send_all found)

    -- ListMicroVMsStream
    unfoldable pub list_microvms_stream : Option ListMicrovmsRequest → Io W (Unit {0})
    unfolding stream_in
    list_microvms_stream none = throw invalid_argument
    list_microvms_stream (some req) = stream_in req.namespace

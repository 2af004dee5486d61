-- ===== src/Containerd/Events.antt =====
-- infrastructure/containerd/event_service.go: the subscription to containerd's events. `Any` is the
-- type of an event as containerd carries it, and `unmarshal_any` is typeurl.UnmarshalAny.
pub mod Delivered
use Prim.Native.String.{◌++◌ as ◌+++◌}
use flintlock.Prelude.{ℕ, String, List, [], ◌∷◌, ◌++◌, map, Option, none, some}
use flintlock.Outcome.{Outcome, Error, ok, fail, panic, no_fuel}
use flintlock.Io.{Io}
use flintlock.Ports.{Event, EventEnvelope}
use flintlock.Controller.Listening.{Message, envelope, error, closed}

-- events.Envelope
pub record CtrEnvelope (Any : Type 0) : Type 0 where
  pub timestamp : ℕ
  pub namespace : String
  pub topic : String
  pub event : Any

-- Publish, over the event service of containerd's client
abbrev pub publish :
    {W : Type 0} → (String → Event → Io W (Unit {0})) → String → Event → Io W (Unit {0})
publish ctr_publish topic event_to_publish = ctr_publish topic event_to_publish

-- topicFilter
abbrev pub topic_filter : String → String
topic_filter topic = "topic==\"" +++ topic +++ "\""

-- The filters that SubscribeTopic, SubscribeTopics and Subscribe give to containerd's client.
abbrev pub subscribe_topic : String → List String
subscribe_topic topic = topic_filter topic ∷ []

abbrev pub subscribe_topics : List String → List String
subscribe_topics = map topic_filter

abbrev pub subscribe : List String
subscribe = []

-- What the select of the subscription receives: the end of the context, with its error if that is
-- not the cancellation; an event, which can be a nil pointer; an error.
pub data Received (Any : Type 0) : Type 0 where
  context_done : Option Error → Received Any
  ctr_event : Option (CtrEnvelope Any) → Received Any
  ctr_error : Error → Received Any

module _ {Any : Type 0} (unmarshal_any : Any → Outcome Event) where
  with_event : CtrEnvelope Any → Outcome Event → Outcome (Option EventEnvelope)
  with_event evt (ok v) = ok (
      some (record {
        timestamp = evt.timestamp;
        namespace = evt.namespace;
        topic = evt.topic;
        event = v;
      }))
  with_event evt (fail e) = fail e
  with_event evt (panic f) = panic f
  with_event evt no_fuel = no_fuel

  -- convertCtrEventEnvelope
  unfoldable pub convert_ctr_event_envelope :
      Option (CtrEnvelope Any) → Outcome (Option EventEnvelope)
  unfolding with_event
  convert_ctr_event_envelope none = ok none
  convert_ctr_event_envelope (some evt) = with_event evt (unmarshal_any evt.event)

  -- What is sent for one event: the error, if there is one, and then the envelope, which is nil
  -- after an error.
  unfoldable pub sent_for : Outcome (Option EventEnvelope) → List Message
  sent_for (ok converted) = envelope converted ∷ []
  sent_for (fail e) = error e ∷ envelope none ∷ []
  sent_for _ = []

  -- the loop of subscribe, over what it receives: the messages on its two channels
  unfoldable pub forward : List (Received Any) → List Message
  unfolding convert_ctr_event_envelope sent_for
  forward [] = []
  forward (context_done none ∷ rest) = closed ∷ []
  forward (context_done (some cerr) ∷ rest) = error cerr ∷ closed ∷ []
  forward (ctr_event evt ∷ rest) = sent_for (convert_ctr_event_envelope evt) ++ forward rest
  forward (ctr_error e ∷ rest) = error e ∷ forward rest

-- ===== src/Controller/Listening.antt =====
-- infrastructure/controllers/microvm_controller.go: what the event listener does with the messages of
-- a subscription, when it chooses no other branch of its select in between.
use flintlock.Prelude.{
  ◌≡◌, refl, Bool-cases, inl, inr, is_empty, String, List, [], ◌∷◌, Option, none, some,
}
use flintlock.Outcome.{Outcome, Error, ok, fail, panic, no_fuel, nil_dereference}
use flintlock.Io.{Io}
use flintlock.Queue.{Queue}
use flintlock.Models.Vmid.{new_vmid}
use flintlock.Ports.{Event, EventEnvelope, spec_created, spec_updated, spec_deleted, other_event}
use flintlock.Controller.{handle_event, enqueue_event, enqueue_vmid}

-- A message on one of the two channels: an envelope, which can be a nil pointer; an error; or the end
-- of the channel of events, from which a receive then gives a nil pointer.
pub data Message : Type 0 where
  envelope : Option EventEnvelope → Message
  error : Error → Message
  closed : Message

-- handleEvent, which reads the event through its pointer
unfoldable pub handle_envelope : Option EventEnvelope → Io (Queue String) (Unit {0})
handle_envelope none q = (panic nil_dereference, q)
handle_envelope (some e) q = handle_event e.event q

-- An error is logged, and the loop goes on.
resume :
    Outcome (Unit {0}) × Queue String
    → Io (Queue String) (Unit {0})
    → Outcome (Unit {0}) × Queue String
resume (ok u, q) rest = rest q
resume (fail e, q) rest = rest q
resume (panic f, q) rest = (panic f, q)
resume (no_fuel, q) rest = (no_fuel, q)

-- runEventListener over the messages that it receives
unfoldable pub listen : List Message → Io (Queue String) (Unit {0})
unfolding handle_envelope resume
listen [] q = (ok tt, q)
listen (envelope e ∷ rest) q = resume (handle_envelope e q) (listen rest)
listen (error e ∷ rest) q = listen rest q
listen (closed ∷ rest) q = resume (handle_envelope none q) (listen rest)

-- the listener goes on after the outcome of an identifier that was made of an event
enqueue_vmid-resume :
    (name namespace uid : String) (q : Queue String) (rest : Io (Queue String) (Unit {0}))
    → resume (enqueue_vmid (new_vmid name namespace uid) q) rest
      ≡ rest (enqueue_vmid (new_vmid name namespace uid) q).1
unfolding resume enqueue_vmid new_vmid
enqueue_vmid-resume name namespace uid q rest = elim (Bool-cases (is_empty name)) [
  | inl e ↦ rw e refl
  | inr e ↦ rw e refl
]

handle_event-resume :
    (e : Event) (q : Queue String) (rest : Io (Queue String) (Unit {0}))
    → resume (handle_event e q) rest ≡ rest (handle_event e q).1
unfolding handle_event enqueue_event resume
handle_event-resume (spec_created e) q rest = enqueue_vmid-resume e.id e.namespace e.uid q rest
handle_event-resume (spec_updated e) q rest = enqueue_vmid-resume e.id e.namespace e.uid q rest
handle_event-resume (spec_deleted e) q rest = refl
handle_event-resume other_event q rest = refl

-- Whatever the event, the listener handles it and goes on.
pub listen-event :
    (e : EventEnvelope) (rest : List Message) (q : Queue String)
    → listen (envelope (some e) ∷ rest) q ≡ listen rest (handle_event e.event q).1
unfolding listen handle_envelope
listen-event e rest q = handle_event-resume e.event q (listen rest)

-- A nil envelope is the end.
pub listen-nil :
    (rest : List Message) (q : Queue String)
    → listen (envelope none ∷ rest) q ≡ (panic nil_dereference, q)
unfolding listen handle_envelope resume
listen-nil rest q = refl

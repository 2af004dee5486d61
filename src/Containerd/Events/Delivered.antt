-- ===== src/Containerd/Events/Delivered.antt =====
-- infrastructure/containerd/event_service.go and the controller: containerd's events on their way to
-- the queue.
use mathlib.Core.List.{append-nil}
use flintlock.Prelude.{◌≡◌, refl, ◌∙◌, subst, String, List, [], ◌∷◌, ◌++◌, some}
use flintlock.Outcome.{Outcome, Error, ok, fail, panic, nil_dereference}
use flintlock.Queue.{Queue}
use flintlock.Ports.{Event}
use flintlock.Controller.{handle_event}
use flintlock.Controller.Listening.{listen, listen-event, listen-nil}
use flintlock.Containerd.Events.{
  CtrEnvelope, Received, ctr_event, convert_ctr_event_envelope, with_event, sent_for, forward,
}

-- handleEvent for each event in turn, whether it gives an error or not
abbrev pub handle_all : List Event → Queue String → Queue String
handle_all [] q = q
handle_all (e ∷ events) q = handle_all events (handle_event e q).1

-- The subscription receives these events.
abbrev pub received : {Any : Type 0} → List (CtrEnvelope Any) → List (Received Any)
received [] = []
received (c ∷ cs) = ctr_event (some c) ∷ received cs

module _ {Any : Type 0} (unmarshal_any : Any → Outcome Event) where
  -- Each of the events can be unmarshalled, and gives this one.
  abbrev pub Decodes : List (CtrEnvelope Any) → List Event → Type 0
  Decodes [] [] = Unit
  Decodes (c ∷ cs) (e ∷ es) = (unmarshal_any c.event ≡ ok e) × Decodes cs es
  Decodes _ _ = ⊥

  listen-good :
      (cs : List (CtrEnvelope Any)) (es : List Event) (rest : List (Received Any))
      (q : Queue String)
      → Decodes cs es
      → listen (forward unmarshal_any (received cs ++ rest)) q
        ≡ listen (forward unmarshal_any rest) (handle_all es q)
  unfolding forward convert_ctr_event_envelope with_event sent_for
  listen-good [] [] rest q d = refl
  listen-good [] (e ∷ es) rest q d = elim d [ ]
  listen-good (c ∷ cs) [] rest q d = elim d [ ]
  listen-good (c ∷ cs) (e ∷ es) rest q d =
      rw (d.0, listen-event) (listen-good cs es rest (handle_event e q).1 d.1)

  listen-bad :
      (c : CtrEnvelope Any) (x : Error) (rest : List (Received Any)) (q : Queue String)
      → unmarshal_any c.event ≡ fail x
      → listen (forward unmarshal_any (ctr_event (some c) ∷ rest)) q ≡ (panic nil_dereference, q)
  unfolding forward convert_ctr_event_envelope with_event sent_for listen
  listen-bad c x rest q h = rw h (listen-nil (forward unmarshal_any rest) q)

  -- From containerd through the subscription and the listener to the queue: as long as each event
  -- can be unmarshalled, the listener handles all of them in their order and goes on; the first
  -- that cannot be unmarshalled makes the subscription send an error and then a nil envelope, on
  -- which the listener panics, whatever would follow.
  pub forward-listen :
      (cs : List (CtrEnvelope Any)) (es : List Event) (bad : CtrEnvelope Any) (x : Error)
      (rest : List (Received Any)) (q : Queue String)
      → Decodes cs es
      → unmarshal_any bad.event ≡ fail x
      → (listen (forward unmarshal_any (received cs)) q ≡ (ok tt, handle_all es q))
        × (listen (forward unmarshal_any (received cs ++ ctr_event (some bad) ∷ rest)) q
            ≡ (panic nil_dereference, handle_all es q))
  unfolding forward listen
  forward-listen cs es bad x rest q d h = (
    subst (λ l. listen (forward unmarshal_any l) q ≡ (ok tt, handle_all es q))
        (append-nil (received cs)) (listen-good cs es [] q d),
    listen-good cs es (ctr_event (some bad) ∷ rest) q d ∙ listen-bad bad x rest (handle_all es q) h,
  )

-- ===== src/Controller/Running/Invariants.antt =====
-- infrastructure/controllers/microvm_controller.go: the queue and the workers in every state of Run.
use native.Mathlib.Decide.{ℕ_discrete}
use flintlock.Prelude.{
  ◌≡◌, ◌≢◌, refl, sym, subst, ◌∙◌, ℕ, String, true, List, [], ◌∷◌, arith, inl, inr, str_eq,
  str_eq-sym,
}
use flintlock.Prelude.Family.{update, update-same, update-other}
use flintlock.Queue.{Queue, enqueue, shutdown, new_simple_sync_queue}
use flintlock.Queue.Laws.{IsDistinct, enqueue-IsDistinct}
use flintlock.Models.Vmid.{to_string}
use flintlock.Models.Microvm.{Microvm}
use flintlock.Controller.{enqueue_id}
use flintlock.Controller.Running.Moves.{
  MaybePut, handle_event-MaybePut, dequeue-item, dequeue-closed, enqueue-shut,
}
use flintlock.Controller.Running.{
  Worker, idle, finished, reconciling, Listener, Running, Act, initial, Step, cancel, close_channel,
  shut, start_next, start_done, event, nil_event, tick, resync_next, resync_done, return_listener,
  take, skip, close, succeed, retry, Run, here, next,
}

-- No identifier is queued twice; a queue that is shut down is so because the context is done; and a
-- worker that has ended has left nothing in a queue that is shut down.
pub record IsSound (s : Running) : Type 0 where
  pub distinct : IsDistinct str_eq s.queue.items
  pub shut_late : s.queue.shutting_down ≡ true → s.is_cancelled ≡ true
  pub drained :
      (i : ℕ) → s.worker i ≡ finished → (s.queue.shutting_down ≡ true) × (s.queue.items ≡ [])

enqueue-down : (id : String) (q : Queue String) → (enqueue_id id q).shutting_down ≡ q.shutting_down
unfolding enqueue
enqueue-down id q = ground arith

-- A worker that has ended after another moved had ended before.
not_ended :
    (w : ℕ → Worker) (i : ℕ) (x : Worker)
    → x ≢ finished
    → (j : ℕ) → update w i x j ≡ finished
    → w j ≡ finished
not_ended w i x h j f = elim (ℕ_discrete i j) [
  | yes e ↦ absurd (h (sym (update-same w j x) ∙ subst (λ k. update w k x j ≡ finished) e f))
  | no e ↦ sym (update-other w i j x e) ∙ f
]

module _ {s : Running} (sound : IsSound s) where
  -- the queue gets an identifier, or not, and no worker moves
  put :
      (q : Queue String) (l : Listener)
      → MaybePut s.queue q
      → IsSound (record s { queue = q; listener = l })
  put q l (inl e) =
      rw e
        (record { distinct = sound.distinct; shut_late = sound.shut_late; drained = sound.drained })
  put q l (inr (id, e)) = rw e (record {
    distinct = enqueue-IsDistinct str_eq str_eq-sym id s.queue sound.distinct;
    shut_late = λ h. sound.shut_late (sym (enqueue-down id s.queue) ∙ h);
    drained = λ i f.
        subst (λ (x : Queue String). (x.shutting_down ≡ true) × (x.items ≡ []))
          (sym (enqueue-shut id s.queue (sound.drained i f).0)) (sound.drained i f);
  })

  -- an idle worker takes an item; a worker that has ended shows that there is none
  took :
      (q : Queue String) (id : String) (w : ℕ → Worker)
      → s.queue.items ≡ id ∷ q.items
      → q.shutting_down ≡ s.queue.shutting_down
      → ((j : ℕ) → w j ≡ finished → s.worker j ≡ finished)
      → IsSound (record s { queue = q; worker = w })
  took q id w e d old = record {
    distinct = (subst (IsDistinct str_eq) e sound.distinct).1;
    shut_late = λ h. sound.shut_late (sym d ∙ h);
    drained = λ j f. let ended = sound.drained j (old j f) in cc;
  }

  -- a worker becomes idle and puts an identifier back, or not
  rested :
      (q : Queue String) (i : ℕ)
      → MaybePut s.queue q
      → IsSound (record s { queue = q; worker = update s.worker i idle })
  rested q i m =
      let waiting = put q s.listener m in
      record {
        distinct = waiting.distinct;
        shut_late = waiting.shut_late;
        drained = λ j f. waiting.drained j (not_ended s.worker i idle (λ e. cc) j f);
      }

Step-IsSound : {n : ℕ} {a : Act} {s t : Running} → Step n s a t → IsSound s → IsSound t
unfolding shutdown
Step-IsSound cancel sound = record {
  distinct = sound.distinct;
  shut_late = λ h. refl;
  drained = sound.drained;
}
Step-IsSound (close_channel h) sound = record {
  distinct = sound.distinct;
  shut_late = sound.shut_late;
  drained = sound.drained;
}
Step-IsSound (shut h) sound = record {
  distinct = sound.distinct;
  shut_late = λ d. h;
  drained = λ i f. (refl, (sound.drained i f).1);
}
Step-IsSound {s = s} (start_next {spec} h) sound = put sound _ _ (inr (to_string spec.id, refl))
Step-IsSound {s = s} (start_done h) sound = put sound _ _ (inl refl)
Step-IsSound {s = s} (event e h) sound = put sound _ s.listener (handle_event-MaybePut e s.queue)
Step-IsSound {s = s} (nil_event h c) sound = put sound _ _ (inl refl)
Step-IsSound {s = s} (tick specs h) sound = put sound _ _ (inl refl)
Step-IsSound {s = s} (resync_next {spec} h) sound = put sound _ _ (inr (to_string spec.id, refl))
Step-IsSound {s = s} (resync_done h) sound = put sound _ _ (inl refl)
Step-IsSound {s = s} (return_listener h c) sound = put sound _ _ (inl refl)
Step-IsSound {s = s} (take i {id} {q} lt started h d p) sound =
    let e = dequeue-item s.queue q id d in
    took sound q id _ e.0 e.1 (not_ended s.worker i (reconciling id) (λ e. cc))
Step-IsSound {s = s} (skip i {id} {q} lt started h d p) sound =
    let e = dequeue-item s.queue q id d in took sound q id s.worker e.0 e.1 (λ j f. f)
Step-IsSound {s = s} (close i {q} lt started h d) sound =
    let e = dequeue-closed s.queue q d in
    rw e.0 (record {
      distinct = sound.distinct;
      shut_late = sound.shut_late;
      drained = λ j f. (e.1, e.2);
    })
Step-IsSound {s = s} (succeed i lt h) sound = rested sound s.queue i (inl refl)
Step-IsSound {s = s} (retry i {id} lt h) sound = rested sound _ i (inr (id, refl))

-- In every state that Run comes to, however its goroutines interleave, no identifier is queued
-- twice; the queue is shut down only when the context is done; and once a worker has ended, the
-- queue is shut down and empty.
pub Run-IsSound :
    {n : ℕ} (specs : List Microvm) {acts : List Act} {s : Running}
    → Run n (initial specs) acts s
    → IsSound s
unfolding new_simple_sync_queue
Run-IsSound specs here = record { distinct = tt; shut_late = λ h. cc; drained = λ i f. cc }
Run-IsSound specs (next r st) = Step-IsSound st (Run-IsSound specs r)

-- ===== src/Queue.antt =====
-- pkg/queue/queue.go: the queue of the controller. The items are compared by `cmp.Equal`, which is
-- given as a test `equal`. A call runs under the queue's lock from its start to its end or to its
-- wait, so it is one step here; `waits` is a `Dequeue` that blocks in `emptyCond.Wait`.
pub mod Laws
use flintlock.Prelude.{ℕ, Bool, true, false, List, [], ◌∷◌, ◌++◌, any, if◌then◌else◌}

pub record Queue (A : Type 0) : Type 0 where
  pub items : List A
  pub shutting_down : Bool

-- NewSimpleSyncQueue
unfoldable pub new_simple_sync_queue : {A : Type 0} → Queue A
new_simple_sync_queue = record { items = []; shutting_down = false }

-- What `Dequeue` comes to: it waits, it returns an item, or it reports the shutdown.
pub data Dequeued (A : Type 0) : Type 0 where
  waits : Dequeued A
  item : A → Dequeued A
  closed : Dequeued A

module _ {A : Type 0} (equal : A → A → Bool) where
  -- exists
  unfoldable pub exists : A → Queue A → Bool
  exists a q = any (λ current_item. equal current_item a) q.items

  -- Enqueue
  unfoldable pub enqueue : A → Queue A → Queue A
  unfolding exists
  enqueue a q =
      if q.shutting_down
      then q
      else if exists a q
      then q
      else record q { items = q.items ++ a ∷ [] }

module _ {A : Type 0} where
  -- the part of Dequeue that looks at the items
  unfoldable pub dequeue_items : List A → Queue A → Dequeued A × Queue A
  dequeue_items [] q = (if q.shutting_down then closed else waits, q)
  dequeue_items (a ∷ rest) q = (item a, record q { items = rest })

  -- Dequeue, up to its wait or to its return
  unfoldable pub dequeue : Queue A → Dequeued A × Queue A
  unfolding dequeue_items
  dequeue q = dequeue_items q.items q

  -- Shutdown
  unfoldable pub shutdown : Queue A → Queue A
  shutdown q = record q { shutting_down = true }

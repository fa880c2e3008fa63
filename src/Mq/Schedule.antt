-- ===== src/Mq/Schedule.antt =====
-- One message queue, the global queue and the worker that may hold the queue, as a step relation:
-- the calls that skynet-src/skynet_server.c makes of skynet-src/skynet_mq.c for a live service
-- (`skynet_context_new`, `skynet_context_push`, `skynet_context_message_dispatch`, and the commands
-- LOCK and UNLOCK of its callback), with any other queues and senders in between.
pub mod Invariant
pub mod Moves
pub mod Safety
use skynet_note.Base.{ℕ, suc, ◌*◌, ◌<◌, ◌≡◌, ◌≢◌, none, some, List}
use skynet_note.GlobalQueue.{GlobalQueue, mq_init, globalmq_push, globalmq_pop, max_global_mq}
use skynet_note.GlobalQueue.Fifo.{Holds}
use skynet_note.Mq.{Message, MessageQueue, int_limit, mq_create, mq_pop, mq_push}
use skynet_note.Mq.Life.{mq_lock, mq_unlock, mq_force_push, mq_pushglobal}
use skynet_note.Base.{length}

-- Where `skynet_context_message_dispatch` is with this queue: no worker has it, a worker took it
-- from the global queue, or a worker runs the callback; and before that `skynet_context_new` runs
-- the service's init.
pub data Worker : Type 0 where
  launching away taken running : Worker

pub record System : Type 0 where
  pub queue : MessageQueue
  pub global : GlobalQueue
  pub worker : Worker

-- The global queue has room for one more queue.
abbrev pub Roomy : GlobalQueue → Type 0
Roomy g = (ps : List ℕ) × Holds g ps × (suc (length ps) < max_global_mq)

-- The steps of the code around the queue at address `self`.
pub data Step (self : ℕ) (s : System) : System → Type 0 where
  -- `skynet_context_push`, from any thread
  send :
      (m : Message) (q' : MessageQueue) (g' : GlobalQueue)
      → s.queue.cap * 2 < int_limit
      → Roomy s.global
      → mq_push self s.queue s.global m ≡ some (q', g')
      → Step self s (record { queue = q'; global = g'; worker = s.worker })
  -- the end of `skynet_context_new`
  launch :
      (g' : GlobalQueue)
      → s.worker ≡ launching
      → Roomy s.global
      → mq_force_push self s.queue s.global ≡ some g'
      → Step self s (record { queue = s.queue; global = g'; worker = away })
  -- a worker takes this queue
  take :
      (g' : GlobalQueue)
      → s.worker ≡ away
      → globalmq_pop s.global ≡ (some self, g')
      → Step self s (record { queue = s.queue; global = g'; worker = taken })
  -- the worker finds a message and calls the callback
  fetch :
      (m : Message) (q' : MessageQueue)
      → s.worker ≡ taken
      → mq_pop s.queue ≡ some (some m, q')
      → Step self s (record { queue = q'; global = s.global; worker = running })
  -- the worker finds no message and leaves
  park :
      (q' : MessageQueue)
      → s.worker ≡ taken
      → mq_pop s.queue ≡ some (none, q')
      → Step self s (record { queue = q'; global = s.global; worker = away })
  -- LOCK in the callback
  lock :
      (session : ℕ) (q' : MessageQueue)
      → s.worker ≡ running
      → session ≢ 0
      → mq_lock s.queue session ≡ some q'
      → Step self s (record { queue = q'; global = s.global; worker = running })
  -- UNLOCK in the callback
  unlock :
      (q' : MessageQueue) (g' : GlobalQueue)
      → s.worker ≡ running
      → Roomy s.global
      → mq_unlock self s.queue s.global ≡ some (q', g')
      → Step self s (record { queue = q'; global = g'; worker = running })
  -- the callback has returned
  back :
      (q' : MessageQueue) (g' : GlobalQueue)
      → s.worker ≡ running
      → Roomy s.global
      → mq_pushglobal self s.queue s.global ≡ some (q', g')
      → Step self s (record { queue = q'; global = g'; worker = away })
  -- another queue is pushed or popped
  other_push :
      (p : ℕ)
      → p ≢ self
      → Roomy s.global
      → Step self s
          (record { queue = s.queue; global = globalmq_push p s.global; worker = s.worker })
  other_pop :
      (p : ℕ) (g' : GlobalQueue)
      → p ≢ self
      → globalmq_pop s.global ≡ (some p, g')
      → Step self s (record { queue = s.queue; global = g'; worker = s.worker })

-- The service is being created: its queue is new, and so is the global queue.
abbrev pub Starts : ℕ → System → Type 0
Starts self s =
    (handle : ℕ) × (memory : ℕ → ℕ) × (s
      ≡ record { queue = mq_create handle; global = mq_init memory; worker = launching })

pub data Reach (self : ℕ) : System → Type 0 where
  start : (s : System) → Starts self s → Reach self s
  next : {s t : System} → Reach self s → Step self s t → Reach self t

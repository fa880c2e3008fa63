-- ===== src/Mq/Tests.antt =====
-- Runs of a message queue, and its theorems at concrete queues.
use skynet_note.Base.{
  ℕ, ◌≡◌, ◌⊎◌, inr, ◌+◌, ◌≤◌, refl, Bool, true, false, none, some, List, [], ◌∷◌, arith, replicate,
}
use skynet_note.GlobalQueue.{GlobalQueue, mq_init, globalmq_push, globalmq_pop}
use skynet_note.GlobalQueue.Fifo.{Holds, mq_init-Holds, globalmq_push-Holds}
use skynet_note.Mq.{
  Message, MessageQueue, InGlobal, mq_idle, mq_in_global, mq_dispatching, mq_locked, mq_create,
  mq_length, mq_push,
}
use skynet_note.Mq.Fifo.{Represents, Pops, mq_pop-Pops}
use skynet_note.Mq.Push.{Wakes, mq_push-queues, mq_push-unlocks}
use skynet_note.Mq.Life.{mq_force_push, mq_release, dropped}
use skynet_note.Mq.Drop.{mq_release-dropped}
use skynet_note.Mq.Schedule.{
  System, launching, away, taken, Roomy, Reach, start, next, send, launch, take,
}
use skynet_note.Mq.Schedule.Invariant.{count}
use skynet_note.Mq.Schedule.Safety.{busy, single_worker, no_lost_wakeup, mq_push_total}

abbrev hello : Message
hello = record { source = 3; session = 0; content = 90; sz = 5 }

abbrev reply : Message
reply = record { source = 3; session = 12; content = 91; sz = 6 }

-- A ring of two cells, with one message in its last cell
abbrev small : MessageQueue
small = record {
  handle = 1;
  cap = 2;
  head = 1;
  tail = 0;
  release = false;
  lock_session = 0;
  in_global = mq_idle;
  queue = none ∷ some hello ∷ [];
}

abbrev locked : MessageQueue
locked = record small { lock_session = 12; in_global = mq_locked }

abbrev released : MessageQueue
released = record small { release = true }

abbrev world : GlobalQueue
world = mq_init (λ i. 0)

small-Represents :
    (b : Bool) (l : ℕ) (i : InGlobal)
    → Represents (record small { release = b; lock_session = l; in_global = i }) (hello ∷ [])
small-Represents b l i = record {
  window = record {
    storage = refl;
    head_in = omega arith;
    fits = omega arith;
    held = λ i h. ground arith;
  };
  spare = omega arith;
  tail_at = refl;
}

-- The second message fills the ring, which grows.
grows :
    (q : MessageQueue) × (g : GlobalQueue) × (mq_push 7 small world hello ≡ some (q, g))
    × (q.cap ≡ 4)
    × (q.queue ≡ some hello ∷ some hello ∷ none ∷ none ∷ [])
unfolding mq_push
grows = (_, _, refl, refl, refl)

mq_pop-Pops_example : Pops small (hello ∷ [])
mq_pop-Pops_example = mq_pop-Pops (hello ∷ []) (small-Represents false 0 mq_idle)

mq_push-queues_example :
    (q' : MessageQueue) × (g' : GlobalQueue) × (mq_push 7 small world reply ≡ some (q', g'))
    × Represents q' (hello ∷ reply ∷ [])
    × Wakes 7 small world q' g'
    × (q'.lock_session ≡ 0)
    × (q'.release ≡ false)
    × (q'.handle ≡ 1)
mq_push-queues_example =
    mq_push-queues 7 world reply (small-Represents false 0 mq_idle) (omega arith) refl

mq_push-unlocks_example :
    (q' : MessageQueue) × (g' : GlobalQueue) × (mq_push 7 locked world reply ≡ some (q', g'))
    × Represents q' (reply ∷ hello ∷ [])
    × (q'.lock_session ≡ 0)
    × ((mq_locked ≡ mq_dispatching) × (q'.in_global ≡ mq_dispatching) × (g' ≡ world)
        ⊎ (mq_locked ≡ mq_locked) × (q'.in_global ≡ mq_in_global) × (g' ≡ globalmq_push 7 world))
mq_push-unlocks_example =
    mq_push-unlocks 7 world reply (small-Represents false 12 mq_locked) (omega arith) refl
      (inr refl)

mq_release-dropped_example : mq_release 2 7 released world ≡ some (dropped 1 (90 ∷ []))
mq_release-dropped_example =
    mq_release-dropped 2 7 world (hello ∷ []) (small-Represents true 0 mq_idle) refl (omega arith)

-- A service is created, gets a message during its init, is launched and taken by a worker.
abbrev created : System
created = record { queue = mq_create 1; global = world; worker = launching }

world-Roomy : Roomy world
world-Roomy = ([], mq_init-Holds (λ i. 0), omega arith)

created-Reach : Reach 7 created
created-Reach = start created (1, (λ i. 0), refl)

abbrev with_hello : MessageQueue
with_hello = record {
  handle = 1;
  cap = 64;
  head = 0;
  tail = 1;
  release = false;
  lock_session = 0;
  in_global = mq_in_global;
  queue = some hello ∷ replicate 63 none;
}

abbrev sent : System
sent = record { queue = with_hello; global = world; worker = launching }

abbrev launched : System
launched = record { queue = with_hello; global = globalmq_push 7 world; worker = away }

abbrev dispatched : System
dispatched = record {
  queue = with_hello;
  global = (globalmq_pop (globalmq_push 7 world)).1;
  worker = taken;
}

sent-Reach : Reach 7 sent
unfolding mq_create mq_push
sent-Reach = next created-Reach (send hello with_hello world (omega arith) world-Roomy refl)

launched-Reach : Reach 7 launched
unfolding mq_force_push
launched-Reach = next sent-Reach (launch (globalmq_push 7 world) refl world-Roomy refl)

dispatched-Reach : Reach 7 dispatched
unfolding globalmq_pop globalmq_push mq_init
dispatched-Reach = next launched-Reach (take _ refl refl)

launched-Roomy : Roomy (globalmq_push 7 world)
launched-Roomy = (7 ∷ [], globalmq_push-Holds 7 (mq_init-Holds (λ i. 0)) (omega arith), omega arith)

single_worker_example : (ps : List ℕ) × Holds dispatched.global ps × (count 7 ps + busy taken ≤ 1)
single_worker_example = single_worker dispatched-Reach

-- The queue waits with a message.
length-with_hello : mq_length with_hello ≡ 1
unfolding mq_length
length-with_hello = refl

no_lost_wakeup_example : (ps : List ℕ) × Holds launched.global ps × (count 7 ps + busy away ≡ 1)
no_lost_wakeup_example = no_lost_wakeup launched-Reach (omega (arith, length-with_hello)) refl

mq_push_total_example :
    (q' : MessageQueue) × (g' : GlobalQueue) × (mq_push 7 with_hello (globalmq_push 7 world) reply
      ≡ some (q', g'))
mq_push_total_example = mq_push_total reply launched-Reach (omega arith) launched-Roomy

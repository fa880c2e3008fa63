-- ===== src/Mq/Schedule/Safety.antt =====
-- What the flags of skynet-src/skynet_mq.c guarantee in every reachable state of a schedule.
use skynet_note.Base.{ℕ, ◌+◌, ◌*◌, ◌≤◌, ◌<◌, ◌≡◌, some, List, arith}
use skynet_note.GlobalQueue.{GlobalQueue}
use skynet_note.GlobalQueue.Fifo.{Holds}
use skynet_note.Mq.{Message, MessageQueue, int_limit, mq_length, mq_push}
use skynet_note.Mq.Fifo.{mq_length_lem}
use skynet_note.Mq.Schedule.{Worker, away, System, Roomy, Reach}
use skynet_note.Mq.Schedule.Invariant.{count}
use skynet_note.Mq.Schedule.Moves.{Reach-Inv, push_total}

-- 1 while a thread works on the queue
abbrev pub busy : Worker → ℕ
busy away = 0
busy _ = 1

-- In every reachable state the queue stands in the global queue at most once, and not at all while
-- a thread works on it: no two workers dispatch one service at a time.
pub single_worker :
    {self : ℕ} {s : System}
    → Reach self s
    → (ps : List ℕ) × Holds s.global ps × (count self ps + busy s.worker ≤ 1)
single_worker {self} {s} r = let v = Reach-Inv r in (v.waiting, v.holds, ground (arith, v.placed))

-- In every reachable state a queue with messages whose session is not locked stands in the global
-- queue or is worked on: no message is left behind without a wakeup.
pub no_lost_wakeup :
    {self : ℕ} {s : System}
    → Reach self s
    → 0 < mq_length s.queue
    → s.queue.lock_session ≡ 0
    → (ps : List ℕ) × Holds s.global ps × (count self ps + busy s.worker ≡ 1)
no_lost_wakeup {self} {s} r some_left free =
    let v = Reach-Inv r in
    (v.waiting, v.holds, ground (arith, v.placed, mq_length_lem v.represents))

-- In every reachable state a push returns, as long as the capacity can be doubled within an `int`
-- and the global queue has room: the assertion in `_unlock` does not fail.
pub mq_push_total :
    {self : ℕ} {s : System} (m : Message)
    → Reach self s
    → s.queue.cap * 2 < int_limit
    → Roomy s.global
    → (q' : MessageQueue) × (g' : GlobalQueue) × (mq_push self s.queue s.global m ≡ some (q', g'))
mq_push_total m r small room =
    let (q', g', e, v) = push_total (Reach-Inv r) m small room in (q', g', e)

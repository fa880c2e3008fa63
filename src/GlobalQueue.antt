-- ===== src/GlobalQueue.antt =====
-- The global queue of skynet-src/skynet_mq.c: the ring of the message queues that wait for a worker.
-- A message queue is named by its address. An operation runs with no other thread between its
-- steps, so the compare-and-swap of `globalmq_pop` finds the head it read.
pub mod Fifo
mod Tests
use skynet_note.Base.{ℕ, ◌+◌, ◌%◌, ◌^◌, Bool, true, false, Option, none, some, ◌==◌, if◌then◌else◌}

-- `MAX_GLOBAL_MQ`
abbrev pub max_global_mq : ℕ
max_global_mq = 0x10000

-- `uint32_t` counters wrap.
abbrev pub word32 : ℕ
word32 = 2 ^ 32

-- `struct global_queue`. The arrays have `max_global_mq` cells and are only read through `gp`.
pub record GlobalQueue : Type 0 where
  pub head : ℕ
  pub tail : ℕ
  pub queue : ℕ → ℕ
  pub flag : ℕ → Bool

-- `GP`
abbrev pub gp : ℕ → ℕ
gp p = p % max_global_mq

abbrev pub update {ℓ} : {A : Type ℓ} → (ℕ → A) → ℕ → A → ℕ → A
update f i a j = if i == j then a else f j

-- `skynet_mq_init`: `memory` is what the allocated block holds.
unfoldable pub mq_init : (ℕ → ℕ) → GlobalQueue
mq_init memory = record { head = 0; tail = 0; queue = memory; flag = λ _. false }

-- `skynet_globalmq_push`
unfoldable pub globalmq_push : ℕ → GlobalQueue → GlobalQueue
globalmq_push mq q =
    let tail = gp q.tail in
    record {
      head = q.head;
      tail = (q.tail + 1) % word32;
      queue = update q.queue tail mq;
      flag = update q.flag tail true;
    }

-- `skynet_globalmq_pop`; `none` is NULL.
unfoldable pub globalmq_pop : GlobalQueue → Option ℕ × GlobalQueue
globalmq_pop q =
    let head_ptr = gp q.head in
    if head_ptr == gp q.tail
    then (none, q)
    else if q.flag head_ptr
    then (
      some (q.queue head_ptr),
      record q { head = (q.head + 1) % word32; flag = update q.flag head_ptr false },
    )
    else (none, q)

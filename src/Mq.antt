-- ===== src/Mq.antt =====
-- The message queues of skynet-src/skynet_mq.c: the per-service ring of messages and its flags.
-- Each function is the code between LOCK and UNLOCK. `self` is the address of the queue, which the
-- global queue holds. `none` is an abort: a failed assertion, an access outside the allocated
-- block, a read of a cell that was never written, or a capacity that an `int` cannot hold.
pub mod Window
pub mod Fifo
pub mod Put
pub mod Push
pub mod Life
pub mod Schedule
pub mod Drop
mod Tests
use skynet_note.Base.{
  ℕ, zero, suc, ◌+◌, ◌-◌, ◌*◌, ◌%◌, ◌^◌, Bool, false, not, ◌&&◌, Option, none, some, List, [], ◌∷◌,
  ◌++◌, ◌==◌, ltb, leb, if◌then◌else◌, ◌>>=◌, ◌>>◌, guard, length, get_or, set, replicate,
}
use skynet_note.GlobalQueue.{GlobalQueue, globalmq_push}

-- `struct skynet_message`; `data` is a pointer, and `session` the bit pattern of an `int`.
pub record Message : Type 0 where
  pub source : ℕ
  pub session : ℕ
  pub content : ℕ
  pub sz : ℕ

-- The values of `in_global`: 0, `MQ_IN_GLOBAL`, `MQ_DISPATCHING` and `MQ_LOCKED`.
pub data InGlobal : Type 0 where
  mq_idle mq_in_global mq_dispatching mq_locked : InGlobal

-- `struct message_queue` but for its lock. A cell of the block is `none` until it is written.
pub record MessageQueue : Type 0 where
  pub handle : ℕ
  pub cap : ℕ
  pub head : ℕ
  pub tail : ℕ
  pub release : Bool
  pub lock_session : ℕ
  pub in_global : InGlobal
  pub queue : List (Option Message)

-- `DEFAULT_QUEUE_SIZE`
abbrev pub default_queue_size : ℕ
default_queue_size = 64

-- The first number that an `int` cannot hold.
abbrev pub int_limit : ℕ
int_limit = 2 ^ 31

-- `skynet_mq_create`
unfoldable pub mq_create : ℕ → MessageQueue
mq_create handle = record {
  handle = handle;
  cap = default_queue_size;
  head = 0;
  tail = 0;
  release = false;
  lock_session = 0;
  in_global = mq_in_global;
  queue = replicate default_queue_size none;
}

-- `skynet_mq_length`
unfoldable pub mq_length : MessageQueue → ℕ
mq_length q = if leb q.head q.tail then q.tail - q.head else q.tail + q.cap - q.head

-- `q->queue[i] = *message`
unfoldable pub write : MessageQueue → ℕ → Message → Option MessageQueue
write q i m = do guard (ltb i (length q.queue)); some (record q { queue = set q.queue i (some m) })

-- `++ i >= q->cap` sets the index back to 0.
abbrev pub advance : MessageQueue → ℕ → ℕ
advance q i = if leb q.cap (i + 1) then 0 else i + 1

-- `skynet_mq_pop`: the message if it returns 0, no message if it returns 1.
unfoldable pub mq_pop : MessageQueue → Option (Option Message × MessageQueue)
mq_pop q =
    if q.head == q.tail
    then some (none, record q { in_global = mq_idle })
    else get_or q.queue q.head none >>= λ m. some (some m, record q { head = advance q q.head })

-- The loop of `expand_queue` with `n` rounds left: copies the cells from the `i`-th after `head` on.
pub copy_cells : List (Option Message) → ℕ → ℕ → ℕ → ℕ → List (Option Message)
copy_cells cells cap head i zero = []
copy_cells cells cap head i (suc n) =
    get_or cells ((head + i) % cap) none ∷ copy_cells cells cap head (i + 1) n

-- `expand_queue`
unfoldable pub expand_queue : MessageQueue → Option MessageQueue
unfolding copy_cells
expand_queue q = do
  guard (ltb (q.cap * 2) int_limit)
  some (record q {
    head = 0;
    tail = q.cap;
    cap = q.cap * 2;
    queue = copy_cells q.queue q.cap q.head 0 q.cap ++ replicate q.cap none;
  })

-- `_unlock`
unfoldable pub unlock_session : ℕ → MessageQueue → GlobalQueue → Option (MessageQueue × GlobalQueue)
unlock_session self q g = elim q.in_global [
  | mq_locked ↦ some (record q { in_global = mq_in_global; lock_session = 0 }, globalmq_push self g)
  | mq_dispatching ↦ some (record q { lock_session = 0 }, g)
  | _ ↦ none
]

-- `_pushhead` up to its call of `_unlock`
unfoldable pub put_head : MessageQueue → Message → Option MessageQueue
unfolding expand_queue write
put_head q m =
    let head = if q.head == 0 then q.cap - 1 else q.head - 1 in
    if head == q.tail
    then (do
      q' ← expand_queue q
      w ← write (record q' { tail = q'.tail - 1 }) (q'.cap - 1) m
      some (record w { head = q'.cap - 1 }))
    else write q head m >>= λ w. some (record w { head = head })

-- `_pushhead`
unfoldable pub push_head :
    ℕ → MessageQueue → GlobalQueue → Message → Option (MessageQueue × GlobalQueue)
unfolding put_head unlock_session
push_head self q g m = do q' ← put_head q m; unlock_session self q' g

-- `skynet_mq_push` where the message goes to the tail, up to the change of the flags
unfoldable pub put_tail : MessageQueue → Message → Option MessageQueue
unfolding expand_queue write
put_tail q m = do
  w ← write q q.tail m
  let q' = record w { tail = advance w w.tail }
  if q'.head == q'.tail then expand_queue q' else some q'

-- The end of `skynet_mq_push`: a queue that nobody holds goes to the global queue.
unfoldable pub announce : ℕ → MessageQueue → GlobalQueue → MessageQueue × GlobalQueue
announce self q g =
    if q.lock_session == 0
    then elim q.in_global [
      | mq_idle ↦ (record q { in_global = mq_in_global }, globalmq_push self g)
      | _ ↦ (q, g)
    ]
    else (q, g)

-- `skynet_mq_push`
unfoldable pub mq_push :
    ℕ → MessageQueue → GlobalQueue → Message → Option (MessageQueue × GlobalQueue)
unfolding push_head put_tail announce
mq_push self q g m =
    if not (q.lock_session == 0) && (m.session == q.lock_session)
    then push_head self q g m
    else put_tail q m >>= λ q'. some (announce self q' g)

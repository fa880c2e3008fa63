-- ===== src/Mq/Fifo.antt =====
-- A message queue of skynet-src/skynet_mq.c against the list of the messages that it holds.
use skynet_note.Base.{
  ℕ, ◌+◌, ◌%◌, ◌<◌, ◌≡◌, ◌≢◌, refl, ◌∙◌, sym, none, some, List, [], ◌∷◌, arith, length,
}
use skynet_note.Mq.{Message, MessageQueue, mq_idle, advance, mq_create, mq_length, mq_pop}
use skynet_note.Mq.Window.{Window, Window-tail, ring_cases, ring_next}

-- The queue holds `ms`, oldest first, and has a spare cell.
pub record Represents (q : MessageQueue) (ms : List Message) : Type 0 where
  pub window : Window q.queue q.cap q.head ms
  pub spare : length ms < q.cap
  pub tail_at : q.tail ≡ (q.head + length ms) % q.cap

-- What the operations on the ring leave alone.
pub record SameFlags (q q' : MessageQueue) : Type 0 where
  pub same_handle : q'.handle ≡ q.handle
  pub same_release : q'.release ≡ q.release
  pub same_session : q'.lock_session ≡ q.lock_session
  pub same_global : q'.in_global ≡ q.in_global

-- The queue is empty exactly when its indices meet.
head-eq-tail :
    {q : MessageQueue} {ms : List Message} → Represents q ms → q.head ≡ q.tail → length ms ≡ 0
head-eq-tail {q} {ms} r e = omega (
  arith,
  r.tail_at,
  r.spare,
  ring_cases q.cap q.head (length ms) r.window.head_in (omega (arith, r.spare)),
)

pub mq_create-Represents : (h : ℕ) → Represents (mq_create h) []
unfolding mq_create
mq_create-Represents h = record {
  window = record {
    storage = refl;
    head_in = omega arith;
    fits = omega arith;
    held = λ i l. elim l [ ];
  };
  spare = omega arith;
  tail_at = refl;
}

-- What `mq_pop` does to a queue that holds `ms`.
abbrev pub Pops : MessageQueue → List Message → Type 0
Pops q [] = mq_pop q ≡ some (none, record q { in_global = mq_idle })
Pops q (m ∷ ms) =
    (q' : MessageQueue) × (mq_pop q ≡ some (some m, q')) × Represents q' ms × SameFlags q q'

advance-mod : (q : MessageQueue) (i : ℕ) → i < q.cap → advance q i ≡ (i + 1) % q.cap
advance-mod q i h = ground (arith, ring_cases q.cap i 1 h)

pub mq_pop-Pops : {q : MessageQueue} (ms : List Message) → Represents q ms → Pops q ms
unfolding mq_pop
mq_pop-Pops {q} [] r =
    let e : q.head ≡ q.tail =
      omega (arith, r.tail_at, ring_cases q.cap q.head 0 r.window.head_in (omega arith)) in
    ground arith
mq_pop-Pops {q} (m ∷ ms) r =
    let ne : q.head ≢ q.tail = λ e. omega (arith, head-eq-tail r e) in
    let t = Window-tail r.window in
    (
      record q { head = advance q q.head },
      ground (arith, t.0),
      record {
        window = rw (advance-mod q q.head r.window.head_in) t.1;
        spare = omega (arith, r.spare);
        tail_at =
            rw (advance-mod q q.head r.window.head_in)
              (r.tail_at ∙ sym (ring_next q.cap q.head (length ms)));
      },
      record { same_handle = refl; same_release = refl; same_session = refl; same_global = refl },
    )

-- The length that the code computes is the number of messages.
pub mq_length_lem :
    {q : MessageQueue} {ms : List Message} → Represents q ms → mq_length q ≡ length ms
unfolding mq_length
mq_length_lem {q} {ms} r = ground (
  arith,
  r.tail_at,
  r.spare,
  ring_cases q.cap q.head (length ms) r.window.head_in (omega (arith, r.spare)),
)

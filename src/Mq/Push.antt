-- ===== src/Mq/Push.antt =====
-- `skynet_mq_push` of skynet-src/skynet_mq.c on every branch.
use skynet_note.Base.{
  ℕ, ◌*◌, ◌<◌, ◌≡◌, ◌≢◌, ◌⊎◌, inl, inr, refl, Bool, true, false, not, ◌&&◌, some, List, [], ◌∷◌,
  ◌++◌, arith, ◌==◌,
}
use skynet_note.GlobalQueue.{GlobalQueue, globalmq_push}
use skynet_note.Mq.{
  Message, MessageQueue, mq_idle, mq_in_global, mq_dispatching, mq_locked, int_limit, announce,
  mq_push,
}
use skynet_note.Mq.Fifo.{Represents, SameFlags}
use skynet_note.Mq.Put.{put_tail-Represents, put_head-Represents}

-- The message is a reply to the session that holds the queue.
abbrev pub unlocks : MessageQueue → Message → Bool
unlocks q m = not (q.lock_session == 0) && (m.session == q.lock_session)

-- A push wakes the queue if nobody holds it and it is in no queue; else only its ring changes.
abbrev pub Wakes : ℕ → MessageQueue → GlobalQueue → MessageQueue → GlobalQueue → Type 0
Wakes self q g q' g' =
    (q.lock_session ≡ 0)
      × (q.in_global ≡ mq_idle)
      × (q'.in_global ≡ mq_in_global)
      × (g' ≡ globalmq_push self g)
    ⊎ ((q.lock_session ≢ 0) ⊎ (q.in_global ≢ mq_idle)) × (q'.in_global ≡ q.in_global) × (g' ≡ g)

announce_lem :
    (self : ℕ) (q q1 : MessageQueue) (g : GlobalQueue) (ms : List Message)
    → SameFlags q q1
    → Represents q1 ms
    → let (q', g') = announce self q1 g in
      Represents q' ms
      × Wakes self q g q' g'
      × (q'.lock_session ≡ q.lock_session)
      × (q'.release ≡ q.release)
      × (q'.handle ≡ q.handle)
unfolding announce
announce_lem self q q1 g ms f r = ground arith

-- A message that does not unlock the queue goes behind the messages that the queue holds, and the
-- queue is woken exactly if nobody holds it and it is in no queue.
pub mq_push-queues :
    (self : ℕ) {q : MessageQueue} (g : GlobalQueue) (m : Message) {ms : List Message}
    → Represents q ms
    → q.cap * 2 < int_limit
    → unlocks q m ≡ false
    → (q' : MessageQueue) × (g' : GlobalQueue) × (mq_push self q g m ≡ some (q', g'))
      × Represents q' (ms ++ (m ∷ []))
      × Wakes self q g q' g'
      × (q'.lock_session ≡ q.lock_session)
      × (q'.release ≡ q.release)
      × (q'.handle ≡ q.handle)
unfolding mq_push
mq_push-queues self {q} g m {ms} r small plain =
    let (q1, e, r1, f) = put_tail-Represents m r small in
    let (a, b, c, d, h) = announce_lem self q q1 g (ms ++ (m ∷ [])) f r1 in
    ((announce self q1 g).0, (announce self q1 g).1, rw (plain, e) refl, a, b, c, d, h)

-- A reply to the session that holds the queue goes in front of the messages that the queue holds
-- and releases the session; a queue that its worker has left goes back to the global queue.
pub mq_push-unlocks :
    (self : ℕ) {q : MessageQueue} (g : GlobalQueue) (m : Message) {ms : List Message}
    → Represents q ms
    → q.cap * 2 < int_limit
    → unlocks q m ≡ true
    → (q.in_global ≡ mq_dispatching) ⊎ (q.in_global ≡ mq_locked)
    → (q' : MessageQueue) × (g' : GlobalQueue) × (mq_push self q g m ≡ some (q', g'))
      × Represents q' (m ∷ ms)
      × (q'.lock_session ≡ 0)
      × ((q.in_global ≡ mq_dispatching) × (q'.in_global ≡ mq_dispatching) × (g' ≡ g)
          ⊎ (q.in_global ≡ mq_locked) × (q'.in_global ≡ mq_in_global) × (g' ≡ globalmq_push self g))
unfolding mq_push
mq_push-unlocks self {q} g m r small reply (inl at) =
    let (q1, e, r1, f) = put_head-Represents m r small in
    (record q1 { lock_session = 0 }, g, ground (arith, e), ground arith, refl, ground arith)
mq_push-unlocks self {q} g m r small reply (inr at) =
    let (q1, e, r1, f) = put_head-Represents m r small in
    (
      record q1 { in_global = mq_in_global; lock_session = 0 },
      globalmq_push self g,
      ground (arith, e),
      ground arith,
      refl,
      ground arith,
    )

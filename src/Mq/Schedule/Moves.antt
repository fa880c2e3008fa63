-- ===== src/Mq/Schedule/Moves.antt =====
-- Every step of the schedule keeps the invariant.
use skynet_note.Base.{
  ℕ, ◌*◌, ◌<◌, ◌≡◌, ◌≢◌, ◌⊎◌, inl, inr, ap, sym, subst, none, some, [], ◌∷◌, ◌++◌, ◌==◌, arith,
  length, Bool-cases,
}
use skynet_note.GlobalQueue.{GlobalQueue, globalmq_push, globalmq_pop}
use skynet_note.GlobalQueue.Fifo.{Holds, mq_init-Holds, globalmq_push-Holds}
use skynet_note.Mq.{
  Message, MessageQueue, mq_in_global, mq_dispatching, mq_locked, mq_push, mq_pop, mq_create,
  int_limit,
}
use skynet_note.Mq.Fifo.{Represents, mq_create-Represents}
use skynet_note.Mq.Push.{unlocks, Wakes, mq_push-queues, mq_push-unlocks}
use skynet_note.Mq.Life.{mq_lock, mq_unlock, mq_force_push, mq_pushglobal}
use skynet_note.Mq.Schedule.{
  launching, away, taken, running, System, Roomy, Step, Starts, send, launch, take, fetch, park,
  lock, unlock, back, other_push, other_pop, Reach, start, next,
}
use skynet_note.Mq.Schedule.Invariant.{
  Inv, count, count-append, Holds-length, popped, fetched, parked, idle-Represents,
}

module _ {self : ℕ} {s : System} (v : Inv self s) where
  open v use {messages, waiting, represents, holds, placed}

  push_room : (p : ℕ) → Roomy s.global → Holds (globalmq_push p s.global) (waiting ++ (p ∷ []))
  push_room p (ps, h, few) =
      globalmq_push-Holds p holds (omega (arith, Holds-length ps waiting h holds))

  launch-Inv :
      (g' : GlobalQueue)
      → s.worker ≡ launching
      → Roomy s.global
      → mq_force_push self s.queue s.global ≡ some g'
      → Inv self (record { queue = s.queue; global = g'; worker = away })
  unfolding mq_force_push
  launch-Inv g' at room e = record {
    messages = messages;
    waiting = waiting ++ (self ∷ []);
    represents = represents;
    holds = let p = push_room self room in ground (arith);
    placed = ground (arith, count-append self waiting (self ∷ []));
  }

  take-Inv :
      (g' : GlobalQueue)
      → s.worker ≡ away
      → globalmq_pop s.global ≡ (some self, g')
      → Inv self (record { queue = s.queue; global = g'; worker = taken })
  take-Inv g' at e =
      let (rest, w, h) = popped waiting holds e in
      record {
        messages = messages;
        waiting = rest;
        represents = represents;
        holds = h;
        placed = ground (arith, ap (count self) w);
      }

  fetch-Inv :
      (m : Message) (q' : MessageQueue)
      → s.worker ≡ taken
      → mq_pop s.queue ≡ some (some m, q')
      → Inv self (record { queue = q'; global = s.global; worker = running })
  fetch-Inv m q' at e =
      let (rest, w, r, f) = fetched messages represents e in
      record {
        messages = rest;
        waiting = waiting;
        represents = r;
        holds = holds;
        placed = ground (arith, f);
      }

  park-Inv :
      (q' : MessageQueue)
      → s.worker ≡ taken
      → mq_pop s.queue ≡ some (none, q')
      → Inv self (record { queue = q'; global = s.global; worker = away })
  park-Inv q' at e =
      let (none_left, w) = parked messages represents e in
      record {
        messages = messages;
        waiting = waiting;
        represents = subst (λ t. Represents t messages) (sym w) (idle-Represents represents);
        holds = holds;
        placed = ground (arith, ap length none_left, w);
      }

  lock-Inv :
      (session : ℕ) (q' : MessageQueue)
      → s.worker ≡ running
      → session ≢ 0
      → mq_lock s.queue session ≡ some q'
      → Inv self (record { queue = q'; global = s.global; worker = running })
  unfolding mq_lock
  lock-Inv session q' at ne e = record {
    messages = messages;
    waiting = waiting;
    represents = ground arith;
    holds = holds;
    placed = ground arith;
  }

  unlock-Inv :
      (q' : MessageQueue) (g' : GlobalQueue)
      → s.worker ≡ running
      → mq_unlock self s.queue s.global ≡ some (q', g')
      → Inv self (record { queue = q'; global = g'; worker = running })
  unfolding mq_unlock
  unlock-Inv q' g' at e = record {
    messages = messages;
    waiting = waiting;
    represents = ground arith;
    holds = ground arith;
    placed = ground arith;
  }

  other_push-Inv :
      (p : ℕ)
      → p ≢ self
      → Roomy s.global
      → Inv self (record { queue = s.queue; global = globalmq_push p s.global; worker = s.worker })
  other_push-Inv p ne room = record {
    messages = messages;
    waiting = waiting ++ (p ∷ []);
    represents = represents;
    holds = push_room p room;
    placed = ground (arith, count-append self waiting (p ∷ []));
  }

  other_pop-Inv :
      (p : ℕ) (g' : GlobalQueue)
      → p ≢ self
      → globalmq_pop s.global ≡ (some p, g')
      → Inv self (record { queue = s.queue; global = g'; worker = s.worker })
  other_pop-Inv p g' ne e =
      let (rest, w, h) = popped waiting holds e in
      record {
        messages = messages;
        waiting = rest;
        represents = represents;
        holds = h;
        placed = ground (arith, ap (count self) w);
      }

  back-Inv :
      (q' : MessageQueue) (g' : GlobalQueue)
      → s.worker ≡ running
      → Roomy s.global
      → mq_pushglobal self s.queue s.global ≡ some (q', g')
      → Inv self (record { queue = q'; global = g'; worker = away })
  unfolding mq_pushglobal
  back-Inv q' g' at room e = elim (Bool-cases (s.queue.lock_session == 0)) [
    | inl free ↦
        let h = push_room self room in
        record {
          messages = messages;
          waiting = waiting ++ (self ∷ []);
          represents = ground arith;
          holds = ground arith;
          placed = ground (arith, count-append self waiting (self ∷ []));
        }
    | inr held ↦ record {
      messages = messages;
      waiting = waiting;
      represents = ground arith;
      holds = ground arith;
      placed = ground arith;
    }
  ]

  -- The states that a push behind the others may lead to.
  queued-Inv :
      (m : Message) (q' : MessageQueue) (g' : GlobalQueue)
      → Roomy s.global
      → Represents q' (messages ++ (m ∷ []))
      → q'.lock_session ≡ s.queue.lock_session
      → Wakes self s.queue s.global q' g'
      → Inv self (record { queue = q'; global = g'; worker = s.worker })
  queued-Inv m q' g' room r f (inl (free, idle, now, g)) = record {
    messages = messages ++ (m ∷ []);
    waiting = waiting ++ (self ∷ []);
    represents = r;
    holds = subst (λ t. Holds t (waiting ++ (self ∷ []))) (sym g) (push_room self room);
    placed = ground (arith, count-append self waiting (self ∷ []));
  }
  queued-Inv m q' g' room r f (inr (busy, same, g)) = record {
    messages = messages ++ (m ∷ []);
    waiting = waiting;
    represents = r;
    holds = subst (λ t. Holds t waiting) (sym g) holds;
    placed = ground arith;
  }

  -- The states that a reply to the locked session may lead to.
  unlocked-Inv :
      (m : Message) (q' : MessageQueue) (g' : GlobalQueue)
      → Roomy s.global
      → Represents q' (m ∷ messages)
      → q'.lock_session ≡ 0
      → (s.queue.in_global ≡ mq_dispatching) × (q'.in_global ≡ mq_dispatching) × (g' ≡ s.global)
        ⊎ (s.queue.in_global ≡ mq_locked)
          × (q'.in_global ≡ mq_in_global)
          × (g' ≡ globalmq_push self s.global)
      → Inv self (record { queue = q'; global = g'; worker = s.worker })
  unlocked-Inv m q' g' room r f (inl (was, now, g)) = record {
    messages = m ∷ messages;
    waiting = waiting;
    represents = r;
    holds = subst (λ t. Holds t waiting) (sym g) holds;
    placed = ground arith;
  }
  unlocked-Inv m q' g' room r f (inr (was, now, g)) = record {
    messages = m ∷ messages;
    waiting = waiting ++ (self ∷ []);
    represents = r;
    holds = subst (λ t. Holds t (waiting ++ (self ∷ []))) (sym g) (push_room self room);
    placed = ground (arith, count-append self waiting (self ∷ []));
  }

  -- A queue whose session is locked is being dispatched or locked.
  locked_place :
      s.queue.lock_session ≢ 0
      → (s.queue.in_global ≡ mq_dispatching) ⊎ (s.queue.in_global ≡ mq_locked)
  locked_place h = ground arith

  -- Under the invariant a push does not abort.
  pub push_total :
      (m : Message)
      → s.queue.cap * 2 < int_limit
      → Roomy s.global
      → (q' : MessageQueue) × (g' : GlobalQueue) × (mq_push self s.queue s.global m ≡ some (q', g'))
        × Inv self (record { queue = q'; global = g'; worker = s.worker })
  push_total m small room = elim (Bool-cases (unlocks s.queue m)) [
    | inl reply ↦
        let place = locked_place (ground arith) in
        let (q', g', e, r, f, w) = mq_push-unlocks self s.global m represents small reply place in
        (q', g', e, unlocked-Inv m q' g' room r f w)
    | inr plain ↦
        let (q', g', e, r, w, f, _, _) = mq_push-queues self s.global m represents small plain in
        (q', g', e, queued-Inv m q' g' room r f w)
  ]

  send-Inv :
      (m : Message) (q' : MessageQueue) (g' : GlobalQueue)
      → s.queue.cap * 2 < int_limit
      → Roomy s.global
      → mq_push self s.queue s.global m ≡ some (q', g')
      → Inv self (record { queue = q'; global = g'; worker = s.worker })
  send-Inv m q' g' small room e =
      let (q1, g1, e1, v1) = push_total m small room in
      let same_queue : q1 ≡ q' = cc (e1, e) in
      let same_global : g1 ≡ g' = cc (e1, e) in
      subst (λ t. Inv self (record { queue = t; global = g'; worker = s.worker })) same_queue
        (subst (λ t. Inv self (record { queue = q1; global = t; worker = s.worker })) same_global
          v1)

Step-Inv : {self : ℕ} {s t : System} → Step self s t → Inv self s → Inv self t
Step-Inv (send m q' g' small room e) v = send-Inv v m q' g' small room e
Step-Inv (launch g' at room e) v = launch-Inv v g' at room e
Step-Inv (take g' at e) v = take-Inv v g' at e
Step-Inv (fetch m q' at e) v = fetch-Inv v m q' at e
Step-Inv (park q' at e) v = park-Inv v q' at e
Step-Inv (lock session q' at ne e) v = lock-Inv v session q' at ne e
Step-Inv (unlock q' g' at room e) v = unlock-Inv v q' g' at e
Step-Inv (back q' g' at room e) v = back-Inv v q' g' at room e
Step-Inv (other_push p ne room) v = other_push-Inv v p ne room
Step-Inv (other_pop p g' ne e) v = other_pop-Inv v p g' ne e

start-Inv : {self : ℕ} (s : System) → Starts self s → Inv self s
unfolding mq_create
start-Inv {self} s (handle, memory, e) = subst (Inv self) (sym e) (record {
  messages = [];
  waiting = [];
  represents = mq_create-Represents handle;
  holds = mq_init-Holds memory;
  placed = ground arith;
})

pub Reach-Inv : {self : ℕ} {s : System} → Reach self s → Inv self s
Reach-Inv (start s h) = start-Inv s h
Reach-Inv (next r st) = Step-Inv st (Reach-Inv r)

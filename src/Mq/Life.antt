-- ===== src/Mq/Life.antt =====
-- The operations of skynet-src/skynet_mq.c that lock, pass round and release a message queue.
use skynet_note.Base.{
  ℕ, zero, suc, ◌+◌, Bool, true, false, not, Option, none, some, List, [], ◌∷◌, ◌++◌, ◌==◌,
  if◌then◌else◌, ◌>>=◌, ◌>>◌, guard,
}
use skynet_note.GlobalQueue.{GlobalQueue, globalmq_push}
use skynet_note.Mq.{
  MessageQueue, InGlobal, mq_idle, mq_in_global, mq_dispatching, mq_locked, mq_pop, unlock_session,
}

abbrev pub is_in_global : InGlobal → Bool
is_in_global mq_in_global = true
is_in_global _ = false

abbrev pub is_dispatching : InGlobal → Bool
is_dispatching mq_dispatching = true
is_dispatching _ = false

abbrev pub is_idle : InGlobal → Bool
is_idle mq_idle = true
is_idle _ = false

-- `skynet_mq_lock`
unfoldable pub mq_lock : MessageQueue → ℕ → Option MessageQueue
mq_lock q session = do
  guard (q.lock_session == 0)
  guard (is_in_global q.in_global)
  some (record q { in_global = mq_dispatching; lock_session = session })

-- `skynet_mq_unlock`
unfoldable pub mq_unlock : ℕ → MessageQueue → GlobalQueue → Option (MessageQueue × GlobalQueue)
unfolding unlock_session
mq_unlock self q g = unlock_session self q g

-- `skynet_mq_force_push`
unfoldable pub mq_force_push : ℕ → MessageQueue → GlobalQueue → Option GlobalQueue
mq_force_push self q g = do guard (not (is_idle q.in_global)); some (globalmq_push self g)

-- `skynet_mq_pushglobal`
unfoldable pub mq_pushglobal : ℕ → MessageQueue → GlobalQueue → Option (MessageQueue × GlobalQueue)
mq_pushglobal self q g = do
  guard (not (is_idle q.in_global))
  let q' = if is_dispatching q.in_global then record q { in_global = mq_locked } else q
  if q'.lock_session == 0
      then some (record q' { in_global = mq_in_global }, globalmq_push self g)
      else some (q', g)

-- `skynet_mq_mark_release`
unfoldable pub mq_mark_release :
    ℕ → MessageQueue → GlobalQueue → Option (MessageQueue × GlobalQueue)
mq_mark_release self q g = do
  guard (not q.release)
  let q' = record q { release = true }
  some (q', if is_in_global q.in_global then g else globalmq_push self g)

-- The loop of `_drop_queue`, on fuel: how many messages it popped, and the data pointers it freed.
unfoldable pub drop_loop : ℕ → MessageQueue → ℕ → List ℕ → Option (ℕ × List ℕ)
drop_loop zero q s freed = none
drop_loop (suc fuel) q s freed = elim (mq_pop q) [
  | none ↦ none
  | some (none, q') ↦ some (s, freed)
  | some (some m, q') ↦ drop_loop fuel q' (s + 1) (freed ++ (m.content ∷ []))
]

-- What `skynet_mq_release` did: the queue is gone, with the count that it returns and the data it
-- freed, or it is back in the global queue.
pub data Released : Type 0 where
  dropped : ℕ → List ℕ → Released
  requeued : GlobalQueue → Released

-- `skynet_mq_release`, with fuel for the loop of `_drop_queue`
unfoldable pub mq_release : ℕ → ℕ → MessageQueue → GlobalQueue → Option Released
unfolding mq_force_push
mq_release fuel self q g =
    if q.release
    then (drop_loop fuel q 0 [] >>= λ r. some (dropped r.0 r.1))
    else (mq_force_push self q g >>= λ g'. some (requeued g'))

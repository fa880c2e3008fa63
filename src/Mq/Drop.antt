-- ===== src/Mq/Drop.antt =====
-- Dropping a released queue of skynet-src/skynet_mq.c.
use skynet_note.Base.{
  ℕ, zero, suc, ◌+◌, ◌<◌, ◌≡◌, true, some, List, [], ◌∷◌, ◌++◌, map, arith, length,
}
use mathlib.Core.List.{append-nil, append_assoc}
use skynet_note.GlobalQueue.{GlobalQueue}
use skynet_note.Mq.{Message, MessageQueue}
use skynet_note.Mq.Fifo.{Represents, mq_pop-Pops}
use skynet_note.Mq.Life.{drop_loop, dropped, mq_release}

drop_loop_lem :
    (fuel : ℕ) {q : MessageQueue} (ms : List Message) (s : ℕ) (freed : List ℕ)
    → Represents q ms
    → length ms < fuel
    → drop_loop fuel q s freed ≡ some (s + length ms, freed ++ map (λ m. m.content) ms)
unfolding drop_loop
drop_loop_lem zero ms s freed r h = absurd (omega arith)
drop_loop_lem (suc fuel) {q} [] s freed r h = ground (arith, mq_pop-Pops [] r, append-nil freed)
drop_loop_lem (suc fuel) {q} (m ∷ ms) s freed r h =
    let (q', e, r', f) = mq_pop-Pops (m ∷ ms) r in
    ground (
      arith,
      e,
      drop_loop_lem fuel ms (s + 1) (freed ++ (m.content ∷ [])) r' (omega arith),
      append_assoc freed (m.content ∷ []) (map (λ m. m.content) ms),
    )

-- With more fuel than messages, releasing a queue that is marked returns the number of its
-- messages and frees the data of each once, in order.
pub mq_release-dropped :
    (fuel self : ℕ) {q : MessageQueue} (g : GlobalQueue) (ms : List Message)
    → Represents q ms
    → q.release ≡ true
    → length ms < fuel
    → mq_release fuel self q g ≡ some (dropped (length ms) (map (λ m. m.content) ms))
unfolding mq_release
mq_release-dropped fuel self {q} g ms r marked h = ground (arith, drop_loop_lem fuel ms 0 [] r h)

-- ===== src/Mq/Schedule/Invariant.antt =====
-- Where the queue is, by its flag `in_global`; true at the start and kept by every step.
use skynet_note.Base.{
  ℕ, suc, ◌+◌, ◌≡◌, ◌≢◌, ◌⊎◌, refl, subst, none, some, List, [], ◌∷◌, ◌++◌, ◌==◌, arith,
  if◌then◌else◌, length,
}
use skynet_note.GlobalQueue.{GlobalQueue, globalmq_pop}
use skynet_note.GlobalQueue.Fifo.{Holds, globalmq_pop-Pops}
use skynet_note.Mq.{
  Message, MessageQueue, InGlobal, mq_idle, mq_in_global, mq_dispatching, mq_locked, mq_pop,
}
use skynet_note.Mq.Fifo.{Represents, SameFlags, mq_pop-Pops}
use skynet_note.Mq.Schedule.{Worker, away, running, System}

-- How often `p` stands in a list.
abbrev pub count : ℕ → List ℕ → ℕ
count p [] = 0
count p (x ∷ xs) = if x == p then suc (count p xs) else count p xs

pub count-append : (p : ℕ) (xs ys : List ℕ) → count p (xs ++ ys) ≡ count p xs + count p ys
count-append p [] ys = omega arith
count-append p (x ∷ xs) ys = ground (arith, count-append p xs ys)

-- The flag against the number of times that the queue waits, its worker, its session and its
-- messages.
abbrev pub Placed : InGlobal → ℕ → Worker → ℕ → ℕ → Type 0
Placed mq_idle n w session len = (n ≡ 0) × (w ≡ away) × (session ≡ 0) × (len ≡ 0)
Placed mq_in_global n w session len = (session ≡ 0) × ((n ≡ 1) × (w ≡ away) ⊎ (n ≡ 0) × (w ≢ away))
Placed mq_dispatching n w session len = (n ≡ 0) × (w ≡ running)
Placed mq_locked n w session len = (n ≡ 0) × (w ≡ away) × (session ≢ 0)

pub record Inv (self : ℕ) (s : System) : Type 0 where
  pub messages : List Message
  pub waiting : List ℕ
  pub represents : Represents s.queue messages
  pub holds : Holds s.global waiting
  pub placed :
      Placed s.queue.in_global (count self waiting) s.worker s.queue.lock_session (length messages)

pub Holds-length :
    {g : GlobalQueue} (ps qs : List ℕ) → Holds g ps → Holds g qs → length ps ≡ length qs
Holds-length ps qs h k = omega (arith, h.tail_at, k.tail_at, h.few, k.few)

pub popped :
    {g g' : GlobalQueue} (ps : List ℕ) {p : ℕ}
    → Holds g ps
    → globalmq_pop g ≡ (some p, g')
    → (rest : List ℕ) × (ps ≡ p ∷ rest) × Holds g' rest
popped [] h e = absurd (cc (globalmq_pop-Pops [] h, e))
popped {g} {g'} (x ∷ ps) h e =
    let (g1, e1, h1) = globalmq_pop-Pops (x ∷ ps) h in
    (ps, ground (arith, e, e1), ground (arith, e, e1, h1))

pub idle-Represents :
    {q : MessageQueue} {ms : List Message}
    → Represents q ms
    → Represents (record q { in_global = mq_idle }) ms
idle-Represents r = record { window = r.window; spare = r.spare; tail_at = r.tail_at }

-- A pop of messages takes the first, or finds none.
pub fetched :
    {q q' : MessageQueue} (ms : List Message) {m : Message}
    → Represents q ms
    → mq_pop q ≡ some (some m, q')
    → (rest : List Message) × (ms ≡ m ∷ rest) × Represents q' rest × SameFlags q q'
fetched [] r e = absurd (cc (mq_pop-Pops [] r, e))
fetched {q} {q'} (x ∷ ms) r e =
    let (q1, e1, r1, f) = mq_pop-Pops (x ∷ ms) r in
    let same : q1 ≡ q' = cc (e1, e) in
    (ms, cc (e1, e), subst (λ t. Represents t ms) same r1, subst (SameFlags q) same f)

pub parked :
    {q q' : MessageQueue} (ms : List Message)
    → Represents q ms
    → mq_pop q ≡ some (none, q')
    → (ms ≡ []) × (q' ≡ record q { in_global = mq_idle })
parked [] r e = (refl, cc (mq_pop-Pops [] r, e))
parked (x ∷ ms) r e = let (q1, e1, r1, f) = mq_pop-Pops (x ∷ ms) r in absurd (cc (e1, e))

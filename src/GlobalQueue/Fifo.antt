-- ===== src/GlobalQueue/Fifo.antt =====
-- The global queue of skynet-src/skynet_mq.c against the list of the queues that wait in it.
use skynet_note.Base.{
  ℕ, suc, ◌+◌, ◌%◌, ◌<◌, ◌≡◌, ◌≢◌, refl, true, false, none, some, List, [], ◌∷◌, ◌++◌, arith,
  dec_lt, length, get_or, length-append, get_or-append_left,
}
use skynet_note.GlobalQueue.{
  GlobalQueue, max_global_mq, word32, gp, update, mq_init, globalmq_push, globalmq_pop,
}

-- The cells from `head` on hold `ps` and are flagged, and the counters are that far apart.
pub record Holds (g : GlobalQueue) (ps : List ℕ) : Type 0 where
  pub few : length ps < max_global_mq
  pub head_fits : g.head < word32
  pub tail_at : g.tail ≡ (g.head + length ps) % word32
  pub held : (i : ℕ) → i < length ps → g.queue (gp (g.head + i)) ≡ get_or ps i 0
  pub flagged : (i : ℕ) → i < length ps → g.flag (gp (g.head + i)) ≡ true

get_or-append_last : (ps : List ℕ) (p : ℕ) → get_or (ps ++ (p ∷ [])) (length ps) 0 ≡ p
get_or-append_last [] p = refl
get_or-append_last (x ∷ ps) p = get_or-append_last ps p

pub mq_init-Holds : (memory : ℕ → ℕ) → Holds (mq_init memory) []
unfolding mq_init
mq_init-Holds memory = record {
  few = omega arith;
  head_fits = omega arith;
  tail_at = refl;
  held = λ i h. elim h [ ];
  flagged = λ i h. elim h [ ];
}

-- A push while fewer than 65535 queues wait puts the queue behind them.
pub globalmq_push-Holds :
    {g : GlobalQueue} {ps : List ℕ} (p : ℕ)
    → Holds g ps
    → suc (length ps) < max_global_mq
    → Holds (globalmq_push p g) (ps ++ (p ∷ []))
unfolding globalmq_push
globalmq_push-Holds {g} {ps} p h room = record {
  few = omega (arith, length-append ps (p ∷ []));
  head_fits = h.head_fits;
  tail_at = omega (arith, length-append ps (p ∷ []), h.tail_at);
  held = held';
  flagged = flagged';
}
  where
    held' :
        (i : ℕ)
        → i < length (ps ++ (p ∷ []))
        → update g.queue (gp g.tail) p (gp (g.head + i)) ≡ get_or (ps ++ (p ∷ [])) i 0
    held' i l = elim (dec_lt i (length ps)) [
      | yes old ↦ ground (arith, h.held i old, h.tail_at, h.few, get_or-append_left ps (p ∷ []) i 0)
      | no new ↦ ground (
        arith,
        h.tail_at,
        length-append ps (p ∷ []),
        get_or-append_last ps p,
        let e : i ≡ length ps = omega (arith, length-append ps (p ∷ [])) in e,
      )
    ]

    flagged' :
        (i : ℕ)
        → i < length (ps ++ (p ∷ []))
        → update g.flag (gp g.tail) true (gp (g.head + i)) ≡ true
    flagged' i l = elim (dec_lt i (length ps)) [
      | yes old ↦ ground (arith, h.flagged i old)
      | no new ↦
          let e : i ≡ length ps = omega (arith, length-append ps (p ∷ [])) in
          ground (arith, h.tail_at, e)
    ]

-- What a pop does to a global queue that holds `ps`.
abbrev pub Pops : GlobalQueue → List ℕ → Type 0
Pops g [] = globalmq_pop g ≡ (none, g)
Pops g (p ∷ ps) = (g' : GlobalQueue) × (globalmq_pop g ≡ (some p, g')) × Holds g' ps

-- A pop takes the queue that has waited longest, or nothing if no queue waits.
pub globalmq_pop-Pops : {g : GlobalQueue} (ps : List ℕ) → Holds g ps → Pops g ps
unfolding globalmq_pop
globalmq_pop-Pops {g} [] h = ground (arith, h.tail_at, h.head_fits)
globalmq_pop-Pops {g} (p ∷ ps) h =
    let apart : gp g.head ≢ gp g.tail = omega (arith, h.tail_at, h.few) in
    let start : gp (g.head + 0) ≡ gp g.head = omega arith in
    (
      record g { head = (g.head + 1) % word32; flag = update g.flag (gp g.head) false },
      ground (arith, h.held 0, h.flagged 0, start),
      record {
        few = omega (arith, h.few);
        head_fits = omega arith;
        tail_at = omega (arith, h.tail_at);
        held = λ i l.
            let e : gp ((g.head + 1) % word32 + i) ≡ gp (g.head + suc i) = omega arith in
            ground (arith, h.held (suc i), e);
        flagged = λ i l.
            let e : gp ((g.head + 1) % word32 + i) ≡ gp (g.head + suc i) = omega arith in
            let ne : gp g.head ≢ gp (g.head + suc i) = omega (arith, h.few) in
            ground (arith, h.flagged (suc i), e, ne);
      },
    )

-- With 65535 queues waiting, one more push makes the global queue look empty.
pub globalmq_push-overflow :
    {g : GlobalQueue} {ps : List ℕ} (p : ℕ)
    → Holds g ps
    → suc (length ps) ≡ max_global_mq
    → globalmq_pop (globalmq_push p g) ≡ (none, globalmq_push p g)
unfolding globalmq_push globalmq_pop
globalmq_push-overflow {g} {ps} p h full = ground (arith, h.tail_at, h.head_fits)

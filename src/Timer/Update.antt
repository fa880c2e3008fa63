-- ===== src/Timer/Update.antt =====
-- The wheel of skynet-src/skynet_timer.c fires each pending node once, at its tick.
use skynet_note.Base.{
  ℕ, ◌+◌, ◌≤◌, ◌<◌, ◌≡◌, refl, ap, ◌∙◌, List, [], ◌∷◌, map, arith, ◌==◌, if◌then◌else◌,
}
use skynet_note.Mq.{Message}
use skynet_note.Timer.{
  Run, done, Node, Timer, word32, dispatch, timer_execute, timer_update, timer_create_timer,
}
use skynet_note.Timer.Pending.{
  count, node_eq_refl, Models, Models-same, Ahead, timer_execute-Models,
}
use skynet_note.Timer.Shift.{timer_shift-Models}

no_nodes : (l : List Node) → ((n : Node) → count n l ≡ 0) → l ≡ []
no_nodes [] h = refl
no_nodes (x ∷ l) h = absurd (ground (arith, h x, node_eq_refl x))

-- A new wheel has nothing pending.
pub timer_create_timer-Models : Models timer_create_timer (λ n. 0)
unfolding timer_create_timer
timer_create_timer-Models = record {
  cells = λ s n. ground arith;
  due = λ n h. absurd (omega arith);
}

-- The multiset without the nodes that expire at `t`
abbrev pub without : ℕ → (Node → ℕ) → Node → ℕ
without t p n = if n.expire == t then 0 else p n

-- Executing at the time `t`.
execute_at :
    {T : Timer} {p : Node → ℕ} (t : ℕ)
    → Models T p
    → T.time ≡ t
    → let (l, T') = timer_execute T in
      ((n : Node) → count n l ≡ (if n.expire == t then p n else 0))
      × Models T' (without t p)
      × Ahead T' (without t p)
      × (T'.time ≡ t)
      × (T'.current ≡ T.current)
execute_at {T} {p} t m e =
    let (took, m', t', c) = timer_execute-Models m in
    (
      λ n. took n ∙ ap (λ k. if n.expire == k then p n else 0) e,
      Models-same m' (λ n. ap (λ k. if n.expire == k then 0 else p n) e),
      λ n h. ground (arith, m.due n, t', e),
      t' ∙ e,
      c,
    )

-- A first execution finds nothing, if nothing is due.
execute_nothing :
    {T : Timer} {p : Node → ℕ}
    → Models T p
    → Ahead T p
    → let (l, T') = timer_execute T in
      (l ≡ []) × Models T' p × Ahead T' p × (T'.time ≡ T.time) × (T'.current ≡ T.current)
execute_nothing {T} {p} m ahead =
    let (took, m', t', c) = timer_execute-Models m in
    (
      no_nodes _ (λ n. ground (arith, took n, ahead n)),
      Models-same m' (λ n. ground (arith, ahead n)),
      λ n h. omega (arith, ahead n h, t'),
      t',
      c,
    )

-- What a tick to the time `t` does.
abbrev pub Fires : Run (List (ℕ × Message) × Timer) → Timer → (Node → ℕ) → ℕ → Type 0
Fires r T p t =
    (fired : List Node) × (T' : Timer) × (r ≡ done (map dispatch fired, T'))
    × ((n : Node) → count n fired ≡ (if n.expire == t then p n else 0))
    × Models T' (without t p)
    × Ahead T' (without t p)
    × (T'.time ≡ t)
    × (T'.current ≡ T.current)

-- One tick dispatches exactly the nodes that expire at the new time, each as often as it is
-- pending, and keeps the others, if nothing is due before it and the time does not come back to 0.
pub timer_update-Fires :
    (fuel : ℕ) {T : Timer} {p : Node → ℕ}
    → Models T p
    → Ahead T p
    → T.time + 1 < word32
    → 4 ≤ fuel
    → Fires (timer_update fuel T) T p (T.time + 1)
unfolding timer_update
timer_update-Fires fuel {T} {p} m ahead small h =
    let (nothing, m1, a1, t1, c1) = execute_nothing m ahead in
    let (T2, run, m2, t2, c2) = timer_shift-Models fuel m1 a1 (omega (arith, t1)) h in
    let (due, m3, a3, t3, c3) = execute_at (T.time + 1) m2 (omega (arith, t1, t2)) in
    (
      (timer_execute T2).0,
      (timer_execute T2).1,
      rw (run, nothing) refl,
      due,
      m3,
      a3,
      t3,
      c3 ∙ c2 ∙ c1,
    )

-- ===== src/Timer/Ticks.antt =====
-- Adding timeouts to the wheel of skynet-src/skynet_timer.c, and many ticks at a time.
use skynet_note.Base.{
  ℕ, zero, suc, ◌+◌, ◌%◌, ◌≤◌, ◌<◌, ◌≡◌, refl, ap, ◌∙◌, sym, Bool, false, some, none, List, [], ◌∷◌,
  ◌++◌, map, arith, ◌==◌, leb, if◌then◌else◌, Bool-cases, inl, inr,
}
use mathlib.Core.List.{map-append}
use skynet_note.Mq.{Message}
use skynet_note.Timer.{done, Node, Timer, word32, dispatch, response, update_loop, timeout, link}
use skynet_note.Timer.Place.{place, add_node_lem}
use skynet_note.Timer.Pending.{
  count, node_eq, node_eq-eq, count-append, Models, Models-same, Ahead, link-Models,
}
use skynet_note.Timer.Update.{without, timer_update-Fires}

-- The node of a timeout
abbrev pub timer_of : Timer → ℕ → ℕ → ℕ → Node
timer_of T handle session time = record {
  expire = T.time + time;
  handle = handle;
  session = session;
}

-- A timeout of more than 0 ticks, whose expiry does not wrap, is added to the pending nodes; the
-- call returns the session and sends nothing yet.
pub timeout-adds :
    (delivers : ℕ → Message → Bool) {T : Timer} {p : Node → ℕ} (handle time session : ℕ)
    → Models T p
    → Ahead T p
    → 0 < time
    → T.time + time < word32
    → let x = timer_of T handle session time in
      (T' : Timer) × (timeout delivers T handle time session ≡ done (some session, [], T'))
      × Models T' (λ n. p n + count n (x ∷ []))
      × Ahead T' (λ n. p n + count n (x ∷ []))
      × (T'.time ≡ T.time)
unfolding timeout link
timeout-adds delivers {T} {p} handle time session m ahead pos small =
    let x = timer_of T handle session time in
    let zero_not : (time == 0) ≡ false = ground arith in
    let e : (time + T.time) % word32 ≡ T.time + time = omega arith in
    (
      link T (place T.time x.expire) x,
      rw (zero_not, e, add_node_lem T x (omega arith) small) refl,
      link-Models x m (omega arith) small,
      λ n h. elim (Bool-cases (node_eq x n)) [
        | inl same ↦ ground (arith, node_eq-eq x n same)
        | inr other ↦ ground (arith, ahead n)
      ],
      refl,
    )

-- A timeout of 0 ticks is sent at once and leaves the wheel alone; the call returns the session if
-- the service exists, and -1 if it does not.
pub timeout_now :
    (delivers : ℕ → Message → Bool) (T : Timer) (handle session : ℕ)
    → timeout delivers T handle 0 session
      ≡ done (
        if delivers handle (response session) then some session else none,
        (handle, response session) ∷ [],
        T,
      )
unfolding timeout
timeout_now delivers T handle session = refl

-- The multiset without the nodes that expire by `t`
abbrev pub without_until : ℕ → (Node → ℕ) → Node → ℕ
without_until t p n = if leb n.expire t then 0 else p n

-- In `k` ticks the nodes that expire within them are dispatched, each as often as it is pending,
-- and no other; all others stay pending.
pub update_loop-fires :
    (k fuel : ℕ) {T : Timer} {p : Node → ℕ}
    → Models T p
    → Ahead T p
    → T.time + k < word32
    → 4 ≤ fuel
    → (fired : List Node) × (T' : Timer) × (update_loop k fuel T ≡ done (map dispatch fired, T'))
      × ((n : Node) → count n fired ≡ (if leb n.expire (T.time + k) then p n else 0))
      × Models T' (without_until (T.time + k) p)
      × Ahead T' (without_until (T.time + k) p)
      × (T'.time ≡ T.time + k)
      × (T'.current ≡ T.current)
unfolding update_loop
update_loop-fires zero fuel {T} {p} m ahead small h = (
  [],
  T,
  refl,
  λ n. ground (arith, ahead n),
  Models-same m (λ n. ground (arith, ahead n)),
  λ n q. ground (arith, ahead n),
  omega arith,
  refl,
)
update_loop-fires (suc k) fuel {T} {p} m ahead small h =
    let (l1, T1, run1, c1, m1, a1, t1, s1) = timer_update-Fires fuel m ahead (omega arith) h in
    let (l2, T2, run2, c2, m2, a2, t2, s2) =
      update_loop-fires k fuel {T = T1} {p = without (T.time + 1) p} m1 a1 (omega (arith, t1)) h in
    (
      l1 ++ l2,
      T2,
      rw (run1, run2) (ap (λ o. done (o, T2)) (sym (map-append dispatch l1 l2))),
      λ n. ground (arith, count-append n l1 l2, c1 n, c2 n, t1, ahead n),
      Models-same m2 (λ n. ground (arith, t1, ahead n)),
      λ n q. ground (arith, a2 n, t1, ahead n),
      omega (arith, t1, t2),
      s2 ∙ s1,
    )

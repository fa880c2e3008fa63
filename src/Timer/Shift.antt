-- ===== src/Timer/Shift.antt =====
-- `timer_shift` of skynet-src/skynet_timer.c: it ends within four rounds unless the time becomes 0,
-- and moves nodes without losing or adding any.
use skynet_note.Base.{
  ℕ, zero, suc, ◌+◌, ◌-◌, ◌*◌, ◌/◌, ◌%◌, ◌^◌, ◌≤◌, ◌<◌, ◌≡◌, ◌≢◌, inl, inr, refl, ap, ◌∙◌, sym,
  true, false, [], arith, ◌==◌, dec_lt, leb, if◌then◌else◌, Bool-cases, ==_iff, bit_and,
  bit_and_mask, zero-bit_and,
}
use skynet_note.Timer.{
  Run, done, unfinished, Node, Slot, wheel, slot_eq, Timer, word32, sar, shl6, pred32, link_clear,
  add_nodes, shift_loop, timer_shift,
}
use skynet_note.Timer.Place.{place}
use skynet_note.Timer.Cascade.{cascade, slot_eq-eq, place_stay, place_turn}
use skynet_note.Timer.Pending.{
  count, Models, Models-same, Ahead, AllDue, slot_eq-sym, add_nodes-Models,
}

-- Taking a list apart.
abbrev take_apart : Timer → Slot → Run Timer
take_apart T s = add_nodes (link_clear T s) (T.slots s)

-- One round of the loop at level `i`, below which the time is at a turn.
shift_round :
    (fuel : ℕ) (T : Timer) (mask time i : ℕ)
    → bit_and T.time (pred32 mask) ≡ 0
    → i < 4
    → shift_loop (suc fuel) T mask time i ≡ (
        if time % 64 == 0
        then shift_loop fuel T (shl6 mask) (sar time 6) (i + 1)
        else take_apart T (wheel i (time % 64 - 1)))
unfolding shift_loop
shift_round fuel T mask time i h small =
    let inside : leb 4 i ≡ false = ground arith in rw (bit_and_mask 6 time, h, inside)

-- The time of the loop at each level: `b` with copies of the sign bit above it.
sar_low : (x : ℕ) → x < word32 → (sar x 8 < word32) × (sar x 8 % 2 ^ 24 ≡ x / 256)
sar_low x h = ground arith

sar_step_0 :
    (t b : ℕ) → t < word32 → t % 2 ^ 24 ≡ b → (sar t 6 < word32) × (sar t 6 % 2 ^ 18 ≡ b / 64)
sar_step_0 t b h e = ground arith

sar_step_1 :
    (t b : ℕ) → t < word32 → t % 2 ^ 18 ≡ b → (sar t 6 < word32) × (sar t 6 % 2 ^ 12 ≡ b / 64)
sar_step_1 t b h e = ground arith

sar_step_2 :
    (t b : ℕ) → t < word32 → t % 2 ^ 12 ≡ b → (sar t 6 < word32) × (sar t 6 % 2 ^ 6 ≡ b / 64)
sar_step_2 t b h e = ground arith

-- The loop from each level on, for a time that is `b` slots of it.
shift_3 :
    (fuel : ℕ) (T : Timer) (time b : ℕ)
    → T.time ≡ b * 2 ^ 26
    → time < word32
    → time % 2 ^ 6 ≡ b
    → b ≢ 0
    → shift_loop (suc fuel) T (2 ^ 26) time 3 ≡ take_apart T (cascade 0 3 b)
unfolding cascade
shift_3 fuel T time b at small low pos =
    let index : time % 64 ≡ b % 64 = omega arith in
    let turn : bit_and T.time (pred32 (2 ^ 26)) ≡ 0 = bit_and_mask 26 T.time ∙ omega arith in
    shift_round fuel T (2 ^ 26) time 3 turn (omega arith) ∙ (elim (Bool-cases (b % 64 == 0)) [
      | inl round ↦ absurd (ground arith)
      | inr stay ↦ rw (index, stay)
    ])

shift_2 :
    (fuel : ℕ) (T : Timer) (time b : ℕ)
    → T.time ≡ b * 2 ^ 20
    → time < word32
    → time % 2 ^ 12 ≡ b
    → b ≢ 0
    → shift_loop (suc (suc fuel)) T (2 ^ 20) time 2 ≡ take_apart T (cascade 1 2 b)
unfolding cascade
shift_2 fuel T time b at small low pos =
    let index : time % 64 ≡ b % 64 = omega arith in
    let turn : bit_and T.time (pred32 (2 ^ 20)) ≡ 0 = bit_and_mask 20 T.time ∙ omega arith in
    shift_round (suc fuel) T (2 ^ 20) time 2 turn (omega arith) ∙ (elim (Bool-cases (b % 64 == 0)) [
      | inl round ↦
          let (small', low') = sar_step_2 time b small low in
          rw (index, round)
            (shift_3 fuel T (sar time 6) (b / 64) (ground arith) small' low' (ground arith))
      | inr stay ↦ rw (index, stay)
    ])

shift_1 :
    (fuel : ℕ) (T : Timer) (time b : ℕ)
    → T.time ≡ b * 2 ^ 14
    → time < word32
    → time % 2 ^ 18 ≡ b
    → b ≢ 0
    → shift_loop (suc (suc (suc fuel))) T (2 ^ 14) time 1 ≡ take_apart T (cascade 2 1 b)
unfolding cascade
shift_1 fuel T time b at small low pos =
    let index : time % 64 ≡ b % 64 = omega arith in
    let turn : bit_and T.time (pred32 (2 ^ 14)) ≡ 0 = bit_and_mask 14 T.time ∙ omega arith in
    shift_round (suc (suc fuel)) T (2 ^ 14) time 1 turn (omega arith)
    ∙ (elim (Bool-cases (b % 64 == 0)) [
      | inl round ↦
          let (small', low') = sar_step_1 time b small low in
          rw (index, round)
            (shift_2 fuel T (sar time 6) (b / 64) (ground arith) small' low' (ground arith))
      | inr stay ↦ rw (index, stay)
    ])

shift_0 :
    (fuel : ℕ) (T : Timer) (time b : ℕ)
    → T.time ≡ b * 2 ^ 8
    → time < word32
    → time % 2 ^ 24 ≡ b
    → b ≢ 0
    → shift_loop (suc (suc (suc (suc fuel)))) T (2 ^ 8) time 0 ≡ take_apart T (cascade 3 0 b)
unfolding cascade
shift_0 fuel T time b at small low pos =
    let index : time % 64 ≡ b % 64 = omega arith in
    let turn : bit_and T.time (pred32 (2 ^ 8)) ≡ 0 = bit_and_mask 8 T.time ∙ omega arith in
    shift_round (suc (suc (suc fuel))) T (2 ^ 8) time 0 turn (omega arith)
    ∙ (elim (Bool-cases (b % 64 == 0)) [
      | inl round ↦
          let (small', low') = sar_step_0 time b small low in
          rw (index, round)
            (shift_1 fuel T (sar time 6) (b / 64) (ground arith) small' low' (ground arith))
      | inr stay ↦ rw (index, stay)
    ])

-- At a turn of the near lists the loop takes one list apart, if the time is not 0.
shift_cascade :
    (fuel : ℕ) (T : Timer)
    → T.time < word32
    → T.time % 256 ≡ 0
    → T.time ≢ 0
    → shift_loop (suc (suc (suc (suc fuel)))) T 256 (sar T.time 8) 0
      ≡ take_apart T (cascade 3 0 (T.time / 256))
shift_cascade fuel T small turn pos =
    let (small', low) = sar_low T.time small in
    shift_0 fuel T (sar T.time 8) (T.time / 256) (omega arith) small' low (omega arith)

-- Between turns it does nothing.
shift_skip :
    (fuel : ℕ) (T : Timer) (time : ℕ)
    → (T.time % 256 == 0) ≡ false
    → shift_loop (suc fuel) T 256 time 0 ≡ done T
unfolding shift_loop
shift_skip fuel T time stay = rw (bit_and_mask 8 T.time, stay)

-- Once the time is 0 the loop goes on for ever: no level has an index that is not 0.
loop_forever :
    (fuel : ℕ) (T : Timer) (mask i : ℕ) → T.time ≡ 0 → shift_loop fuel T mask 0 i ≡ unfinished
unfolding shift_loop
loop_forever zero T mask i h = refl
loop_forever (suc fuel) T mask i h =
    let turn : bit_and T.time (pred32 mask) ≡ 0 =
      ap (λ t. bit_and t (pred32 mask)) h ∙ zero-bit_and (pred32 mask) in
    rw (turn, zero-bit_and 63) (loop_forever fuel T (shl6 mask) (i + 1) h)

-- The tick that brings the 32-bit time back to 0 does not end: whatever the fuel, the loop of
-- `timer_shift` is still running.
pub timer_shift_wraps :
    (fuel : ℕ) (T : Timer) → T.time + 1 ≡ word32 → timer_shift fuel T ≡ unfinished
unfolding timer_shift
timer_shift_wraps fuel T h =
    let z : (T.time + 1) % word32 ≡ 0 = ap (λ t. t % word32) h in
    rw z (loop_forever fuel (record T { time = 0 }) 256 0 refl)

-- The wheel after the list `s` has been taken out, at the next time.
module _ {T : Timer} {p : Node → ℕ} (m : Models T p) (ahead : Ahead T p) where
  abbrev next_time : Timer
  next_time = record T { time = T.time + 1 }

  next_due : (n : Node) → 0 < p n → (T.time + 1 ≤ n.expire) × (n.expire < word32)
  next_due n h = omega (arith, ahead n h, m.due n h)

  skip-Models : ((T.time + 1) % 256 == 0) ≡ false → Models next_time p
  skip-Models stay = record {
    cells = λ s n.
        m.cells s n
        ∙ ap (λ r. if slot_eq r s then p n else 0) (sym (place_stay n.expire T.time stay));
    due = next_due;
  }

  module _ (turn : ((T.time + 1) % 256 == 0) ≡ true) where
    abbrev taken : Slot
    taken = cascade 3 0 ((T.time + 1) / 256)

    abbrev others : Node → ℕ
    others n = if slot_eq taken (place T.time n.expire) then 0 else p n

    -- What stays where it is, list by list.
    others_cell :
        (s : Slot) (n : Node)
        → count n (if slot_eq taken s then [] else T.slots s)
          ≡ (if slot_eq (place (T.time + 1) n.expire) s then others n else 0)
    others_cell s n = elim (dec_lt 0 (p n)) [
      | no gone ↦ ground (arith, m.cells s n)
      | yes some_left ↦
          elim (place_turn n.expire T.time (ahead n some_left) (m.due n some_left).1 turn) [
            | inl (hit, miss) ↦
                let e : taken ≡ place T.time n.expire = slot_eq-eq _ _ hit in
                ground (arith, m.cells s n, hit, ap (λ r. slot_eq r s) e)
            | inr (miss, same) ↦ elim (Bool-cases (slot_eq taken s)) [
              | inl here ↦
                  let e : taken ≡ s = slot_eq-eq _ _ here in
                  ground (
                    arith,
                    here,
                    miss,
                    ap (λ r. slot_eq r s) same,
                    ap (λ r. slot_eq r (place T.time n.expire)) e,
                    slot_eq-sym s (place T.time n.expire),
                  )
              | inr there ↦ ground (arith, m.cells s n, there, miss, ap (λ r. slot_eq r s) same)
            ]
          ]
    ]

    others-Models : Models (link_clear next_time taken) others
    unfolding link_clear
    others-Models = record { cells = others_cell; due = λ n h. next_due n (ground arith) }

    taken-AllDue : AllDue (T.time + 1) (T.slots taken)
    taken-AllDue n h = next_due n (ground (arith, m.cells taken n))

    turn-Models :
        (T' : Timer) × (take_apart next_time taken ≡ done T')
        × Models T' p
        × (T'.time ≡ T.time + 1)
        × (T'.current ≡ T.current)
    unfolding link_clear
    turn-Models =
        let (T', e, m', t, c) = add_nodes-Models (T.slots taken) others-Models taken-AllDue in
        (
          T',
          e,
          Models-same m'
              (λ n. ground (arith, m.cells taken n, slot_eq-sym (place T.time n.expire) taken)),
          t,
          c,
        )

-- Shifting to the next tick keeps every pending node, if the time does not come back to 0.
pub timer_shift-Models :
    (fuel : ℕ) {T : Timer} {p : Node → ℕ}
    → Models T p
    → Ahead T p
    → T.time + 1 < word32
    → 4 ≤ fuel
    → (T' : Timer) × (timer_shift fuel T ≡ done T')
      × Models T' p
      × (T'.time ≡ T.time + 1)
      × (T'.current ≡ T.current)
unfolding timer_shift
timer_shift-Models (suc (suc (suc (suc fuel)))) {T} {p} m ahead small h =
    let e : (T.time + 1) % word32 ≡ T.time + 1 = omega arith in
    elim (Bool-cases ((T.time + 1) % 256 == 0)) [
      | inl turn ↦
          let (T', run, m', t, c) = turn-Models m ahead turn in
          (
            T',
            rw e (
                shift_cascade fuel (next_time m ahead) small ((==_iff _ _).0 turn) (omega arith)
                ∙ run),
            m',
            t,
            c,
          )
      | inr stay ↦ (
        next_time m ahead,
        rw e (shift_skip (suc (suc (suc fuel))) (next_time m ahead) _ stay),
        skip-Models m ahead stay,
        refl,
        refl,
      )
    ]
timer_shift-Models _ m ahead small h = absurd (omega arith)

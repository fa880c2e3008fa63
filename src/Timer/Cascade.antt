-- ===== src/Timer/Cascade.antt =====
-- Which list `timer_shift` of skynet-src/skynet_timer.c takes apart at a tick, and why the places
-- of all other nodes stay the same.
use native.Mathlib.Nat.{pow-suc}
use skynet_note.Base.{
  ℕ, zero, suc, ◌+◌, ◌-◌, ◌/◌, ◌%◌, ◌^◌, ◌≤◌, ◌<◌, ◌≡◌, ◌⊎◌, inl, inr, refl, true, false, arith,
  ◌==◌, if◌then◌else◌, Bool-cases,
}
use skynet_note.Timer.{Slot, near, wheel, slot_eq, word32}
use skynet_note.Timer.Place.{climb, place}

-- The list that is taken apart when the count of slots of level `i` becomes `now`: that of the
-- lowest level whose index is not 0.
unfoldable pub cascade : ℕ → ℕ → ℕ → Slot
cascade zero i now = wheel i (now % 64 - 1)
cascade (suc n) i now =
    let up = cascade n (i + 1) (now / 64) in if now % 64 == 0 then up else wheel i (now % 64 - 1)

-- The level of a slot
abbrev pub AtLeast : ℕ → Slot → Type 0
AtLeast i (near j) = ⊥
AtLeast i (wheel k j) = i ≤ k

AtLeast-down : (i : ℕ) (s : Slot) → AtLeast (i + 1) s → AtLeast i s
AtLeast-down i (near j) h = h
AtLeast-down i (wheel k j) h = omega arith

climb-AtLeast : (n i e now : ℕ) → AtLeast i (climb n i e now)
unfolding climb
climb-AtLeast zero i e now = omega arith
climb-AtLeast (suc n) i e now = elim (Bool-cases (e / 64 == now / 64)) [
  | inl same ↦ rw same (omega arith)
  | inr apart ↦ rw apart (AtLeast-down i _ (climb-AtLeast n (i + 1) (e / 64) (now / 64)))
]

cascade-AtLeast : (n i now : ℕ) → AtLeast i (cascade n i now)
unfolding cascade
cascade-AtLeast zero i now = omega arith
cascade-AtLeast (suc n) i now = elim (Bool-cases (now % 64 == 0)) [
  | inl turn ↦ rw turn (AtLeast-down i _ (cascade-AtLeast n (i + 1) (now / 64)))
  | inr stay ↦ rw stay (omega arith)
]

AtLeast-zero : (i : ℕ) (s : Slot) → AtLeast i s → AtLeast 0 s
AtLeast-zero i (near j) h = h
AtLeast-zero i (wheel k j) h = omega arith

near_ne : (j : ℕ) (s : Slot) → AtLeast 0 s → slot_eq s (near j) ≡ false
near_ne j (near k) h = absurd h
near_ne j (wheel k l) h = refl

pub climb-near : (n i e now j : ℕ) → slot_eq (climb n i e now) (near j) ≡ false
climb-near n i e now j = near_ne j _ (AtLeast-zero i _ (climb-AtLeast n i e now))

below_ne : (i j : ℕ) (s : Slot) → AtLeast (i + 1) s → slot_eq s (wheel i j) ≡ false
below_ne i j (near k) h = refl
below_ne i j (wheel k l) h = ground arith

above_ne : (i j : ℕ) (s : Slot) → AtLeast (i + 1) s → slot_eq (wheel i j) s ≡ false
above_ne i j (near k) h = refl
above_ne i j (wheel k l) h = ground arith

pub slot_eq_refl : (s : Slot) → slot_eq s s ≡ true
slot_eq_refl (near j) = ground arith
slot_eq_refl (wheel i j) = ground arith

pub slot_eq-eq : (s r : Slot) → slot_eq s r ≡ true → s ≡ r
slot_eq-eq (near j) (near k) h = ground arith
slot_eq-eq (near j) (wheel k l) h = cc
slot_eq-eq (wheel i j) (near k) h = cc
slot_eq-eq (wheel i j) (wheel k l) h = ground arith

-- A node in slot `e` of level `i`, at the step from slot `now` to the next: it is in the list that
-- is taken apart, and then has reached the slot or goes to a lower level, or its place stays.
abbrev Moves : ℕ → ℕ → ℕ → ℕ → Type 0
Moves n i e now =
    let s = cascade n i (now + 1) in
    (slot_eq s (climb n i e now) ≡ true)
      × ((e ≡ now + 1) ⊎ ((e == (now + 1)) ≡ false) × (slot_eq s (climb n i e (now + 1)) ≡ false))
    ⊎ (slot_eq s (climb n i e now) ≡ false)
      × ((e == (now + 1)) ≡ false)
      × (climb n i e (now + 1) ≡ climb n i e now)

Moves-top : (i e now : ℕ) → now < e → e < 64 → Moves 0 i e now
unfolding climb cascade
Moves-top i e now later small = elim (Bool-cases (e == (now + 1))) [
  | inl reached ↦ inl (ground arith, inl (ground arith))
  | inr ahead ↦ inr (ground arith, ahead, refl)
]

-- The index moves within the wheel.
Moves-stay : (n i e now : ℕ) → now < e → ((now + 1) % 64 == 0) ≡ false → Moves (suc n) i e now
unfolding climb cascade
Moves-stay n i e now later stay =
    let same : (now + 1) / 64 ≡ now / 64 = ground arith in
    elim (Bool-cases (e / 64 == now / 64)) [
      | inl turn ↦ elim (Bool-cases (e == (now + 1))) [
        | inl reached ↦ rw (stay, turn) (inl (ground arith, inl (ground arith)))
        | inr ahead ↦ rw (stay, same, turn) (inr (ground arith, ahead, refl))
      ]
      | inr apart ↦
          rw (stay, same, apart)
            (inr (above_ne i _ _ (climb-AtLeast n (i + 1) (e / 64) (now / 64)), ground arith, refl))
    ]

-- The index goes round, and the level above moves.
Moves-turn :
    (n i e now : ℕ)
    → now < e
    → ((now + 1) % 64 == 0) ≡ true
    → Moves n (i + 1) (e / 64) (now / 64)
    → Moves (suc n) i e now
unfolding climb cascade
Moves-turn n i e now later turn up =
    let next : (now + 1) / 64 ≡ now / 64 + 1 = ground arith in
    let apart : (e / 64 == now / 64) ≡ false = ground arith in
    rw (turn, next, apart)
      (elim up [
        | inl (hit, inl reached) ↦ inl (
          hit,
          elim (Bool-cases (e == (now + 1))) [
            | inl now_due ↦ inl (ground arith)
            | inr later_due ↦
                let arrived : (e / 64 == (now / 64 + 1)) ≡ true = ground arith in
                inr (
                  later_due,
                  rw arrived (below_ne i _ _ (cascade-AtLeast n (i + 1) (now / 64 + 1))),
                )
          ],
        )
        | inl (hit, inr (ahead, miss)) ↦ inl (hit, inr (ground arith, rw ahead miss))
        | inr (miss, ahead, same) ↦ inr (miss, ground arith, rw ahead same)
      ])

climb-Moves : (n i e now : ℕ) → now < e → e < 64 ^ suc n → Moves n i e now
climb-Moves zero i e now later small = Moves-top i e now later (omega arith)
climb-Moves (suc n) i e now later small = elim (Bool-cases ((now + 1) % 64 == 0)) [
  | inl turn ↦
      let up : now / 64 < e / 64 = ground arith in
      Moves-turn n i e now later turn
        (climb-Moves n (i + 1) (e / 64) (now / 64) up (omega (arith, pow-suc 64 (suc n))))
  | inr stay ↦ Moves-stay n i e now later stay
]

-- Between two turns of the near lists nothing moves.
pub place_stay : (e now : ℕ) → ((now + 1) % 256 == 0) ≡ false → place (now + 1) e ≡ place now e
unfolding place
place_stay e now stay = let same : (now + 1) / 256 ≡ now / 256 = ground arith in rw same

-- At a turn, a node that is not yet due is in the list that is taken apart and leaves it, or its
-- place stays.
pub place_turn :
    (e now : ℕ)
    → now < e
    → e < word32
    → ((now + 1) % 256 == 0) ≡ true
    → let s = cascade 3 0 ((now + 1) / 256) in
      (slot_eq s (place now e) ≡ true) × (slot_eq s (place (now + 1) e) ≡ false)
      ⊎ (slot_eq s (place now e) ≡ false) × (place (now + 1) e ≡ place now e)
unfolding place
place_turn e now later small turn =
    let next : (now + 1) / 256 ≡ now / 256 + 1 = ground arith in
    let apart : (e / 256 == now / 256) ≡ false = ground arith in
    let up : now / 256 < e / 256 = ground arith in
    rw (next, apart)
      (elim (climb-Moves 3 0 (e / 256) (now / 256) up (omega arith)) [
        | inl (hit, inl reached) ↦
            let arrived : (e / 256 == (now / 256 + 1)) ≡ true = ground arith in
            inl (hit, rw arrived (near_ne _ _ (cascade-AtLeast 3 0 (now / 256 + 1))))
        | inl (hit, inr (ahead, miss)) ↦ inl (hit, rw ahead miss)
        | inr (miss, ahead, same) ↦ inr (miss, rw ahead same)
      ])

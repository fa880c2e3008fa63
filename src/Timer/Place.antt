-- ===== src/Timer/Place.antt =====
-- Where `add_node` of skynet-src/skynet_timer.c puts a node, in terms of division: near if the
-- expiry is in the current block of 256 ticks, else the lowest wheel whose turn is the current one.
use skynet_note.Base.{
  ℕ, zero, suc, ◌+◌, ◌-◌, ◌*◌, ◌/◌, ◌%◌, ◌^◌, ◌≤◌, ◌<◌, ◌≡◌, inl, inr, ◌∙◌, ap₂, true, false, arith,
  ◌==◌, if◌then◌else◌, Bool-cases, ==_iff, bit_and, bit_or, bit_and_mask, bit_or_mask-eq,
}
use skynet_note.Timer.{
  done, aborted, timer_add, Node, Slot, near, wheel, Timer, word32, sar, link, find_level, add_node,
}

-- The wheels from level `i` on, `n` of them above it, for times measured in slots of level `i`.
unfoldable pub climb : ℕ → ℕ → ℕ → ℕ → Slot
climb zero i e now = wheel i (e % 64 - 1)
climb (suc n) i e now =
    let up = climb n (i + 1) (e / 64) (now / 64) in
    if e / 64 == now / 64 then wheel i (e % 64 - 1) else up

unfoldable pub place : ℕ → ℕ → Slot
unfolding climb
place now e = if e / 256 == now / 256 then near (e % 256) else climb 3 0 (e / 256) (now / 256)

-- The comparison of the code at a mask of `k` ones
mask_test : (k a b : ℕ) → (bit_or a (2 ^ k - 1) == bit_or b (2 ^ k - 1)) ≡ (a / 2 ^ k == b / 2 ^ k)
mask_test k a b = ground (arith, bit_or_mask-eq k a b)

-- The four comparisons, by repeated division.
module _ (a b : ℕ) where
  test_near : (bit_or a 255 == bit_or b 255) ≡ (a / 256 == b / 256)
  test_near = mask_test 8 a b

  test_0 : (bit_or a 16383 == bit_or b 16383) ≡ (a / 256 / 64 == b / 256 / 64)
  test_0 = mask_test 14 a b ∙ ap₂ ◌==◌ (omega arith) (omega arith)

  test_1 : (bit_or a 1048575 == bit_or b 1048575) ≡ (a / 256 / 64 / 64 == b / 256 / 64 / 64)
  test_1 = mask_test 20 a b ∙ ap₂ ◌==◌ (omega arith) (omega arith)

  test_2 :
      (bit_or a 67108863 == bit_or b 67108863) ≡ (a / 256 / 64 / 64 / 64 == b / 256 / 64 / 64 / 64)
  test_2 = mask_test 26 a b ∙ ap₂ ◌==◌ (omega arith) (omega arith)

-- The index into each wheel, by repeated division: the copies of the sign bit are masked off.
module _ (e : ℕ) (small : e < word32) where
  index_0 : bit_and (sar e 8) 63 ≡ e / 256 % 64
  index_0 = bit_and_mask 6 (sar e 8) ∙ ground arith

  index_1 : bit_and (sar e 14) 63 ≡ e / 256 / 64 % 64
  index_1 = bit_and_mask 6 (sar e 14) ∙ ground arith

  index_2 : bit_and (sar e 20) 63 ≡ e / 256 / 64 / 64 % 64
  index_2 = bit_and_mask 6 (sar e 20) ∙ ground arith

  index_3 : bit_and (sar e 26) 63 ≡ e / 256 / 64 / 64 / 64 % 64
  index_3 = bit_and_mask 6 (sar e 26) ∙ ground arith

-- A time no earlier than now, in the same turn of a wheel but not the same slot, has index > 0.
index_pos : (a b : ℕ) → b ≤ a → (a == b) ≡ false → a / 64 ≡ b / 64 → (a % 64 == 0) ≡ false
index_pos a b h ne same = ground arith

top_pos : (a b : ℕ) → b ≤ a → (a == b) ≡ false → a < 64 → (a % 64 == 0) ≡ false
top_pos a b h ne small = ground arith

-- The level that the loop of `add_node` finds, and the index there.
record Found (T : Timer) (node : Node) (s : Slot) (i idx : ℕ) : Type 0 where
  level : find_level 3 node.expire T.time (256 * 64) 0 ≡ i
  index : bit_and (sar node.expire (8 + i * 6)) 63 ≡ idx
  inside : (idx == 0) ≡ false
  target : wheel i (idx - 1) ≡ s

Found-add_node :
    (T : Timer) (node : Node) {s : Slot} {i idx : ℕ}
    → (node.expire / 256 == T.time / 256) ≡ false
    → Found T node s i idx
    → add_node T node ≡ done (link T s node)
unfolding add_node
Found-add_node T node far f =
    rw (test_near node.expire T.time, far, f.level, f.index, f.inside, f.target)

module _ (T : Timer) (node : Node) (h : T.time ≤ node.expire) (small : node.expire < word32) where
  open T use {time as t}
  open node use {expire as e}

  far-Found :
      (e / 256 == t / 256) ≡ false
      → (i : ℕ) × (idx : ℕ) × Found T node (climb 3 0 (e / 256) (t / 256)) i idx
  unfolding climb find_level
  far-Found p = elim (Bool-cases (e / 256 / 64 == t / 256 / 64)) [
    | inl a ↦ (
      0,
      e / 256 % 64,
      record {
        level = rw (test_0 e t, a);
        index = index_0 e small;
        inside = index_pos (e / 256) (t / 256) (omega arith) p ((==_iff _ _).0 a);
        target = rw a;
      },
    )
    | inr a ↦ elim (Bool-cases (e / 256 / 64 / 64 == t / 256 / 64 / 64)) [
      | inl b ↦ (
        1,
        e / 256 / 64 % 64,
        record {
          level = rw (test_0 e t, a, test_1 e t, b);
          index = index_1 e small;
          inside = index_pos (e / 256 / 64) (t / 256 / 64) (omega arith) a ((==_iff _ _).0 b);
          target = rw (a, b);
        },
      )
      | inr b ↦ elim (Bool-cases (e / 256 / 64 / 64 / 64 == t / 256 / 64 / 64 / 64)) [
        | inl c ↦ (
          2,
          e / 256 / 64 / 64 % 64,
          record {
            level = rw (test_0 e t, a, test_1 e t, b, test_2 e t, c);
            index = index_2 e small;
            inside =
                index_pos (e / 256 / 64 / 64) (t / 256 / 64 / 64) (omega arith) b
                  ((==_iff _ _).0 c);
            target = rw (a, b, c);
          },
        )
        | inr c ↦ (
          3,
          e / 256 / 64 / 64 / 64 % 64,
          record {
            level = rw (test_0 e t, a, test_1 e t, b, test_2 e t, c);
            index = index_3 e small;
            inside =
                top_pos (e / 256 / 64 / 64 / 64) (t / 256 / 64 / 64 / 64) (omega arith) c
                  (omega arith);
            target = rw (a, b, c);
          },
        )
      ]
    ]
  ]

  near_lem : (e / 256 == t / 256) ≡ true → add_node T node ≡ done (link T (near (e % 256)) node)
  unfolding add_node
  near_lem p = rw (test_near e t, p, bit_and_mask 8 e)

  -- A node that expires no earlier than now is put in its place.
  pub add_node_lem : add_node T node ≡ done (link T (place t e) node)
  unfolding place
  add_node_lem = elim (Bool-cases (e / 256 == t / 256)) [
    | inl p ↦ rw p (near_lem p)
    | inr p ↦ let (i, idx, f) = far-Found p in rw p (Found-add_node T node p f)
  ]

-- A timeout that wraps past 0 into the first 2 ^ 26 ticks, set when the time is beyond them, is
-- given index -1 of the last wheel.
pub timer_add-underflows :
    (T : Timer) (handle session time : ℕ)
    → T.time < word32
    → 2 ^ 26 ≤ T.time
    → word32 ≤ time + T.time
    → time + T.time < word32 + 2 ^ 26
    → timer_add T handle session time ≡ aborted
unfolding timer_add add_node find_level
timer_add-underflows T handle session time fits late wraps low =
    let e : ℕ = (time + T.time) % word32 in
    let small : e < word32 = omega arith in
    let n : (e / 256 == T.time / 256) ≡ false = ground arith in
    let a : (e / 256 / 64 == T.time / 256 / 64) ≡ false = ground arith in
    let b : (e / 256 / 64 / 64 == T.time / 256 / 64 / 64) ≡ false = ground arith in
    let c : (e / 256 / 64 / 64 / 64 == T.time / 256 / 64 / 64 / 64) ≡ false = ground arith in
    let z : e / 256 / 64 / 64 / 64 % 64 ≡ 0 = omega arith in
    rw (
      test_near e T.time,
      n,
      test_0 e T.time,
      a,
      test_1 e T.time,
      b,
      test_2 e T.time,
      c,
      index_3 e small,
      z,
    )

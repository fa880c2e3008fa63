-- ===== src/Handle/Slots.antt =====
-- The slots of skynet-src/skynet_handle.c: what is well formed, and what the scan for an empty slot
-- finds.
use native.Mathlib.Nat.{
  mod-mod_of_dvd, dvd_refl, dvd-mul_right_of_dvd, pow-suc, mod-add-mod, add-mul-mod_self_right,
  mod-eq_of_lt, div-add-mod, mod-lt,
}
use Prim.Native.Nat.{◌∣◌}
use skynet_note.Base.{
  ℕ, zero, suc, ◌+◌, ◌-◌, ◌*◌, ◌/◌, ◌%◌, ◌^◌, ◌≤◌, ◌<◌, ◌≡◌, ◌≢◌, inl, inr, ap, ◌∙◌, sym, subst,
  none, some, arith, dec_lt, Option-cases, bit_and, bit_and_mask, length, get_or, low_ones_lem,
}
use skynet_note.Handle.{Storage, word32, hash, candidate, scan}

-- The slots number `2 ^ k`; a context stands in the slot of its handle, and its handle carries the
-- harbor of the storage above 24 bits.
pub record Valid (handle_of : ℕ → ℕ) (s : Storage) (k : ℕ) : Type 0 where
  pub size : s.slot_size ≡ 2 ^ k
  pub bits : k ≤ 24
  pub storage : length s.slot ≡ 2 ^ k
  pub placed : (i c : ℕ) → get_or s.slot i none ≡ some c → handle_of c % 2 ^ k ≡ i

pub hash_lem : (s : Storage) (k h : ℕ) → s.slot_size ≡ 2 ^ k → hash s.slot_size h ≡ h % 2 ^ k
hash_lem s k h e = ap (λ n. bit_and h (n - 1)) e ∙ bit_and_mask k h

pub two_pow_pos : (k : ℕ) → 0 < 2 ^ k
two_pow_pos k = omega (arith, low_ones_lem k)

pub two_pow-dvd : (k n : ℕ) → k ≤ n → 2 ^ k ∣ 2 ^ n
two_pow-dvd k zero h = let top : 0 ≡ k = omega arith in subst (λ j. 2 ^ j ∣ 1) top (dvd_refl 1)
two_pow-dvd k (suc n) h = elim (dec_lt n k) [
  | yes top ↦
      let same : suc n ≡ k = omega (arith, top, h) in
      subst (λ j. 2 ^ k ∣ 2 ^ j) (sym same) (dvd_refl (2 ^ k))
  | no below ↦
      subst (λ t. 2 ^ k ∣ t) (sym (pow-suc 2 n))
        (dvd-mul_right_of_dvd (2 ^ k) (two_pow-dvd k n (omega arith)) 2)
]

-- Modulo the number of slots, round `i` tries the handle `i` after the index.
pub candidate_mod :
    (s : Storage) (k i : ℕ) → k ≤ 24 → candidate s i % 2 ^ k ≡ (i + s.handle_index) % 2 ^ k
candidate_mod s k i h =
    ap (λ t. t % 2 ^ k) (bit_and_mask 24 ((i + s.handle_index) % word32))
    ∙ mod-mod_of_dvd (2 ^ k) ((i + s.handle_index) % 2 ^ 32) (two_pow-dvd k 24 h)
    ∙ mod-mod_of_dvd (2 ^ k) (i + s.handle_index) (two_pow-dvd k 32 (omega arith))

pub candidate-lt : (s : Storage) (i : ℕ) → candidate s i < 2 ^ 24
candidate-lt s i = omega (arith, bit_and_mask 24 ((i + s.handle_index) % word32))

-- Some number of steps from `x` leads to each remainder.
turn : (m e x : ℕ) → e < m → ((e + m - x % m) % m + x) % m ≡ e
turn m e x h =
    let r : x % m < m = mod-lt x (omega arith) in
    let split : m * (x / m) + x % m ≡ x = div-add-mod x m in
    let sum : e + m - x % m + x ≡ e + (x / m + 1) * m = grind arith in
    mod-add-mod (e + m - x % m) m x
    ∙ ap (λ t. t % m) sum
    ∙ add-mul-mod_self_right e (x / m + 1) m
    ∙ mod-eq_of_lt h

pub scan-some :
    (n i : ℕ) (s : Storage) (h : ℕ)
    → scan n i s ≡ some h
    → (get_or s.slot (hash s.slot_size h) none ≡ none) × (h < 2 ^ 24)
unfolding scan
scan-some zero i s h e = cc
scan-some (suc n) i s h e =
    elim (Option-cases (get_or s.slot (hash s.slot_size (candidate s i)) none)) [
      | inl free ↦
          let same : candidate s i ≡ h = ground (arith, e, free) in
          (rw (← same) free, omega (arith, candidate-lt s i, same))
      | inr (c, full) ↦ scan-some n (i + 1) s h (ground (arith, e, full))
    ]

-- A scan that finds nothing has met a context in each of its rounds.
pub scan-none :
    (n i j : ℕ) (s : Storage)
    → scan n i s ≡ none
    → j < n
    → get_or s.slot (hash s.slot_size (candidate s (j + i))) none ≢ none
unfolding scan
scan-none zero i j s e h = λ free. omega (arith, h)
scan-none (suc n) i zero s e h = λ free. ground (arith, e, free)
scan-none (suc n) i (suc j) s e h =
    elim (Option-cases (get_or s.slot (hash s.slot_size (candidate s i)) none)) [
      | inl free ↦ λ g. ground (arith, e, free)
      | inr (c, full) ↦
          let next : j + (i + 1) ≡ suc j + i = omega arith in
          rw (← next) (scan-none n (i + 1) j s (ground (arith, e, full)) (omega arith))
    ]

-- So when the loop finds no empty slot, no slot is empty.
pub scan-full :
    (handle_of : ℕ → ℕ) (s : Storage) (k i : ℕ)
    → Valid handle_of s k
    → scan s.slot_size 0 s ≡ none
    → i < 2 ^ k
    → get_or s.slot i none ≢ none
scan-full handle_of s k i v e h =
    let m : ℕ = 2 ^ k in
    let j : ℕ = (i + m - s.handle_index % m) % m in
    let below : j < m = mod-lt (i + m - s.handle_index % m) (two_pow_pos k) in
    let met : get_or s.slot (hash s.slot_size (candidate s (j + 0))) none ≢ none =
      scan-none s.slot_size 0 j s e (omega (arith, below, v.size)) in
    let start : j + 0 ≡ j = omega arith in
    let here : hash s.slot_size (candidate s (j + 0)) ≡ i =
      hash_lem s k (candidate s (j + 0)) v.size
      ∙ candidate_mod s k (j + 0) v.bits
      ∙ ap (λ t. (t + s.handle_index) % m) start
      ∙ turn m i s.handle_index h in
    rw (← here) met

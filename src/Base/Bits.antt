-- ===== src/Base/Bits.antt =====
-- `&` and `|` with a mask of low ones, as arithmetic, at every width.
use Prim.Native.Nat.{
  ℕ, zero, suc, ◌+◌, ◌-◌, ◌*◌, ◌/◌, ◌%◌, ◌^◌, ◌≤◌, ◌<◌, min, max, bit_and, bit_or, digits,
  bit_and-bitwise, bit_or-bitwise,
}
use mathlib.Core.Path.{◌≡◌, refl, ap, ap₂, ◌∙◌, sym, subst}
use mathlib.Core.Logic.{◌↔◌}
use native.Mathlib.Nat.{pow-suc}
use native.Mathlib.Omega.{arith}

-- The native operations stand for a recursion on digits whose fuel is the first number. One more
-- unit than enough changes nothing, and so does any number of units more.
module _ (rest : ℕ → ℕ) (digit : ℕ → ℕ → ℕ) where
  one_more :
      (x y fuel : ℕ) → x ≤ fuel → digits rest digit (suc fuel) x y ≡ digits rest digit fuel x y
  one_more zero y zero small = refl
  one_more zero y (suc fuel) small = refl
  one_more (suc x) y zero small = absurd (omega arith)
  one_more (suc x) y (suc fuel) small =
      let halves : digits rest digit (suc fuel) (suc x / 2) (y / 2)
          ≡ digits rest digit fuel (suc x / 2) (y / 2) =
        one_more (suc x / 2) (y / 2) fuel (omega arith) in
      ap (λ high. high * 2 + digit (suc x % 2) (y % 2)) halves

  many_more :
      (units fuel total x y : ℕ)
      → fuel + units ≡ total
      → x ≤ fuel
      → digits rest digit total x y ≡ digits rest digit fuel x y
  many_more zero fuel total x y e small = ap (λ k. digits rest digit k x y) (omega arith)
  many_more (suc units) fuel zero x y e small = absurd (omega arith)
  many_more (suc units) fuel (suc total) x y e small =
      one_more x y total (omega arith) ∙ many_more units fuel total x y (omega arith) small

pub bit_and_halves : (a b : ℕ) → bit_and a b ≡ bit_and (a / 2) (b / 2) * 2 + min (a % 2) (b % 2)
bit_and_halves zero b = simp bit_and-bitwise (omega arith)
bit_and_halves (suc a) b = simp bit_and-bitwise (
    omega (
      arith,
      many_more (λ y. 0) min (a - suc a / 2) (suc a / 2) a (suc a / 2) (b / 2) (omega arith)
          (omega arith),
    ))

pub bit_or_halves : (a b : ℕ) → bit_or a b ≡ bit_or (a / 2) (b / 2) * 2 + max (a % 2) (b % 2)
bit_or_halves zero b = simp bit_or-bitwise (omega arith)
bit_or_halves (suc a) b = simp bit_or-bitwise (
    omega (
      arith,
      many_more (λ y. y) max (a - suc a / 2) (suc a / 2) a (suc a / 2) (b / 2) (omega arith)
          (omega arith),
    ))

pub zero-bit_and : (b : ℕ) → bit_and 0 b ≡ 0
zero-bit_and b = bit_and-bitwise 0 b

-- `2 ^ k - 1`
abbrev pub low_ones : ℕ → ℕ
low_ones zero = 0
low_ones (suc k) = 2 * low_ones k + 1

pub low_ones_lem : (k : ℕ) → low_ones k + 1 ≡ 2 ^ k
low_ones_lem zero = refl
low_ones_lem (suc k) = omega (arith, low_ones_lem k, pow-suc 2 k)

and_zero_below : (n a : ℕ) → a ≤ n → bit_and a 0 ≡ 0
and_zero_below n zero h = refl
and_zero_below zero (suc a) h = absurd (omega arith)
and_zero_below (suc n) (suc a) h =
    omega (arith, bit_and_halves (suc a) 0, and_zero_below n (suc a / 2) (omega arith))

or_zero_below : (n a : ℕ) → a ≤ n → bit_or a 0 ≡ a
or_zero_below n zero h = refl
or_zero_below zero (suc a) h = absurd (omega arith)
or_zero_below (suc n) (suc a) h =
    omega (arith, bit_or_halves (suc a) 0, or_zero_below n (suc a / 2) (omega arith))

-- Masking keeps the quotient by the power apart from the remainder, one digit at a time.
and_parts : (k q r : ℕ) → r < 2 ^ k → bit_and (q * 2 ^ k + r) (low_ones k) ≡ r
and_parts zero q r h = omega (arith, and_zero_below (q * 1 + r) (q * 1 + r) (omega arith))
and_parts (suc k) q r h =
    let e : (q * 2 ^ suc k + r) / 2 ≡ q * 2 ^ k + r / 2 =
      omega (arith, ap (λ (t : ℕ). q * t) (pow-suc 2 k)) in
    let e' : low_ones (suc k) / 2 ≡ low_ones k = omega arith in
    let p : (q * 2 ^ suc k + r) % 2 ≡ r % 2 = omega (arith, ap (λ (t : ℕ). q * t) (pow-suc 2 k)) in
    let step : bit_and (q * 2 ^ suc k + r) (low_ones (suc k))
        ≡ bit_and (q * 2 ^ k + r / 2) (low_ones k) * 2
          + min ((q * 2 ^ suc k + r) % 2) (low_ones (suc k) % 2) =
      rw (bit_and_halves (q * 2 ^ suc k + r) (low_ones (suc k)), e, e') in
    omega (arith, step, p, and_parts k q (r / 2) (omega (arith, pow-suc 2 k)))

or_parts : (k q r : ℕ) → r < 2 ^ k → bit_or (q * 2 ^ k + r) (low_ones k) ≡ q * 2 ^ k + low_ones k
or_parts zero q r h = omega (arith, or_zero_below (q * 1 + r) (q * 1 + r) (omega arith))
or_parts (suc k) q r h =
    let e : (q * 2 ^ suc k + r) / 2 ≡ q * 2 ^ k + r / 2 =
      omega (arith, ap (λ (t : ℕ). q * t) (pow-suc 2 k)) in
    let e' : low_ones (suc k) / 2 ≡ low_ones k = omega arith in
    let step : bit_or (q * 2 ^ suc k + r) (low_ones (suc k))
        ≡ bit_or (q * 2 ^ k + r / 2) (low_ones k) * 2
          + max ((q * 2 ^ suc k + r) % 2) (low_ones (suc k) % 2) =
      rw (bit_or_halves (q * 2 ^ suc k + r) (low_ones (suc k)), e, e') in
    omega (
      arith,
      step,
      ap (λ (t : ℕ). q * t) (pow-suc 2 k),
      or_parts k q (r / 2) (omega (arith, pow-suc 2 k)),
    )

-- A mask without its low `k` bits selects from the quotient.
pub and_high : (k q r m : ℕ) → r < 2 ^ k → bit_and (q * 2 ^ k + r) (m * 2 ^ k) ≡ bit_and q m * 2 ^ k
and_high zero q r m h =
    let e : q * 1 + r ≡ q = omega arith in
    let e' : m * 1 ≡ m = omega arith in omega (arith, ap₂ bit_and e e')
and_high (suc k) q r m h =
    let e : (q * 2 ^ suc k + r) / 2 ≡ q * 2 ^ k + r / 2 =
      omega (arith, ap (λ (t : ℕ). q * t) (pow-suc 2 k)) in
    let e' : m * 2 ^ suc k / 2 ≡ m * 2 ^ k = omega (arith, ap (λ (t : ℕ). m * t) (pow-suc 2 k)) in
    let step : bit_and (q * 2 ^ suc k + r) (m * 2 ^ suc k)
        ≡ bit_and (q * 2 ^ k + r / 2) (m * 2 ^ k) * 2
          + min ((q * 2 ^ suc k + r) % 2) (m * 2 ^ suc k % 2) =
      rw (bit_and_halves (q * 2 ^ suc k + r) (m * 2 ^ suc k), e, e') in
    omega (
      arith,
      step,
      ap (λ (t : ℕ). m * t) (pow-suc 2 k),
      ap (λ (t : ℕ). bit_and q m * t) (pow-suc 2 k),
      and_high k q (r / 2) m (omega (arith, pow-suc 2 k)),
    )

-- `|` joins a number below `2 ^ k` to a multiple of `2 ^ k`.
pub or_apart : (k q r : ℕ) → r < 2 ^ k → bit_or r (q * 2 ^ k) ≡ q * 2 ^ k + r
or_apart zero q zero h = simp bit_or-bitwise (omega arith)
or_apart zero q (suc r) h = absurd (omega arith)
or_apart (suc k) q r h =
    let e : q * 2 ^ suc k / 2 ≡ q * 2 ^ k = omega (arith, ap (λ (t : ℕ). q * t) (pow-suc 2 k)) in
    let step : bit_or r (q * 2 ^ suc k)
        ≡ bit_or (r / 2) (q * 2 ^ k) * 2 + max (r % 2) (q * 2 ^ suc k % 2) =
      rw (bit_or_halves r (q * 2 ^ suc k), e) in
    omega (
      arith,
      step,
      ap (λ (t : ℕ). q * t) (pow-suc 2 k),
      or_apart k q (r / 2) (omega (arith, pow-suc 2 k)),
    )

-- `a & (2 ^ k - 1)` is the remainder by `2 ^ k`.
pub bit_and_mask : (k a : ℕ) → bit_and a (2 ^ k - 1) ≡ a % 2 ^ k
bit_and_mask k a =
    let w : low_ones k ≡ 2 ^ k - 1 = omega (arith, low_ones_lem k) in
    let s : 0 < 2 ^ k = omega (arith, low_ones_lem k) in
    let e : a ≡ a / 2 ^ k * 2 ^ k + a % 2 ^ k = grind arith in
    subst (λ x. bit_and x (2 ^ k - 1) ≡ a % 2 ^ k) (sym e)
      (subst (λ m. bit_and (a / 2 ^ k * 2 ^ k + a % 2 ^ k) m ≡ a % 2 ^ k) w
        (and_parts k (a / 2 ^ k) (a % 2 ^ k) (grind arith)))

-- `a | (2 ^ k - 1)` fills the low `k` bits.
pub bit_or_mask : (k a : ℕ) → bit_or a (2 ^ k - 1) ≡ a / 2 ^ k * 2 ^ k + (2 ^ k - 1)
bit_or_mask k a =
    let w : low_ones k ≡ 2 ^ k - 1 = omega (arith, low_ones_lem k) in
    let s : 0 < 2 ^ k = omega (arith, low_ones_lem k) in
    let e : a ≡ a / 2 ^ k * 2 ^ k + a % 2 ^ k = grind arith in
    subst (λ x. bit_or x (2 ^ k - 1) ≡ a / 2 ^ k * 2 ^ k + (2 ^ k - 1)) (sym e)
      (subst (λ m. bit_or (a / 2 ^ k * 2 ^ k + a % 2 ^ k) m ≡ a / 2 ^ k * 2 ^ k + m) w
        (or_parts k (a / 2 ^ k) (a % 2 ^ k) (grind arith)))

-- Two numbers agree above the low `k` bits exactly when filling those bits makes them equal.
pub bit_or_mask-eq :
    (k a b : ℕ) → (bit_or a (2 ^ k - 1) ≡ bit_or b (2 ^ k - 1)) ↔ (a / 2 ^ k ≡ b / 2 ^ k)
bit_or_mask-eq k a b = (
  λ h. mul_right_cancel (low_ones_lem k) (omega (arith, h, bit_or_mask k a, bit_or_mask k b)),
  λ h. omega (arith, ap (λ (t : ℕ). t * 2 ^ k) h, bit_or_mask k a, bit_or_mask k b),
)
  where
    mul_right_cancel :
        low_ones k + 1 ≡ 2 ^ k → a / 2 ^ k * 2 ^ k ≡ b / 2 ^ k * 2 ^ k → a / 2 ^ k ≡ b / 2 ^ k
    mul_right_cancel s e = grind arith

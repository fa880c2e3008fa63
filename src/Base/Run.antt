-- ===== src/Base/Run.antt =====
-- How a run of code ends: with a value, in undefined behaviour or a failed assertion, or not within
-- the fuel.
pub data Run {ℓ} (A : Type ℓ) : Type ℓ where
  done : A → Run A
  aborted : Run A
  unfinished : Run A

infixl 5 ◌>>=◌
abbrev pub ◌>>=◌ {ℓ κ} : {A : Type ℓ} {B : Type κ} → Run A → (A → Run B) → Run B
done a >>= f = f a
aborted >>= f = aborted
unfinished >>= f = unfinished

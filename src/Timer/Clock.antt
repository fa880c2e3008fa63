-- ===== src/Timer/Clock.antt =====
-- The clock of skynet-src/skynet_timer.c: how many ticks `skynet_updatetime` makes up for.
use skynet_note.Base.{ℕ, ◌+◌, ◌-◌, ◌*◌, ◌/◌, ◌%◌, ◌≤◌, ◌<◌, ◌≡◌, arith, bit_and_mask}
use skynet_note.Timer.{gettime, tick_count}

-- Hundredths of a second
abbrev pub centis : ℕ → ℕ → ℕ
centis sec nsec = sec * 100 + nsec / 10000000

-- `_gettime` counts hundredths of a second and starts again after 2 ^ 24 seconds.
pub gettime_lem :
    (sec nsec : ℕ) → nsec < 1000000000 → gettime sec nsec ≡ centis sec nsec % 1677721600
unfolding gettime
gettime_lem sec nsec h = omega (arith, bit_and_mask 24 sec)

-- Between two readings of the clock less than 2 ^ 24 seconds apart, `skynet_updatetime` makes as
-- many ticks as hundredths of a second have passed, also where the count starts again.
pub tick_count_elapsed :
    (s1 n1 s2 n2 : ℕ)
    → n1 < 1000000000
    → n2 < 1000000000
    → centis s1 n1 ≤ centis s2 n2
    → centis s2 n2 < centis s1 n1 + 1677721600
    → tick_count (gettime s2 n2) (gettime s1 n1) ≡ centis s2 n2 - centis s1 n1
unfolding tick_count
tick_count_elapsed s1 n1 s2 n2 h1 h2 le lt =
    ground (arith, gettime_lem s1 n1 h1, gettime_lem s2 n2 h2)

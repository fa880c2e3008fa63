-- ===== src/Context/Session.antt =====
-- The sessions that `skynet_context_newsession` of skynet-src/skynet_server.c gives.
use skynet_note.Base.{ℕ, zero, suc, ◌+◌, ◌-◌, ◌%◌, ◌^◌, ◌<◌, ◌≡◌, ◌≢◌, bit_and_mask, arith}
use skynet_note.Context.{Context, newsession}

-- The context after `k` sessions
abbrev pub after_sessions : ℕ → Context → Context
after_sessions zero ctx = ctx
after_sessions (suc k) ctx = after_sessions k ((newsession ctx).1)

pub newsession_value : (ctx : Context) → (newsession ctx).0 ≡ (ctx.session_id + 1) % 2 ^ 31
unfolding newsession
newsession_value ctx =
    let low = bit_and_mask 31 ((ctx.session_id + 1) % 2 ^ 32) in omega (arith, low)

session_after :
    (k : ℕ) (ctx : Context)
    → (after_sessions k ctx).session_id % 2 ^ 31 ≡ (ctx.session_id + k) % 2 ^ 31
unfolding newsession
session_after zero ctx = omega arith
session_after (suc k) ctx = omega (arith, session_after k ((newsession ctx).1))

-- A session is below 2 ^ 31, and 2 ^ 31 sessions in a row are different from each other.
pub newsession_distinct :
    (ctx : Context) (i j : ℕ)
    → i < j
    → j < i + 2 ^ 31
    → ((newsession (after_sessions i ctx)).0 < 2 ^ 31)
      × ((newsession (after_sessions i ctx)).0 ≢ (newsession (after_sessions j ctx)).0)
newsession_distinct ctx i j less near = (
  omega (arith, newsession_value (after_sessions i ctx)),
  λ same. omega (
    arith,
    same,
    less,
    near,
    newsession_value (after_sessions i ctx),
    newsession_value (after_sessions j ctx),
    session_after i ctx,
    session_after j ctx,
  ),
)

-- The session after the number 2 ^ 31 - 1 is 0.
pub newsession-zero : (ctx : Context) → ctx.session_id ≡ 2 ^ 31 - 1 → (newsession ctx).0 ≡ 0
newsession-zero ctx e = omega (arith, newsession_value ctx, e)

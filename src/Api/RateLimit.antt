-- ===== src/Api/RateLimit.antt =====
-- server/internal/api/ratelimit.go: the token bucket that guards the unauthenticated chat routes.
-- A time is a number of nanoseconds since Go's zero time, so that `last.IsZero()` is `last == 0`.
pub mod Budget
use cuebooth.Prelude.{
  ℕ, ◌+◌, ◌-◌, ◌*◌, ◌/◌, Bool, true, false, ◌&&◌, ltb, leb, ◌==◌, min, if◌then◌else◌,
}

pub record RateLimiter : Type 0 where
  pub interval : ℕ
  pub burst : ℕ
  pub tokens : ℕ
  pub last : ℕ

pub new_rate_limiter : ℕ → ℕ → RateLimiter
new_rate_limiter burst interval = record {
  interval = interval;
  burst = burst;
  tokens = burst;
  last = 0;
}

-- `l.last = now` on the first call.
unfoldable pub start : RateLimiter → ℕ → RateLimiter
start l now = if l.last == 0 then record l { last = now } else l

-- The whole intervals since `last` are credited. `now.Sub(l.last)` is negative for a clock that
-- went back, and then is below the positive interval, as the truncated difference is.
unfoldable pub refill : RateLimiter → ℕ → RateLimiter
refill l now =
    let elapsed = now - l.last in
    let gained = elapsed / l.interval in
    if leb l.interval elapsed
    then record l { tokens = min (l.tokens + gained) l.burst; last = l.last + gained * l.interval }
    else l

unfoldable pub spend : RateLimiter → RateLimiter × Bool
spend l = if l.tokens == 0 then (l, false) else (record l { tokens = l.tokens - 1 }, true)

unfoldable pub allow : RateLimiter → ℕ → RateLimiter × Bool
allow l now = spend (refill (start l now) now)

-- ===== src/RateLimit/Rate.antt =====
-- golang.org/x/time/rate, the token buckets that internal/ratelimit uses, and the floats that the
-- configuration gives them. They are not part of the repository: a parameter, with the documented
-- behaviour of a bucket as a law.
use kubernaut_apifrontend.Common.{ℕ, ◌+◌, ◌≤◌, Bool, true, ◌≡◌}
use kubernaut_apifrontend.Common.Int.{ℤ, pos_part}

-- `Rate` is a float64 of events per second; bursts and events per minute are signed.
pub record RateLib : Type 1 where
  pub Rate : Type 0
  pub Limiter : Type 0
  pub per_minute : ℤ → Rate
  pub new_limiter : Rate → ℤ → Limiter
  pub allow : ℕ → Limiter → Limiter × Bool
  pub set_limit : Rate → Limiter → Limiter
  pub set_burst : ℤ → Limiter → Limiter
  -- `int(1.0 / r)`
  pub seconds_per_event : Rate → ℤ

-- A new bucket holds its burst; an event takes a token, and no event is let through without one.
-- `tokens now l` are the whole tokens that `l` has at the time `now`.
pub record BucketLaw (lib : RateLib) : Type 0 where
  pub tokens : ℕ → lib.Limiter → ℕ
  pub fresh :
      (now : ℕ) (r : lib.Rate) (burst : ℤ) → tokens now (lib.new_limiter r burst) ≤ pos_part burst
  pub taken :
      (now : ℕ) (l : lib.Limiter)
      → (lib.allow now l).1 ≡ true
      → tokens now (lib.allow now l).0 + 1 ≤ tokens now l
  pub kept : (now : ℕ) (l : lib.Limiter) → tokens now (lib.allow now l).0 ≤ tokens now l

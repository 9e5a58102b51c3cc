-- ===== src/RateLimit/Ip.antt =====
-- IPLimiter of internal/ratelimit/ratelimit.go, with its configuration (config.go). The clock is an
-- argument of each call, in nanoseconds; a call is one step, as its lock makes it.
pub mod Burst
use kubernaut_apifrontend.Common.{
  ℕ, ◌*◌, String, Bool, Option, none, some, List, [], ◌∷◌, if◌then◌else◌, not,
}
use kubernaut_apifrontend.Common.Dict.{Dict, lookup, insert}
use kubernaut_apifrontend.Common.Sweep.{map_values, sweep}
use kubernaut_apifrontend.Common.Int.{ℤ, pos, ◌-ℤ◌, ltb_ℤ}
use kubernaut_apifrontend.RateLimit.Rate.{RateLib}

abbrev pub minute : ℕ
minute = 60 * 1000000000

-- `if d <= 0 { d = default }`
abbrev pub or_default : ℤ → ℤ → ℤ
or_default d fallback = if ltb_ℤ (pos 0) d then d else fallback

module _ (lib : RateLib) where
  open lib use {Rate, Limiter, new_limiter, set_limit, set_burst}

  pub record PerIpConfig : Type 0 where
    pub requests_per_second : Rate
    pub burst : ℤ
    pub cleanup_interval : ℤ
    pub max_age : ℤ

  pub record IpEntry : Type 0 where
    pub limiter : Limiter
    pub last_seen : ℕ

  pub record IpLimiter : Type 0 where
    pub limiters : Dict IpEntry
    pub cfg : PerIpConfig

  unfoldable pub new_ip_limiter : PerIpConfig → IpLimiter
  new_ip_limiter cfg = record {
    limiters = [];
    cfg = record cfg {
      cleanup_interval = or_default cfg.cleanup_interval (pos (5 * minute));
      max_age = or_default cfg.max_age (pos (10 * minute));
    };
  }

  -- The bucket of an address: its entry's, or a new one.
  unfoldable pub limiter_of : IpLimiter → String → Limiter
  unfolding lookup
  limiter_of l ip = elim (lookup ip l.limiters) [
    | some entry ↦ entry.limiter
    | none ↦ new_limiter l.cfg.requests_per_second l.cfg.burst
  ]

  unfoldable pub allow : ℕ → String → IpLimiter → IpLimiter × Bool
  unfolding limiter_of insert
  allow now ip l =
      let (bucket, allowed) = lib.allow now (limiter_of l ip) in
      (
        record l { limiters = insert ip (record { limiter = bucket; last_seen = now }) l.limiters },
        allowed,
      )

  relimit : Rate → ℤ → IpEntry → IpEntry
  relimit rps burst entry = record entry { limiter = set_burst burst (set_limit rps entry.limiter) }

  unfoldable pub update_limits : Rate → ℤ → IpLimiter → IpLimiter
  unfolding map_values relimit
  update_limits rps burst l = record l {
    cfg = record l.cfg { requests_per_second = rps; burst = burst };
    limiters = map_values (relimit rps burst) l.limiters;
  }

  -- `!entry.lastSeen.Before(cutoff)`, with the cutoff `now - MaxAge`.
  is_recent : ℕ → ℤ → IpEntry → Bool
  unfolding ◌-ℤ◌
  is_recent now max_age entry = not (ltb_ℤ (pos entry.last_seen) (pos now -ℤ max_age))

  -- One tick of the cleanup loop.
  unfoldable pub cleanup_tick : ℕ → IpLimiter → IpLimiter
  unfolding sweep is_recent
  cleanup_tick now l = record l { limiters = sweep (is_recent now l.cfg.max_age) l.limiters }

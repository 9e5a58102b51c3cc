-- ===== src/RateLimit/Ip/Burst.antt =====
-- How many requests of an address IPLimiter (internal/ratelimit/ratelimit.go) lets through, and
-- what other addresses and a change of the limits do to it.
use kubernaut_apifrontend.Common.{
  ℕ, suc, ◌≤◌, String, ◌≡◌, refl, inl, inr, ◌&&◌, none, some, List, [], ◌∷◌, arith, Option-cases,
  if◌then◌else◌, str_eq, eq_iff,
}
use kubernaut_apifrontend.Common.Dict.{lookup, lookup-insert}
use kubernaut_apifrontend.Common.Sweep.{lookup-map_values}
use kubernaut_apifrontend.Common.Int.{ℤ, pos_part}
use kubernaut_apifrontend.RateLimit.Rate.{RateLib, BucketLaw}
use kubernaut_apifrontend.RateLimit.Ip.{
  IpLimiter, PerIpConfig, limiter_of, allow, new_ip_limiter, update_limits, relimit,
}

module _ (lib : RateLib) where
  open lib use {Rate, Limiter, set_limit, set_burst, new_limiter}

  -- A request of one address takes from the bucket of that address alone.
  pub limiter_of-allow :
      (now : ℕ) (ip other : String) (l : IpLimiter lib)
      → limiter_of lib (allow lib now ip l).0 other ≡ (
          if str_eq ip other
          then (lib.allow now (limiter_of lib l other)).0
          else limiter_of lib l other)
  unfolding limiter_of allow
  limiter_of-allow now ip other l = ground (
    arith,
    eq_iff ip other,
    lookup-insert ip other
        (record { limiter = (lib.allow now (limiter_of lib l ip)).0; last_seen = now }) l.limiters,
  )

  -- After UpdateLimits every known address has its bucket with the new limits, and every other
  -- will start with them.
  pub limiter_of-update_limits :
      (rps : Rate) (burst : ℤ) (ip : String) (l : IpLimiter lib)
      → limiter_of lib (update_limits lib rps burst l) ip ≡ (elim (lookup ip l.limiters) [
        | none ↦ new_limiter rps burst
        | some entry ↦ set_burst burst (set_limit rps entry.limiter)
      ])
  unfolding limiter_of update_limits
  limiter_of-update_limits rps burst ip l = elim (Option-cases (lookup ip l.limiters)) [
    | inl k ↦ ground (arith, lookup-map_values (relimit lib rps burst) ip l.limiters)
    | inr (entry, k) ↦ ground (arith, lookup-map_values (relimit lib rps burst) ip l.limiters)
  ]

  -- How many requests of `ip` are let through, of requests that all come at the time `now`.
  pub passed : ℕ → String → List String → IpLimiter lib → ℕ
  passed now ip [] l = 0
  passed now ip (from ∷ more) l =
      let (l', allowed) = allow lib now from l in
      let rest = passed now ip more l' in if allowed && str_eq from ip then suc rest else rest

  allow_result :
      (now : ℕ) (ip : String) (l : IpLimiter lib)
      → (allow lib now ip l).1 ≡ (lib.allow now (limiter_of lib l ip)).1
  unfolding allow
  allow_result now ip l = refl

  passed-le-tokens :
      (law : BucketLaw lib) (now : ℕ) (ip : String) (trace : List String) (l : IpLimiter lib)
      → passed now ip trace l ≤ law.tokens now (limiter_of lib l ip)
  unfolding passed
  passed-le-tokens law now ip [] l = omega arith
  passed-le-tokens law now ip (from ∷ more) l = ground (
    arith,
    eq_iff from ip,
    limiter_of-allow now from ip l,
    allow_result now from l,
    law.taken now (limiter_of lib l ip),
    law.kept now (limiter_of lib l ip),
    passed-le-tokens law now ip more (allow lib now from l).0,
  )

  -- At one instant no address gets more requests through than the configured burst, whatever the
  -- other addresses do.
  pub passed-le-burst :
      BucketLaw lib
      → (cfg : PerIpConfig lib) (now : ℕ) (ip : String) (trace : List String)
      → passed now ip trace (new_ip_limiter lib cfg) ≤ pos_part cfg.burst
  unfolding new_ip_limiter limiter_of
  passed-le-burst law cfg now ip trace = omega (
    arith,
    passed-le-tokens law now ip trace (new_ip_limiter lib cfg),
    law.fresh now cfg.requests_per_second cfg.burst,
  )

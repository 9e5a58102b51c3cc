-- ===== src/RateLimit/Provider.antt =====
-- ProviderLimiter of internal/ratelimit/ratelimit.go: one JWKS fetch per interval and provider.
pub mod Spacing
use kubernaut_apifrontend.Common.{
  ℕ, String, Bool, true, false, Option, none, some, List, [], ◌∷◌, if◌then◌else◌, ◌*◌,
}
use kubernaut_apifrontend.Common.Dict.{Dict, lookup, insert}
use kubernaut_apifrontend.Common.Int.{ℤ, pos, negsuc, sub_ℕ, ltb_ℤ}

pub record ProviderLimiter : Type 0 where
  pub last_fetch : Dict ℕ
  pub interval : ℤ

-- Seconds as a duration.
abbrev pub seconds : ℕ → ℤ
seconds n = pos (n * 1000000000)

unfoldable pub new_provider_limiter : ℕ → ProviderLimiter
new_provider_limiter fetch_interval_seconds = record {
  last_fetch = [];
  interval = seconds fetch_interval_seconds;
}

unfoldable pub too_early : ProviderLimiter → ℕ → String → Bool
unfolding lookup
too_early l now provider = elim (lookup provider l.last_fetch) [
  | none ↦ false
  | some last ↦ ltb_ℤ (sub_ℕ now last) l.interval
]

unfoldable pub allow_fetch : ℕ → String → ProviderLimiter → ProviderLimiter × Bool
unfolding too_early insert
allow_fetch now provider l =
    if too_early l now provider
    then (l, false)
    else (record l { last_fetch = insert provider now l.last_fetch }, true)

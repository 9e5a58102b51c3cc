-- ===== src/Auth/Replay.antt =====
-- ReplayCache of internal/auth/replay_cache.go. Each call is one step, as its lock makes it, and so
-- is one tick of the eviction loop; times are nanoseconds.
pub mod Once
use kubernaut_apifrontend.Common.{
  ℕ, String, Bool, true, false, Option, none, some, List, [], ◌∷◌, if◌then◌else◌, str_eq, not,
}
use kubernaut_apifrontend.Common.Dict.{Dict, lookup, insert}
use kubernaut_apifrontend.Common.Sweep.{sweep}
use kubernaut_apifrontend.Common.Int.{ℤ, pos, ltb_ℤ, ◌+ℤ◌}

pub record ReplayCache : Type 0 where
  pub entries : Dict ℤ
  pub ttl : ℤ

unfoldable pub new_replay_cache : ℤ → ReplayCache
new_replay_cache ttl = record { entries = []; ttl = ttl }

unfoldable pub missing_jti : String → Bool
missing_jti jti = str_eq jti ""

unfoldable pub seen : ℕ → String → ReplayCache → ReplayCache × Bool
unfolding lookup insert
seen now jti c = if str_eq jti "" then (c, false) else elim (lookup jti c.entries) [
  | some _ ↦ (c, true)
  | none ↦ (record c { entries = insert jti (pos now +ℤ c.ttl) c.entries }, false)
]

-- `!now.After(expiry)`.
unfoldable pub still_valid : ℕ → ℤ → Bool
still_valid now expiry = not (ltb_ℤ expiry (pos now))

-- One tick of evictLoop.
unfoldable pub evict : ℕ → ReplayCache → ReplayCache
unfolding sweep still_valid
evict now c = record c { entries = sweep (still_valid now) c.entries }

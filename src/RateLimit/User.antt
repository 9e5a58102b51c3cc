-- ===== src/RateLimit/User.antt =====
-- UserLimiter of internal/ratelimit/ratelimit.go: request and tool buckets, and session slots, per
-- user. The compare-and-swap loops are one step here: a failed swap only makes the loop read the
-- counter again (Semaphore has such a loop step by step).
pub mod Slots
use kubernaut_apifrontend.Common.{
  ℕ, String, Bool, true, false, Option, none, some, List, [], ◌∷◌, ◌*◌, if◌then◌else◌, not, ◌&&◌,
  ◌||◌,
}
use kubernaut_apifrontend.Common.Dict.{Dict, lookup, insert}
use kubernaut_apifrontend.Common.Sweep.{map_values, sweep}
use kubernaut_apifrontend.Common.Int.{ℤ, pos, negsuc, ◌+ℤ◌, ◌-ℤ◌, ltb_ℤ}
use kubernaut_apifrontend.RateLimit.Rate.{RateLib}
use kubernaut_apifrontend.RateLimit.Ip.{minute, or_default}

abbrev pub max_int32 : ℕ
max_int32 = 2147483647

-- `current + 1` and `current - 1` of an int32, with the wrap-around.
unfoldable pub inc_int32 : ℤ → ℤ
unfolding ◌+ℤ◌
inc_int32 c = if ltb_ℤ c (pos max_int32) then c +ℤ pos 1 else negsuc max_int32

unfoldable pub dec_int32 : ℤ → ℤ
unfolding ◌-ℤ◌
dec_int32 c = if ltb_ℤ (negsuc max_int32) c then c -ℤ pos 1 else pos max_int32

pub record PerUserConfig : Type 0 where
  pub requests_per_minute : ℤ
  pub max_concurrent_sessions : ℤ
  pub tool_calls_per_minute : ℤ
  pub cleanup_interval : ℤ
  pub max_age : ℤ

-- A session entry has a counter and the others a bucket; the nil field of each is left out.
pub record Slot : Type 0 where
  pub counter : ℤ
  pub last_seen : ℕ

is_old : ℕ → ℤ → ℕ → Bool
unfolding ◌-ℤ◌
is_old now max_age last_seen = ltb_ℤ (pos last_seen) (pos now -ℤ max_age)

-- `e.counter.Load() == 0`
is_zero : ℤ → Bool
is_zero c = not (ltb_ℤ (pos 0) c) && not (ltb_ℤ c (pos 0))

unfoldable pub keep_slot : ℕ → ℤ → Slot → Bool
unfolding is_old is_zero
keep_slot now max_age s = not (is_old now max_age s.last_seen && is_zero s.counter)

module _ (lib : RateLib) where
  open lib use {Limiter, per_minute, new_limiter, set_limit, set_burst}

  pub record Bucket : Type 0 where
    pub limiter : Limiter
    pub last_seen : ℕ

  pub record UserLimiter : Type 0 where
    pub cfg : PerUserConfig
    pub requests : Dict Bucket
    pub sessions : Dict Slot
    pub tools : Dict Bucket

  unfoldable pub new_user_limiter : PerUserConfig → UserLimiter
  new_user_limiter cfg = record {
    cfg = record cfg {
      cleanup_interval = or_default cfg.cleanup_interval (pos (5 * minute));
      max_age = or_default cfg.max_age (pos (10 * minute));
    };
    requests = [];
    sessions = [];
    tools = [];
  }

  rebucket : ℤ → Bucket → Bucket
  rebucket n b = record b { limiter = set_burst n (set_limit (per_minute n) b.limiter) }

  unfoldable pub update_request_rate : ℤ → UserLimiter → UserLimiter
  unfolding map_values rebucket
  update_request_rate n l = record l {
    cfg = record l.cfg { requests_per_minute = n };
    requests = map_values (rebucket n) l.requests;
  }

  unfoldable pub update_tool_rate : ℤ → UserLimiter → UserLimiter
  unfolding map_values rebucket
  update_tool_rate n l = record l {
    cfg = record l.cfg { tool_calls_per_minute = n };
    tools = map_values (rebucket n) l.tools;
  }

  -- The bucket of a user: its entry's, or a new one for `n` events per minute.
  bucket_of : Dict Bucket → ℤ → String → Limiter
  unfolding lookup
  bucket_of m n user = elim (lookup user m) [
    | some b ↦ b.limiter
    | none ↦ new_limiter (per_minute n) n
  ]

  unfoldable pub allow_request : ℕ → String → UserLimiter → UserLimiter × Bool
  unfolding bucket_of insert
  allow_request now user l =
      let (b, allowed) = lib.allow now (bucket_of l.requests l.cfg.requests_per_minute user) in
      (
        record l { requests = insert user (record { limiter = b; last_seen = now }) l.requests },
        allowed,
      )

  unfoldable pub allow_tool_call : ℕ → String → UserLimiter → UserLimiter × Bool
  unfolding bucket_of insert
  allow_tool_call now user l =
      let (b, allowed) = lib.allow now (bucket_of l.tools l.cfg.tool_calls_per_minute user) in
      (record l { tools = insert user (record { limiter = b; last_seen = now }) l.tools }, allowed)

  -- The counter of a user, which starts at 0.
  unfoldable pub session_count : UserLimiter → String → ℤ
  unfolding lookup
  session_count l user = elim (lookup user l.sessions) [ some s ↦ s.counter | none ↦ pos 0 ]

  unfoldable pub acquire_session : ℕ → String → UserLimiter → UserLimiter × Bool
  unfolding insert
  acquire_session now user l =
      let current = session_count l user in
      let free = ltb_ℤ current l.cfg.max_concurrent_sessions in
      let next = if free then inc_int32 current else current in
      (
        record l { sessions = insert user (record { counter = next; last_seen = now }) l.sessions },
        free,
      )

  unfoldable pub release_session : String → UserLimiter → UserLimiter
  unfolding lookup insert
  release_session user l = elim (lookup user l.sessions) [
    | none ↦ l
    | some s ↦
        if ltb_ℤ (pos 0) s.counter
        then record l {
          sessions = insert user (record s { counter = dec_int32 s.counter }) l.sessions;
        }
        else l
  ]

  -- One tick of the cleanup loop.
  unfoldable pub cleanup_tick : ℕ → UserLimiter → UserLimiter
  unfolding sweep is_old
  cleanup_tick now l = record l {
    requests = sweep (λ b. not (is_old now l.cfg.max_age b.last_seen)) l.requests;
    sessions = sweep (keep_slot now l.cfg.max_age) l.sessions;
    tools = sweep (λ b. not (is_old now l.cfg.max_age b.last_seen)) l.tools;
  }

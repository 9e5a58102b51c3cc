-- ===== src/RateLimit/Middleware.antt =====
-- The rate limiting middleware of internal/ratelimit/ratelimit.go, before and after authentication.
-- What a request leads to is a value: the next handler, or the 429 problem, with the counter that
-- is incremented and the audit event that is emitted.
pub mod Denial
use kubernaut_apifrontend.Common.{
  ℕ, String, Bool, true, false, Option, none, some, if◌then◌else◌, not,
}
use kubernaut_apifrontend.Common.Int.{ℤ, pos, ltb_ℤ}
use kubernaut_apifrontend.RateLimit.Rate.{RateLib}
use kubernaut_apifrontend.RateLimit.Ip.{IpLimiter, allow}
use kubernaut_apifrontend.RateLimit.User.{UserLimiter, allow_request}

pub data Reply : Type 0 where
  next_handler : Reply
  -- Status 429 with the Retry-After header.
  too_many_requests : ℤ → Reply

pub record RateLimitDenied : Type 0 where
  pub user_id : String
  pub source_ip : String
  pub tier : String

pub record Served : Type 0 where
  pub reply : Reply
  pub counted : Option (String × String)
  pub audited : Option RateLimitDenied

abbrev pub passed_on : Served
passed_on = record { reply = next_handler; counted = none; audited = none }

-- `if cfg.Metrics != nil`, `if cfg.Auditor != nil`.
abbrev pub when {ℓ} : {A : Type ℓ} → Bool → A → Option A
when configured a = if configured then some a else none

-- `int(1.0 / RequestsPerSecond)`, at least 1.
unfoldable pub retry_after_seconds : ℤ → ℤ
retry_after_seconds n = if ltb_ℤ n (pos 1) then pos 1 else n

module _ (lib : RateLib) (metrics auditor : Bool) where
  unfoldable pub pre_auth : ℕ → String → IpLimiter lib → IpLimiter lib × Served
  pre_auth now ip l =
      let (l', allowed) = allow lib now ip l in
      if not allowed
      then (
        l',
        record {
          reply =
              too_many_requests
                (retry_after_seconds (lib.seconds_per_event l.cfg.requests_per_second));
          counted = when metrics ("ip", "burst_exceeded");
          audited = when auditor (record { user_id = ""; source_ip = ip; tier = "ip" });
        },
      )
      else (l', passed_on)

  -- `username` is the identity's, or `none` where the context has no identity.
  unfoldable pub post_auth : ℕ → String → Option String → UserLimiter lib → UserLimiter lib × Served
  post_auth now ip none l = (l, passed_on)
  post_auth now ip (some username) l =
      let (l', allowed) = allow_request lib now username l in
      if not allowed
      then (
        l',
        record {
          reply = too_many_requests (pos 1);
          counted = when metrics ("user", "request_rate");
          audited = when auditor (record { user_id = username; source_ip = ip; tier = "user" });
        },
      )
      else (l', passed_on)

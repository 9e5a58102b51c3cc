-- ===== src/RateLimit/Middleware/Denial.antt =====
-- A request reaches the next handler exactly when its limiter lets it through, and a denial is
-- reported (internal/ratelimit/ratelimit.go).
use kubernaut_apifrontend.Common.{
  ℕ, String, ◌≡◌, refl, ◌⊎◌, inl, inr, Bool, true, false, Option, none, some, arith, Bool-cases,
}
use kubernaut_apifrontend.Common.Int.{ℤ, pos, ◌≤ℤ◌}
use kubernaut_apifrontend.RateLimit.Rate.{RateLib}
use kubernaut_apifrontend.RateLimit.Ip.{IpLimiter, allow}
use kubernaut_apifrontend.RateLimit.User.{UserLimiter, allow_request}
use kubernaut_apifrontend.RateLimit.Middleware.{
  too_many_requests, Served, passed_on, retry_after_seconds, pre_auth, post_auth, when,
}

-- A denial of the address tier: a Retry-After of at least a second, and the audit event that
-- names the address.
pub record Denied (auditor : Bool) (ip user tier : String) (s : Served) : Type 0 where
  pub retry : ℤ
  pub reply_is : s.reply ≡ too_many_requests retry
  pub positive : pos 1 ≤ℤ retry
  pub event : s.audited ≡ when auditor (record { user_id = user; source_ip = ip; tier = tier })

retry_after_seconds_pos : (n : ℤ) → pos 1 ≤ℤ retry_after_seconds n
unfolding retry_after_seconds
retry_after_seconds_pos n = ground arith

module _ (lib : RateLib) (metrics auditor : Bool) where
  -- Before authentication: the request is passed on and nothing is reported, if the bucket of its
  -- address has a token; otherwise it is denied. In both cases the limiter is charged.
  pub pre_auth_cases :
      (now : ℕ) (ip : String) (l : IpLimiter lib)
      → let r = pre_auth lib metrics auditor now ip l in
        (r.0 ≡ (allow lib now ip l).0)
        × (((((allow lib now ip l).1 ≡ true) × (r.1 ≡ passed_on)))
            ⊎ (((allow lib now ip l).1 ≡ false) × Denied auditor ip "" "ip" r.1))
  unfolding pre_auth
  pre_auth_cases now ip l = elim (Bool-cases (allow lib now ip l).1) [
    | inl ok ↦ (ground arith, inl (ok, ground arith))
    | inr denied ↦ (
      ground arith,
      inr (
        denied,
        record {
          retry = retry_after_seconds (lib.seconds_per_event l.cfg.requests_per_second);
          reply_is = ground arith;
          positive = retry_after_seconds_pos (lib.seconds_per_event l.cfg.requests_per_second);
          event = ground arith;
        },
      ),
    )
  ]

  -- After authentication: without an identity the request is passed on and no bucket is charged;
  -- with one, it is passed on or denied by the bucket of that user.
  pub post_auth_cases :
      (now : ℕ) (ip : String) (identity : Option String) (l : UserLimiter lib)
      → let r = post_auth lib metrics auditor now ip identity l in
        ((identity ≡ none) × (r ≡ (l, passed_on)))
        ⊎ ((user : String) × (identity ≡ some user)
            × (r.0 ≡ (allow_request lib now user l).0)
            × ((((allow_request lib now user l).1 ≡ true) × (r.1 ≡ passed_on))
                ⊎ (((allow_request lib now user l).1 ≡ false) × Denied auditor ip user "user" r.1)))
  unfolding post_auth
  post_auth_cases now ip none l = inl (refl, refl)
  post_auth_cases now ip (some user) l = elim (Bool-cases (allow_request lib now user l).1) [
    | inl ok ↦ inr (user, refl, ground arith, inl (ok, ground arith))
    | inr denied ↦ inr (
      user,
      refl,
      ground arith,
      inr (
        denied,
        record {
          retry = pos 1;
          reply_is = ground arith;
          positive = omega arith;
          event = ground arith;
        },
      ),
    )
  ]

-- ===== src/Auth/Middleware.antt =====
-- The authentication middleware, MiddlewareWithConfig of internal/auth/middleware.go, with
-- ValidateHeaderValue of internal/security/sanitize.go. What a request leads to is a value: the
-- problem that is written or the next handler with its context, the audit event and the
-- duration's label. The limit of the body's size is the HTTP library's.
pub mod Passing
use kubernaut_apifrontend.Common.{
  ℕ, ◌+◌, ◌*◌, ◌==◌, String, Bool, true, false, Option, none, some, List, [], ◌∷◌, ◌&&◌, ◌||◌, not,
  ltb, leb, if◌then◌else◌, str_eq, codes,
}
use Prim.Native.Char.{code}
use Prim.Native.String
use kubernaut_apifrontend.Common.Int.{ℤ, pos, ◌-ℤ◌}
use kubernaut_apifrontend.Auth.Jwks.{JwksEnv, second}
use kubernaut_apifrontend.Auth.Claims.{
  AuthError, malformed, unknown_issuer, circuit_open, keys_unavailable, missing_expiry,
  token_expired, not_yet_valid, invalid_audience, token_replayed, cel_rule_failed,
  review_not_configured, review_failed, UserIdentity, unix_nanos,
}
use kubernaut_apifrontend.Auth.Jwt.{JwtEnv, JwtValidator, Decision, granted, rejected, validate}

-- unicode.IsControl, and a tab.
unfoldable pub is_bad_rune : ℕ → Bool
is_bad_rune r = not (r == 9) && (ltb r 32 || (leb 127 r && ltb r 160))

unfoldable pub has_control : List ℕ → Bool
unfolding is_bad_rune
has_control [] = false
has_control (r ∷ more) = is_bad_rune r || has_control more

-- What follows a prefix, if the text has it.
unfoldable pub strip_prefix : String → String → Option String
strip_prefix String.[] s = some s
strip_prefix (String.◌∷◌ p ps) String.[] = none
strip_prefix (String.◌∷◌ p ps) (String.◌∷◌ c s) =
    let rest = strip_prefix ps s in if code p == code c then rest else none

unfoldable pub classify_auth_error : AuthError → String
classify_auth_error token_replayed = "token_replayed"
classify_auth_error token_expired = "token_expired"
classify_auth_error not_yet_valid = "not_yet_valid"
classify_auth_error invalid_audience = "invalid_audience"
classify_auth_error unknown_issuer = "unknown_issuer"
classify_auth_error malformed = "malformed_token"
classify_auth_error circuit_open = "circuit_open"
classify_auth_error cel_rule_failed = "cel_rule_failed"
classify_auth_error missing_expiry = "missing_expiry"
classify_auth_error keys_unavailable = "validation_failed"
classify_auth_error review_not_configured = "validation_failed"
classify_auth_error review_failed = "validation_failed"

pub data AuthEvent : Type 0 where
  auth_failure : (reason : String) → AuthEvent
  auth_success : (user_id : List ℕ) → (issuer : String) → AuthEvent

-- The next handler's context holds the identity and, where the token has an expiry, a deadline.
pub data Reply : Type 0 where
  problem : ℕ → Reply
  next_handler : UserIdentity → Option ℤ → Reply

-- The event is emitted where there is an auditor. `observed` is the label of the duration, where one is observed.
pub record Authentication : Type 0 where
  pub reply : Reply
  pub audited : AuthEvent
  pub observed : Option String

abbrev pub refused_early : ℕ → String → Authentication
refused_early status reason = record {
  reply = problem status;
  audited = auth_failure reason;
  observed = none;
}

-- `expiry.Add(-jitter)`, for a random number below 10.
unfoldable pub deadline_of : ℕ → Option ℤ → Option ℤ
unfolding unix_nanos
deadline_of random none = none
deadline_of random (some s) = some (unix_nanos s -ℤ pos ((25 + random) * second))

unfoldable pub decided : ℕ → Decision → Authentication
unfolding classify_auth_error deadline_of
decided random (rejected x) = record {
  reply = problem 401;
  audited = auth_failure (classify_auth_error x);
  observed = some "failure";
}
decided random (granted id) = record {
  reply = next_handler id (deadline_of random id.expires_at);
  audited = auth_success id.username id.issuer;
  observed = some "success";
}

module _ {e : JwksEnv} (j : JwtEnv e) where
  open e use {World}

  -- An absent header is the empty one.
  unfoldable pub authenticate :
      ℕ → JwtValidator j → World → String → World × JwtValidator j × Authentication
  unfolding has_control strip_prefix decided
  authenticate random v w header =
      if str_eq header ""
      then (w, v, refused_early 401 "missing_header")
      else if has_control (codes header)
      then (w, v, refused_early 400 "control_chars")
      else elim (strip_prefix "Bearer " header) [
        | none ↦ (w, v, refused_early 401 "non_bearer")
        | some token ↦ let (w', v', d) = validate j v w token in (w', v', decided random d)
      ]

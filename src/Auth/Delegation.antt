-- ===== src/Auth/Delegation.antt =====
-- ContextJWTDelegationTransport of internal/auth/jwt_delegation.go, which forwards the user's token.
pub mod Forwarded
use kubernaut_apifrontend.Common.{
  ℕ, String, Bool, true, false, Option, none, some, str_eq, if◌then◌else◌,
}
use Prim.Native.String
use kubernaut_apifrontend.Common.Int.{ℤ, pos, ltb_ℤ}
use kubernaut_apifrontend.Auth.Claims.{UserIdentity, unix_nanos}

-- The request that the base transport is given, by its Authorization header.
pub data Outbound : Type 0 where
  token_expired_delegation : Outbound
  sent : (authorization : Option String) → Outbound

unfoldable pub is_past : ℕ → Option ℤ → Bool
unfolding unix_nanos
is_past now none = false
is_past now (some s) = ltb_ℤ (unix_nanos s) (pos now)

unfoldable pub delegate : ℕ → Option UserIdentity → Option String → Outbound
unfolding is_past
delegate now none header = sent header
delegate now (some id) header =
    if is_past now id.expires_at
    then token_expired_delegation
    else sent (if str_eq id.raw_token "" then header else some (String.◌++◌ "Bearer " id.raw_token))

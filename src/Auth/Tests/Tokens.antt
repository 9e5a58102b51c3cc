-- ===== src/Auth/Tests/Tokens.antt =====
-- Runs of internal/auth's validator and middleware, and the theorems applied to them.
use kubernaut_apifrontend.Common.{
  ℕ, ◌*◌, ◌≡◌, ◌≢◌, refl, ap, sym, inl, ◌⊎◌, ◌↔◌, String, true, false, none, some, [], ◌∷◌, arith,
}
use kubernaut_apifrontend.Common.Dict.{lookup, insert}
use kubernaut_apifrontend.Common.Int.{◌-ℤ◌, pos, ◌+ℤ◌}
use kubernaut_apifrontend.Resilience.Breaker.{closed}
use kubernaut_apifrontend.Auth.Replay.{ReplayCache, seen, missing_jti, evict}
use kubernaut_apifrontend.Auth.Jwks.{
  second, http_response, JwksEnv, JwksCache, new_jwks_cache, get_keys, default_max_staleness,
  default_refresh_interval, fetch_jwks, fresh_entry, refresh_keys, has_breaker,
}
use kubernaut_apifrontend.Auth.Jwks.Recent.{ExecuteLaw, Recent, run as run_calls, get_keys-Recent}
use kubernaut_apifrontend.Auth.Config.{ProviderConfig, Config, validate_config}
use kubernaut_apifrontend.Auth.Config.Valid.{
  IsProvider, DistinctIssuers, validate_config-iff-IsProvider,
}
use kubernaut_apifrontend.Auth.Claims.{
  Claims, extract_string_claim, text_claim, number_claim, unix, UserIdentity, build_identity,
  check_claims, unix_nanos,
}
use kubernaut_apifrontend.Common.All.{All}
use kubernaut_apifrontend.Auth.Jwt.{
  granted, not_authenticated, no_reviewer, JwtEnv, JwtValidator, ProviderRuntime, validate,
  check_replay,
}
use kubernaut_apifrontend.Auth.Jwt.Grants.{IsVerified, IsReviewed, validate-IsVerified}
use kubernaut_apifrontend.Auth.Jwt.Once.{BearsId, tick, run, after, evict_ids, verified_once}
use kubernaut_apifrontend.Auth.Delegation.{delegate}
use kubernaut_apifrontend.Auth.Delegation.Forwarded.{Forwards, authenticate-Forwards}
use kubernaut_apifrontend.Auth.Middleware.{authenticate}
use kubernaut_apifrontend.Auth.Middleware.Passing.{Authenticates, authenticate-Authenticates}

-- The world is the clock; the only key set is 7.
abbrev jwks : JwksEnv
jwks = record {
  World = ℕ;
  Keys = ℕ;
  now = λ w. w;
  http_get = λ url w. (w, http_response 200 (some 7));
  execute = λ url f w. f w;
  state = λ url w. closed;
}

abbrev claims_of : String → Claims
claims_of jti =
    ("exp", number_claim (unix (pos 100)))
    ∷ ("aud", text_claim "api")
    ∷ ("jti", text_claim jti)
    ∷ ("preferred_username", text_claim "ann")
    ∷ []

-- The tokens are their texts, which are their IDs.
abbrev jwt : JwtEnv jwks
jwt = record {
  Token = String;
  Key = ℕ;
  Program = Unit {0};
  keys_of = λ k. k ∷ [];
  parse_signed = λ s. some s;
  unsafe_issuer = λ t. some "https://idp";
  verify = λ t k. some (claims_of t);
  compile = λ s. some tt;
  eval = λ p name groups. some true;
  review = λ w s. (w, not_authenticated);
  scheme_of = λ s. some "https";
}

abbrev idp : ProviderConfig
idp = record {
  issuer = record { url = "https://idp"; jwks_url = "https://idp/keys"; audiences = "api" ∷ [] };
  user_validation_rules = [];
}

abbrev ttl_cache : ReplayCache
ttl_cache = record { entries = []; ttl = pos (1000 * second) }

abbrev fresh_cache : JwksCache jwks
fresh_cache = record {
  entries = [];
  max_staleness = default_max_staleness;
  refresh_interval = default_refresh_interval;
  breakers = "https://idp/keys" ∷ [];
}

abbrev provider : ProviderRuntime jwt
provider = record { config = idp; jwks_url = "https://idp/keys"; cel_rules = tt ∷ [] }

abbrev checker : JwtValidator jwt
checker = record {
  providers = ("https://idp", provider) ∷ [];
  cache = fresh_cache;
  reviewer = no_reviewer;
  replay_cache = some ttl_cache;
  k8s_enabled = false;
}

abbrev noon : ℕ
noon = 5 * second

abbrev ann : String → UserIdentity
ann t = build_identity (claims_of t) "https://idp" t

validate-IsVerified_example :
    IsVerified jwt checker noon "id1" (ann "id1") ⊎ IsReviewed jwt checker noon "id1" (ann "id1")
unfolding validate lookup get_keys has_breaker fresh_entry refresh_keys fetch_jwks insert
    check_claims unix_nanos check_replay seen missing_jti build_identity
validate-IsVerified_example = validate-IsVerified jwt checker noon "id1" (ann "id1") refl

authenticate-Authenticates_example :
    Authenticates jwt checker noon "Bearer id1" (authenticate jwt 3 checker noon "Bearer id1").2
authenticate-Authenticates_example =
    authenticate-Authenticates jwt 3 checker noon "Bearer id1" (omega arith)

jwks_law : ExecuteLaw jwks
jwks_law url f w k h = (w, h)

get_keys-Recent_example :
    Recent jwks
      ((noon, "https://idp/keys") ∷ (noon, "https://idp/keys") ∷ [])
      default_max_staleness
      "https://idp/keys"
      7
      (get_keys jwks
        (run_calls jwks ((noon, "https://idp/keys") ∷ []) (
          new_jwks_cache jwks
            ("https://idp/keys" ∷ [])
            default_max_staleness
            default_refresh_interval))
        noon
        "https://idp/keys").0
unfolding get_keys has_breaker fresh_entry refresh_keys fetch_jwks insert lookup new_jwks_cache
    run_calls
get_keys-Recent_example =
    get_keys-Recent jwks jwks_law default_max_staleness default_refresh_interval (omega arith)
      (omega arith) ("https://idp/keys" ∷ []) ((noon, "https://idp/keys") ∷ []) noon
      "https://idp/keys" 7 refl

abbrev two_issuers : Config
two_issuers = record {
  jwt = idp ∷ idp ∷ [];
  kubernetes_enabled = false;
  allow_insecure_issuers = false;
}

validate_config-iff-IsProvider_example :
    (validate_config (λ s. some "https") two_issuers ≡ none) ↔ (
      All (IsProvider (λ s. some "https") false) (idp ∷ idp ∷ [])
      × DistinctIssuers (idp ∷ idp ∷ []))
validate_config-iff-IsProvider_example =
    validate_config-iff-IsProvider (λ s. some "https") two_issuers

bears_id1 : BearsId jwt "id1" "id1"
unfolding extract_string_claim
bears_id1 k claims h =
    let same : claims_of "id1" ≡ claims = cc in sym (ap (λ c. extract_string_claim c "jti") same)

first_run : IsVerified jwt checker noon "id1" (ann "id1")
unfolding validate lookup get_keys has_breaker fresh_entry refresh_keys fetch_jwks insert
    check_claims unix_nanos check_replay seen missing_jti build_identity
first_run = record {
  token = "id1";
  parsed = refl;
  issuer = "https://idp";
  claimed = refl;
  provider = provider;
  configured = refl;
  key_set = 7;
  served = refl;
  claims = claims_of "id1";
  signed = inl refl;
  unexpired = (pos 100, refl, omega arith);
  started = inl refl;
  intended = inl (inl refl);
  first = ((λ e. cc), refl);
  holds = (refl, tt);
  remembered = refl;
  identity = refl;
}

abbrev later : JwtValidator jwt
later = run jwt (tick (6 * second) ∷ []) (validate jwt checker noon "id1").1

verified_once_example : (validate jwt later noon "id1").2 ≢ granted (ann "id1")
unfolding run after evict_ids evict validate lookup get_keys has_breaker fresh_entry refresh_keys
    fetch_jwks insert ◌+ℤ◌ first_run
verified_once_example =
    verified_once jwt checker ttl_cache noon "id1" (ann "id1") refl tt first_run
      (tick (6 * second) ∷ []) (omega arith, tt) noon "id1" "https://idp" "id1" provider refl refl
      refl bears_id1 (ann "id1")

authenticate-Forwards_example :
    Forwards noon (ann "id1") none "Bearer id1" (delegate noon (some (ann "id1")) none)
unfolding validate lookup get_keys has_breaker fresh_entry refresh_keys fetch_jwks insert
    check_claims unix_nanos check_replay seen missing_jti build_identity authenticate ◌-ℤ◌
authenticate-Forwards_example =
    authenticate-Forwards jwt 3 checker noon "Bearer id1" (ann "id1") (some (pos (72 * second)))
      (omega arith) refl noon none

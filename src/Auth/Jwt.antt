-- ===== src/Auth/Jwt.antt =====
-- JWTValidator of internal/auth/jwt.go, with TokenReviewer of tokenreview.go. The JOSE library, CEL
-- and the TokenReview API are outside.
pub mod Grants
pub mod Once
use kubernaut_apifrontend.Common.{
  ℕ, String, Bool, true, false, Option, none, some, List, [], ◌∷◌, ◌++◌, map, not, ◌||◌,
  if◌then◌else◌,
}
use kubernaut_apifrontend.Common.Dict.{Dict, lookup, insert}
use kubernaut_apifrontend.Auth.Replay.{ReplayCache, missing_jti, seen}
use kubernaut_apifrontend.Auth.Jwks.{
  JwksEnv, JwksCache, KeysError, keys_circuit_open, keys_stale, KeysResult, keys, keys_error,
  get_keys, new_jwks_cache, default_max_staleness, default_refresh_interval,
}
use kubernaut_apifrontend.Auth.Config.{
  ValidationRule, ProviderConfig, Config, ConfigError, resolve_jwks_url, validate_config,
}
use kubernaut_apifrontend.Auth.Claims.{
  AuthError, malformed, unknown_issuer, circuit_open, keys_unavailable, token_replayed,
  cel_rule_failed, review_not_configured, review_failed, Claims, UserIdentity, sanitized,
  extract_string_claim, build_identity, check_claims,
}

-- The answer of the TokenReview API.
pub data Review : Type 0 where
  request_failed not_authenticated : Review
  authenticated : (username : String) (groups : List String) → Review

-- No reviewer, one without a client, or one with a client.
pub data Reviewer : Type 0 where
  no_reviewer no_client with_client : Reviewer

-- `verify` is the signature check of a token with a key, with the decoding of its claims.
pub record JwtEnv (e : JwksEnv) : Type 1 where
  pub Token : Type 0
  pub Key : Type 0
  pub Program : Type 0
  pub keys_of : e.Keys → List Key
  pub parse_signed : String → Option Token
  pub unsafe_issuer : Token → Option String
  pub verify : Token → Key → Option Claims
  pub compile : String → Option Program
  pub eval : Program → List ℕ → List (List ℕ) → Option Bool
  pub review : e.World → String → e.World × Review
  pub scheme_of : String → Option String

pub data Decision : Type 0 where
  granted : UserIdentity → Decision
  rejected : AuthError → Decision

-- Both mean that the breaker is open and no usable keys are stored.
unfoldable pub keys_auth_error : KeysError → AuthError
keys_auth_error keys_circuit_open = circuit_open
keys_auth_error keys_stale = circuit_open
keys_auth_error _ = keys_unavailable

-- With a replay cache the token must have an ID that was not seen.
unfoldable pub check_replay :
    ℕ → Claims → Option ReplayCache → Option ReplayCache × Option AuthError
unfolding extract_string_claim missing_jti
check_replay now claims none = (none, none)
check_replay now claims (some c) =
    let jti = extract_string_claim claims "jti" in
    if missing_jti jti
    then (some c, some malformed)
    else let (c', old) = seen now jti c in (some c', if old then some token_replayed else none)

module _ {e : JwksEnv} (j : JwtEnv e) where
  open e use {World, Keys, now}
  open j use {
    Token, Key, Program, keys_of, parse_signed, unsafe_issuer, verify, compile, eval, review,
    scheme_of,
  }

  pub record ProviderRuntime : Type 0 where
    pub config : ProviderConfig
    pub jwks_url : String
    pub cel_rules : List Program

  pub record JwtValidator : Type 0 where
    pub providers : Dict ProviderRuntime
    pub cache : JwksCache e
    pub reviewer : Reviewer
    pub replay_cache : Option ReplayCache
    pub k8s_enabled : Bool

  pub data NewValidator : Type 0 where
    validator : JwtValidator → NewValidator
    bad_config : ConfigError → NewValidator
    bad_rule : NewValidator

  unfoldable pub compile_rules : List ValidationRule → Option (List Program)
  compile_rules [] = some []
  compile_rules (r ∷ more) =
      let rest = compile_rules more in
      elim (compile r.expression) [
        | none ↦ none
        | some p ↦ elim rest [ none ↦ none | some ps ↦ some (p ∷ ps) ]
      ]

  -- The providers and the JWKS URLs so far.
  unfoldable pub build_providers :
      Dict ProviderRuntime
      → List String
      → List ProviderConfig
      → Option (Dict ProviderRuntime × List String)
  unfolding compile_rules resolve_jwks_url insert
  build_providers providers urls [] = some (providers, urls)
  build_providers providers urls (pc ∷ more) =
      let url = resolve_jwks_url pc.issuer in
      elim (compile_rules pc.user_validation_rules) [
        | none ↦ none
        | some rules ↦
            build_providers
              (insert pc.issuer.url (record { config = pc; jwks_url = url; cel_rules = rules })
                providers)
              (urls ++ url ∷ []) more
      ]

  -- The options are the reviewer and the replay cache.
  unfoldable pub new_jwt_validator : Config → Reviewer → Option ReplayCache → NewValidator
  unfolding validate_config build_providers new_jwks_cache
  new_jwt_validator cfg reviewer replay = elim (validate_config scheme_of cfg) [
    | some x ↦ bad_config x
    | none ↦ elim (build_providers [] [] cfg.jwt) [
      | none ↦ bad_rule
      | some (providers, urls) ↦ validator (record {
        providers = providers;
        cache = new_jwks_cache e urls default_max_staleness default_refresh_interval;
        reviewer = reviewer;
        replay_cache = replay;
        k8s_enabled = cfg.kubernetes_enabled;
      })
    ]
  ]

  -- The first key that verifies the token.
  unfoldable pub verify_signature : Token → List Key → Option Claims
  verify_signature token [] = none
  verify_signature token (key ∷ more) =
      let rest = verify_signature token more in
      elim (verify token key) [ some claims ↦ some claims | none ↦ rest ]

  unfoldable pub rules_hold : List Program → UserIdentity → Bool
  rules_hold [] identity = true
  rules_hold (p ∷ more) identity =
      let rest = rules_hold more identity in
      elim (eval p identity.username identity.groups) [
        | some true ↦ rest
        | some false ↦ false
        | none ↦ false
      ]

  unfoldable pub review_token : World → String → World × Decision
  unfolding sanitized
  review_token w raw =
      let (w', r) = review w raw in
      (
        w',
        elim r [
          | request_failed ↦ rejected review_failed
          | not_authenticated ↦ rejected malformed
          | authenticated username groups ↦ granted (record {
            username = sanitized username;
            groups = map sanitized groups;
            issuer = "";
            raw_token = raw;
            expires_at = none;
          })
        ],
      )

  unfoldable pub fallback_to_token_review :
      JwtValidator → World → String → AuthError → World × JwtValidator × Decision
  unfolding review_token
  fallback_to_token_review v w raw orig =
      if not v.k8s_enabled then (w, v, rejected orig) else elim v.reviewer [
        | no_reviewer ↦ (w, v, rejected orig)
        | no_client ↦ (w, v, rejected review_not_configured)
        | with_client ↦ let (w', d) = review_token w raw in (w', v, d)
      ]

  -- The checks of a token that claims an issuer, with the keys of its provider.
  unfoldable pub check_token :
      JwtValidator
      → World
      → String
      → String
      → ProviderRuntime
      → Token
      → Keys
      → JwtValidator × Decision
  unfolding verify_signature check_claims check_replay build_identity rules_hold
  check_token v w raw issuer p token key_set = elim (verify_signature token (keys_of key_set)) [
    | none ↦ (v, rejected malformed)
    | some claims ↦ elim (check_claims (now w) p.config.issuer.audiences claims) [
      | some x ↦ (v, rejected x)
      | none ↦
          let (replay, y) = check_replay (now w) claims v.replay_cache in
          let v' : JwtValidator = record v { replay_cache = replay } in
          elim y [
            | some x ↦ (v', rejected x)
            | none ↦ elim (rules_hold p.cel_rules (build_identity claims issuer raw)) [
              | false ↦ (v', rejected cel_rule_failed)
              | true ↦ (v', granted (build_identity claims issuer raw))
            ]
          ]
    ]
  ]

  unfoldable pub with_provider :
      JwtValidator
      → World
      → String
      → String
      → ProviderRuntime
      → Token
      → World × JwtValidator × Decision
  unfolding get_keys check_token keys_auth_error
  with_provider v w raw issuer p token =
      let (w', c', r) = get_keys e v.cache w p.jwks_url in
      let v' : JwtValidator = record v { cache = c' } in
      elim r [
        | keys_error x ↦ (w', v', rejected (keys_auth_error x))
        | keys k ↦ let (v₂, d) = check_token v' w' raw issuer p token k in (w', v₂, d)
      ]

  unfoldable pub validate : JwtValidator → World → String → World × JwtValidator × Decision
  unfolding fallback_to_token_review with_provider lookup
  validate v w raw = elim (parse_signed raw) [
    | none ↦ fallback_to_token_review v w raw malformed
    | some token ↦ elim (unsafe_issuer token) [
      | none ↦ (w, v, rejected malformed)
      | some issuer ↦ elim (lookup issuer v.providers) [
        | none ↦ fallback_to_token_review v w raw unknown_issuer
        | some p ↦ with_provider v w raw issuer p token
      ]
    ]
  ]

-- ===== src/Auth/Jwt/Grants.antt =====
-- What lets a token through (internal/auth/jwt.go).
use kubernaut_apifrontend.Common.{
  ℕ, ◌≡◌, ◌≢◌, refl, ◌∙◌, ◌⊎◌, inl, inr, String, Bool, true, false, Option, none, some, List, [],
  ◌∷◌, map, arith, Bool-cases, Option-cases, str_eq, eq_iff,
}
use kubernaut_apifrontend.Common.All.{All, Any}
use kubernaut_apifrontend.Common.Dict.{lookup}
use kubernaut_apifrontend.Auth.Replay.{ReplayCache, missing_jti, seen}
use kubernaut_apifrontend.Auth.Jwks.{JwksEnv, KeysError, KeysResult, keys, keys_error, get_keys}
use kubernaut_apifrontend.Auth.Claims.{
  AuthError, malformed, unknown_issuer, Claims, UserIdentity, sanitized, extract_string_claim,
  build_identity, check_claims,
}
use kubernaut_apifrontend.Auth.Claims.Accepted.{
  IsUnexpired, HasStarted, IsForAudience, check_claims-iff-IsUnexpired,
}
use kubernaut_apifrontend.Auth.Jwt.{
  Review, request_failed, not_authenticated, authenticated, Reviewer, no_reviewer, no_client,
  with_client, JwtEnv, granted, check_replay, ProviderRuntime, JwtValidator, verify_signature,
  rules_hold, review_token, fallback_to_token_review, check_token, with_provider, validate,
}

-- With a replay cache, a token has an ID that the cache has not seen.
abbrev pub IsFirst : ℕ → Claims → Option ReplayCache → Type 0
IsFirst now claims none = Unit
IsFirst now claims (some c) =
    (extract_string_claim claims "jti" ≢ "")
    × ((seen now (extract_string_claim claims "jti") c).1 ≡ false)

pub KeysResult-cases :
    {Keys : Type 0} (r : KeysResult Keys)
    → ((k : Keys) × (r ≡ keys k)) ⊎ ((x : KeysError) × (r ≡ keys_error x))
KeysResult-cases (keys k) = inl (k, refl)
KeysResult-cases (keys_error x) = inr (x, refl)

replay-IsFirst :
    (now : ℕ) (claims : Claims) (c : Option ReplayCache)
    → (check_replay now claims c).1 ≡ none
    → IsFirst now claims c
unfolding check_replay missing_jti
replay-IsFirst now claims none h = tt
replay-IsFirst now claims (some c) h =
    let jti = extract_string_claim claims "jti" in
    elim (Bool-cases (str_eq jti "")) [
      | inl empty ↦ absurd (ground (arith, empty, h))
      | inr full ↦ ((λ e. ground (arith, full, e, eq_iff jti "")), ground (arith, full, h))
    ]

module _ {e : JwksEnv} (j : JwtEnv e) where
  open e use {World, Keys, now}
  open j use {Token, Key, Program, keys_of, parse_signed, unsafe_issuer, verify, eval, review}

  -- A token of a configured issuer, verified by one of its provider's keys, with acceptable claims and
  -- all rules of the provider satisfied.
  pub record IsVerified (v : JwtValidator j) (w : World) (raw : String) (id : UserIdentity)
      : Type 0 where
    pub token : Token
    pub parsed : parse_signed raw ≡ some token
    pub issuer : String
    pub claimed : unsafe_issuer token ≡ some issuer
    pub provider : ProviderRuntime j
    pub configured : lookup issuer v.providers ≡ some provider
    pub key_set : Keys
    pub served : (get_keys e v.cache w provider.jwks_url).2 ≡ keys key_set
    pub claims : Claims
    pub signed : Any (λ k. verify token k ≡ some claims) (keys_of key_set)
    pub unexpired : IsUnexpired (now (get_keys e v.cache w provider.jwks_url).0) claims
    pub started : HasStarted (now (get_keys e v.cache w provider.jwks_url).0) claims
    pub intended : IsForAudience provider.config.issuer.audiences claims
    pub first : IsFirst (now (get_keys e v.cache w provider.jwks_url).0) claims v.replay_cache
    pub holds : All (λ p. eval p id.username id.groups ≡ some true) provider.cel_rules
    pub remembered :
        (validate j v w raw).1.replay_cache
        ≡ (check_replay (now (get_keys e v.cache w provider.jwks_url).0) claims v.replay_cache).0
    pub identity : id ≡ build_identity claims issuer raw

  -- A token that the API server authenticated. It does not parse, or its issuer is not configured.
  pub record IsReviewed (v : JwtValidator j) (w : World) (raw : String) (id : UserIdentity)
      : Type 0 where
    pub enabled : v.k8s_enabled ≡ true
    pub no_provider :
        (parse_signed raw ≡ none)
        ⊎ ((token : Token) × (issuer : String) × (parse_signed raw ≡ some token)
            × (unsafe_issuer token ≡ some issuer)
            × (lookup issuer v.providers ≡ none))
    pub username : String
    pub groups : List String
    pub answer : (review w raw).1 ≡ authenticated username groups
    pub identity : id ≡ record {
      username = sanitized username;
      groups = map sanitized groups;
      issuer = "";
      raw_token = raw;
      expires_at = none;
    }

  verify-Any :
      (token : Token) (ks : List Key) (claims : Claims)
      → verify_signature j token ks ≡ some claims
      → Any (λ k. verify token k ≡ some claims) ks
  unfolding verify_signature
  verify-Any token [] claims h = cc
  verify-Any token (k ∷ more) claims h = elim (Option-cases (verify token k)) [
    | inl bad ↦ inr (verify-Any token more claims (ground (arith, bad, h)))
    | inr (found, good) ↦ inl (good ∙ (ground (arith, good, h)))
  ]

  rules-All :
      (ps : List Program) (id : UserIdentity)
      → rules_hold j ps id ≡ true
      → All (λ p. eval p id.username id.groups ≡ some true) ps
  unfolding rules_hold
  rules-All [] id h = tt
  rules-All (p ∷ more) id h = go (eval p id.username id.groups) refl (λ k. rules-All more id k)
    where
      go :
          (r : Option Bool)
          → eval p id.username id.groups ≡ r
          → (rules_hold j more id ≡ true → All (λ q. eval q id.username id.groups ≡ some true) more)
          → All (λ q. eval q id.username id.groups ≡ some true) (p ∷ more)
      go none q later = absurd (ground (arith, q, h))
      go (some false) q later = absurd (ground (arith, q, h))
      go (some true) q later = (q, later (ground (arith, q, h)))

  -- What a check that grants has found.
  record Checked (v : JwtValidator j) (w : World) (raw issuer : String) (p : ProviderRuntime j)
      (token : Token) (k : Keys) (id : UserIdentity) : Type 0 where
    claims : Claims
    signed : Any (λ key. verify token key ≡ some claims) (keys_of k)
    current : check_claims (now w) p.config.issuer.audiences claims ≡ none
    first : IsFirst (now w) claims v.replay_cache
    holds : All (λ q. eval q id.username id.groups ≡ some true) p.cel_rules
    remembered :
        (check_token j v w raw issuer p token k).0.replay_cache
        ≡ (check_replay (now w) claims v.replay_cache).0
    identity : id ≡ build_identity claims issuer raw

  check_token-Checked :
      (v : JwtValidator j) (w : World) (raw issuer : String) (p : ProviderRuntime j) (token : Token)
      (k : Keys) (id : UserIdentity)
      → (check_token j v w raw issuer p token k).1 ≡ granted id
      → Checked v w raw issuer p token k id
  unfolding check_token
  check_token-Checked v w raw issuer p token k id h =
      elim (Option-cases (verify_signature j token (keys_of k))) [
        | inl bad ↦ absurd (ground (arith, bad, h))
        | inr (claims, good) ↦
            elim (Option-cases (check_claims (now w) p.config.issuer.audiences claims)) [
              | inr (x, old) ↦ absurd (ground (arith, good, old, h))
              | inl current ↦ elim (Option-cases (check_replay (now w) claims v.replay_cache).1) [
                | inr (x, again) ↦ absurd (ground (arith, good, current, again, h))
                | inl once ↦
                    let rules : rules_hold j p.cel_rules (build_identity claims issuer raw) ≡ true =
                      ground (arith, good, current, once, h) in
                    let same : id ≡ build_identity claims issuer raw =
                      ground (arith, good, current, once, rules, h) in
                    record {
                      claims = claims;
                      signed = verify-Any token (keys_of k) claims good;
                      current = current;
                      first = replay-IsFirst (now w) claims v.replay_cache once;
                      holds =
                          rw same (rules-All p.cel_rules (build_identity claims issuer raw) rules);
                      remembered = ground (arith, good, current, once, rules);
                      identity = same;
                    }
              ]
            ]
      ]

  abbrev Fallback : JwtValidator j → World → String → UserIdentity → Type 0
  Fallback v w raw id =
      (v.k8s_enabled ≡ true)
      × (username : String) × (groups : List String) × ((review w raw).1
          ≡ authenticated username groups)
      × (id ≡ record {
        username = sanitized username;
        groups = map sanitized groups;
        issuer = "";
        raw_token = raw;
        expires_at = none;
      })

  fallback_to_token_review-Fallback :
      (v : JwtValidator j) (w : World) (raw : String) (x : AuthError) (id : UserIdentity)
      → (fallback_to_token_review j v w raw x).2 ≡ granted id
      → Fallback v w raw id
  unfolding fallback_to_token_review review_token
  fallback_to_token_review-Fallback v w raw x id h = go v.reviewer (review w raw).1 refl refl
    where
      go : (r : Reviewer) (a : Review) → v.reviewer ≡ r → (review w raw).1 ≡ a → Fallback v w raw id
      go no_reviewer a e q = absurd (ground (arith, e, h))
      go no_client a e q = absurd (ground (arith, e, h))
      go with_client request_failed e q = absurd (ground (arith, e, q, h))
      go with_client not_authenticated e q = absurd (ground (arith, e, q, h))
      go with_client (authenticated username groups) e q =
          (ground (arith, e, h), username, groups, q, ground (arith, e, q, h))

  with_provider-IsVerified :
      (v : JwtValidator j) (w : World) (raw issuer : String) (p : ProviderRuntime j) (token : Token)
      (id : UserIdentity)
      → parse_signed raw ≡ some token
      → unsafe_issuer token ≡ some issuer
      → lookup issuer v.providers ≡ some p
      → (with_provider j v w raw issuer p token).2 ≡ granted id
      → IsVerified v w raw id
  unfolding with_provider validate
  with_provider-IsVerified v w raw issuer p token id a b c h =
      elim (KeysResult-cases (get_keys e v.cache w p.jwks_url).2) [
        | inr (x, q) ↦ absurd (ground (arith, q, h))
        | inl (k, q) ↦
            let w' = (get_keys e v.cache w p.jwks_url).0 in
            let v' : JwtValidator j = record v { cache = (get_keys e v.cache w p.jwks_url).1 } in
            let done : (check_token j v' w' raw issuer p token k).1 ≡ granted id =
              ground (arith, q, h) in
            let ch = check_token-Checked v' w' raw issuer p token k id done in
            let ok =
              (check_claims-iff-IsUnexpired (now w') p.config.issuer.audiences ch.claims).0
                ch.current in
            record {
              token = token;
              parsed = a;
              issuer = issuer;
              claimed = b;
              provider = p;
              configured = c;
              key_set = k;
              served = q;
              claims = ch.claims;
              signed = ch.signed;
              unexpired = ok.0;
              started = ok.1;
              intended = ok.2;
              first = ch.first;
              holds = ch.holds;
              remembered = ground (arith, a, b, c, q, ch.remembered);
              identity = ch.identity;
            }
      ]

  reviewed :
      (v : JwtValidator j) (w : World) (raw : String) (x : AuthError) (id : UserIdentity)
      → ((parse_signed raw ≡ none)
          ⊎ ((token : Token) × (issuer : String) × (parse_signed raw ≡ some token)
              × (unsafe_issuer token ≡ some issuer)
              × (lookup issuer v.providers ≡ none)))
      → (fallback_to_token_review j v w raw x).2 ≡ granted id
      → IsReviewed v w raw id
  reviewed v w raw x id no_provider h =
      let f = fallback_to_token_review-Fallback v w raw x id h in
      record {
        enabled = f.0;
        no_provider = no_provider;
        username = f.1;
        groups = f.2;
        answer = f.3;
        identity = f.4;
      }

  -- A token is let through only in two ways. Its claimed issuer is configured, one of the keys served for
  -- that provider verifies it, it is not expired, has started and is meant for a configured
  -- audience, its ID is new to the replay cache and now remembered there, where there is one, all rules of the provider hold,
  -- and the identity is built of its claims. Or it does not parse or its issuer is not configured,
  -- token reviews are enabled, and the API server authenticated it under the user and groups of the
  -- identity. So a token of a configured issuer is never handed to a token review.
  pub validate-IsVerified :
      (v : JwtValidator j) (w : World) (raw : String) (id : UserIdentity)
      → (validate j v w raw).2 ≡ granted id
      → IsVerified v w raw id ⊎ IsReviewed v w raw id
  unfolding validate
  validate-IsVerified v w raw id h = elim (Option-cases (parse_signed raw)) [
    | inl a ↦ inr (reviewed v w raw malformed id (inl a) (rw (a, validate) at h))
    | inr (token, a) ↦ elim (Option-cases (unsafe_issuer token)) [
      | inl b ↦ absurd (ground (arith, a, b, h))
      | inr (issuer, b) ↦ elim (Option-cases (lookup issuer v.providers)) [
        | inl c ↦ inr (
            reviewed v w raw unknown_issuer id (inr (token, issuer, a, b, c))
              (ground (arith, a, b, c, h)))
        | inr (p, c) ↦
            inl (
              with_provider-IsVerified v w raw issuer p token id a b c (ground (arith, a, b, c, h)))
      ]
    ]
  ]

-- ===== src/Auth/Jwt/Once.antt =====
-- The validator (internal/auth/jwt.go) with its replay cache (replay_cache.go): no token ID twice.
use kubernaut_apifrontend.Common.{
  ℕ, ◌≡◌, ◌≢◌, refl, ap, sym, subst, ◌∙◌, inl, inr, String, true, Option, none, some, List, [], ◌∷◌,
  arith, Bool-cases, Option-cases, str_eq,
}
use kubernaut_apifrontend.Common.All.{All, Any}
use kubernaut_apifrontend.Common.Dict.{lookup}
use kubernaut_apifrontend.Common.Sweep.{HasUniqueKeys}
use kubernaut_apifrontend.Common.Int.{ℤ, pos, ◌≤ℤ◌, ◌+ℤ◌}
use kubernaut_apifrontend.Auth.Replay.{ReplayCache, missing_jti, seen, evict}
use kubernaut_apifrontend.Auth.Replay.Once.{
  Knows, seen-Knows, evict-Knows, first-Knows, refused, full_id,
}
use kubernaut_apifrontend.Auth.Jwks.{JwksEnv, get_keys}
use kubernaut_apifrontend.Auth.Claims.{
  AuthError, Claims, UserIdentity, extract_string_claim, check_claims, malformed, unknown_issuer,
}
use kubernaut_apifrontend.Auth.Jwt.{
  Reviewer, no_reviewer, no_client, with_client, JwtEnv, granted, check_replay, ProviderRuntime,
  JwtValidator, verify_signature, rules_hold, build_identity, fallback_to_token_review, check_token,
  with_provider, validate,
}
use kubernaut_apifrontend.Auth.Jwt.Grants.{
  IsFirst, KeysResult-cases, IsVerified, IsReviewed, validate-IsVerified,
}

-- A cache that knows an ID, in a validator.
abbrev HasId : String → ℤ → Option ReplayCache → Type 0
HasId jti expiry r = (c : ReplayCache) × (r ≡ some c) × Knows jti expiry c

check_replay-HasId :
    (now : ℕ) (claims : Claims) (jti : String) (expiry : ℤ) (r : Option ReplayCache)
    → HasId jti expiry r
    → HasId jti expiry (check_replay now claims r).0
unfolding check_replay missing_jti
check_replay-HasId now claims jti expiry none h = absurd (let z = h.1 in cc)
check_replay-HasId now claims jti expiry (some c) (d, e, k) =
    let same : d ≡ c = cc in
    let k' : Knows jti expiry c = subst (Knows jti expiry) same k in
    let id = extract_string_claim claims "jti" in
    elim (Bool-cases (str_eq id "")) [
      | inl empty ↦ (c, rw empty refl, k')
      | inr full ↦ ((seen now id c).0, rw full refl, seen-Knows now id jti expiry c k')
    ]

module _ {e : JwksEnv} (j : JwtEnv e) where
  open e use {World, Keys, now}
  open j use {Token, Key, keys_of, parse_signed, unsafe_issuer, verify}

  fallback_same :
      (v : JwtValidator j) (w : World) (raw : String) (x : AuthError)
      → (fallback_to_token_review j v w raw x).1 ≡ v
  unfolding fallback_to_token_review
  fallback_same v w raw x = go v.reviewer refl
    where
      go : (r : Reviewer) → v.reviewer ≡ r → (fallback_to_token_review j v w raw x).1 ≡ v
      go no_reviewer q = ground (arith, q)
      go no_client q = ground (arith, q)
      go with_client q = ground (arith, q)

  module _ (jti : String) (expiry : ℤ) where
    abbrev Holds : JwtValidator j → Type 0
    Holds v = HasId jti expiry v.replay_cache

    check_token-Holds :
        (v : JwtValidator j) (w : World) (raw issuer : String) (p : ProviderRuntime j)
        (token : Token) (k : Keys)
        → Holds v
        → Holds (check_token j v w raw issuer p token k).0
    unfolding check_token
    check_token-Holds v w raw issuer p token k h =
        elim (Option-cases (verify_signature j token (keys_of k))) [
          | inl bad ↦ rw (bad, check_token) h
          | inr (claims, good) ↦
              elim (Option-cases (check_claims (now w) p.config.issuer.audiences claims)) [
                | inr (x, old) ↦ rw (good, check_token) (rw (old, check_token) h)
                | inl current ↦
                    let kept = check_replay-HasId (now w) claims jti expiry v.replay_cache h in
                    elim (Option-cases (check_replay (now w) claims v.replay_cache).1) [
                      | inr (x, again) ↦
                          rw (good, check_token)
                            (rw (current, check_token) (rw (again, check_token) kept))
                      | inl once ↦
                          elim (Bool-cases
                            (rules_hold j p.cel_rules (build_identity claims issuer raw))) [
                              | inl yes_rules ↦
                                  rw (good, check_token)
                                    (rw (current, check_token)
                                      (rw (once, check_token) (rw (yes_rules, check_token) kept)))
                              | inr no_rules ↦
                                  rw (good, check_token)
                                    (rw (current, check_token)
                                      (rw (once, check_token) (rw (no_rules, check_token) kept)))
                            ]
                    ]
              ]
        ]

    with_provider-Holds :
        (v : JwtValidator j) (w : World) (raw issuer : String) (p : ProviderRuntime j)
        (token : Token)
        → Holds v
        → Holds (with_provider j v w raw issuer p token).1
    unfolding with_provider
    with_provider-Holds v w raw issuer p token h =
        elim (KeysResult-cases (get_keys e v.cache w p.jwks_url).2) [
          | inr (x, q) ↦ rw (q, with_provider) h
          | inl (k, q) ↦
              rw (q, with_provider)
                (check_token-Holds (record v { cache = (get_keys e v.cache w p.jwks_url).1 })
                  (get_keys e v.cache w p.jwks_url).0 raw issuer p token k h)
        ]

    fallback-Holds :
        (v : JwtValidator j) (w : World) (raw : String) (x : AuthError)
        → Holds v
        → Holds (fallback_to_token_review j v w raw x).1
    fallback-Holds v w raw x h = rw (fallback_same v w raw x) h

    validate-Holds :
        (v : JwtValidator j) (w : World) (raw : String) → Holds v → Holds (validate j v w raw).1
    unfolding validate
    validate-Holds v w raw h = elim (Option-cases (parse_signed raw)) [
      | inl a ↦ rw (a, validate) (fallback-Holds v w raw malformed h)
      | inr (token, a) ↦ elim (Option-cases (unsafe_issuer token)) [
        | inl b ↦ rw (a, validate) (rw (b, validate) h)
        | inr (issuer, b) ↦ elim (Option-cases (lookup issuer v.providers)) [
          | inl c ↦
              rw (a, validate)
                (rw (b, validate) (rw (c, validate) (fallback-Holds v w raw unknown_issuer h)))
          | inr (p, c) ↦
              rw (a, validate)
                (rw (b, validate) (rw (c, validate) (with_provider-Holds v w raw issuer p token h)))
        ]
      ]
    ]

  -- What happens to a validator: a validation, or a tick of its replay cache's eviction.
  pub data Event : Type 0 where
    validation : World → String → Event
    tick : ℕ → Event

  unfoldable pub evict_ids : ℕ → Option ReplayCache → Option ReplayCache
  evict_ids t none = none
  evict_ids t (some c) = some (evict t c)

  unfoldable pub after : Event → JwtValidator j → JwtValidator j
  unfolding evict_ids
  after (validation w raw) v = (validate j v w raw).1
  after (tick t) v = record v { replay_cache = evict_ids t v.replay_cache }

  unfoldable pub run : List Event → JwtValidator j → JwtValidator j
  run [] v = v
  run (x ∷ more) v = run more (after x v)

  -- A tick no later than a deadline.
  abbrev pub IsBy : ℤ → Event → Type 0
  IsBy deadline (validation w raw) = Unit
  IsBy deadline (tick t) = pos t ≤ℤ deadline

  evict_ids-HasId :
      (t : ℕ) (jti : String) (expiry : ℤ) (r : Option ReplayCache)
      → pos t ≤ℤ expiry
      → HasId jti expiry r
      → HasId jti expiry (evict_ids t r)
  unfolding evict_ids
  evict_ids-HasId t jti expiry none early h = absurd (let z = h.1 in cc)
  evict_ids-HasId t jti expiry (some c) early (d, e, k) =
      let same : d ≡ c = cc in
      (evict t c, refl, evict-Knows t jti expiry c early (subst (Knows jti expiry) same k))

  run-Holds :
      (events : List Event) (jti : String) (expiry : ℤ) (v : JwtValidator j)
      → All (IsBy expiry) events
      → Holds jti expiry v
      → Holds jti expiry (run events v)
  unfolding run after
  run-Holds [] jti expiry v early h = h
  run-Holds (validation w raw ∷ more) jti expiry v early h =
      run-Holds more jti expiry (validate j v w raw).1 early.1 (validate-Holds jti expiry v w raw h)
  run-Holds (tick t ∷ more) jti expiry v early h =
      run-Holds more jti expiry (record v { replay_cache = evict_ids t v.replay_cache }) early.1
        (evict_ids-HasId t jti expiry v.replay_cache early.0 h)

  abbrev pub id_of : Claims → String
  id_of claims = extract_string_claim claims "jti"

  first_kept :
      (t : ℕ) (claims : Claims) (c : ReplayCache)
      → HasUniqueKeys c.entries
      → IsFirst t claims (some c)
      → HasId (id_of claims) (pos t +ℤ c.ttl) (check_replay t claims (some c)).0
  unfolding check_replay missing_jti
  first_kept t claims c unique first =
      let full = full_id (id_of claims) first.0 in
      (
        (seen t (id_of claims) c).0,
        rw full refl,
        first-Knows c (id_of claims) t unique full first.1,
      )

  known_again :
      (now : ℕ) (claims : Claims) (jti : String) (expiry : ℤ) (r : Option ReplayCache)
      → HasId jti expiry r
      → IsFirst now claims r
      → id_of claims ≢ jti
  known_again now claims jti expiry none h first same = absurd (let z = h.1 in cc)
  known_again now claims jti expiry (some c) (d, e, k) first same =
      let equal : d ≡ c = cc in
      let known = subst (Knows jti expiry) equal k in
      let full = full_id (id_of claims) first.0 in
      let again : (seen now (id_of claims) c).1 ≡ true =
        refused now (id_of claims) expiry c full (subst (λ x. Knows x expiry c) (sym same) known) in
      let fresh = first.1 in cc

  -- Whichever key verifies the token, its claims have this ID.
  abbrev pub BearsId : Token → String → Type 0
  BearsId token jti =
      (k : Key) (claims : Claims) → verify token k ≡ some claims → id_of claims ≡ jti

  signed-id_of :
      (token : Token) (jti : String) (claims : Claims) (ks : List Key)
      → BearsId token jti
      → Any (λ k. verify token k ≡ some claims) ks
      → id_of claims ≡ jti
  signed-id_of token jti claims [] bears h = absurd h
  signed-id_of token jti claims (k ∷ more) bears (inl here) = bears k claims here
  signed-id_of token jti claims (k ∷ more) bears (inr there) =
      signed-id_of token jti claims more bears there

  not-IsReviewed :
      (v : JwtValidator j) (w : World) (raw issuer : String) (id : UserIdentity) (token : Token)
      (p : ProviderRuntime j)
      → parse_signed raw ≡ some token
      → unsafe_issuer token ≡ some issuer
      → lookup issuer v.providers ≡ some p
      → IsReviewed j v w raw id
      → ⊥
  not-IsReviewed v w raw issuer id token p parsed claimed configured h = elim h.no_provider [
    | inl a ↦ absurd (let z = sym a ∙ parsed in cc)
    | inr (token', issuer', a, b, c) ↦ absurd (
        let same : token' ≡ token = (let z = sym a ∙ parsed in cc) in
        let there : issuer' ≡ issuer = (let z = sym b ∙ ap unsafe_issuer same ∙ claimed in cc) in
        let y = sym c ∙ ap (λ i. lookup i v.providers) there ∙ configured in cc)
  ]

  -- After a token was verified, with a replay cache, Validate grants no token of a configured issuer
  -- that bears the same ID, be it the same token or another one: not after any further validations
  -- and evictions, as long as none of the evictions happens after the TTL of the cache.
  pub verified_once :
      (v : JwtValidator j) (c : ReplayCache) (w : World) (raw : String) (id : UserIdentity)
      → v.replay_cache ≡ some c
      → HasUniqueKeys c.entries
      → (first : IsVerified j v w raw id) → (events : List Event)
      → All (IsBy (pos (now (get_keys e v.cache w first.provider.jwks_url).0) +ℤ c.ttl)) events
      → (w' : World) (raw' issuer : String) (token : Token) (p : ProviderRuntime j)
      → parse_signed raw' ≡ some token
      → unsafe_issuer token ≡ some issuer
      → lookup issuer (run events (validate j v w raw).1).providers ≡ some p
      → BearsId token (id_of first.claims)
      → (id' : UserIdentity)
      → (validate j (run events (validate j v w raw).1) w' raw').2 ≢ granted id'
  verified_once v c w raw id has unique first events early w' raw' issuer token p parsed claimed
        configured bears id' entry =
      let t = now (get_keys e v.cache w first.provider.jwks_url).0 in
      let later = run events (validate j v w raw).1 in
      let deadline = pos t +ℤ c.ttl in
      let new : IsFirst t first.claims (some c) = subst (IsFirst t first.claims) has first.first in
      let kept = first_kept t first.claims c unique new in
      let state : (validate j v w raw).1.replay_cache ≡ (check_replay t first.claims (some c)).0 =
        first.remembered ∙ ap (λ r. (check_replay t first.claims r).0) has in
      let holds : Holds (id_of first.claims) deadline (validate j v w raw).1 =
        subst (HasId (id_of first.claims) deadline) (sym state) kept in
      elim (validate-IsVerified j later w' raw' id' entry) [
        | inr reviewed ↦
            absurd
              (not-IsReviewed later w' raw' issuer id' token p parsed claimed configured reviewed)
        | inl second ↦
            let same : token ≡ second.token = (let z = sym parsed ∙ second.parsed in cc) in
            known_again (now (get_keys e later.cache w' second.provider.jwks_url).0) second.claims
              (id_of first.claims) deadline later.replay_cache
              (run-Holds events (id_of first.claims) deadline (validate j v w raw).1 early holds)
              second.first
              (signed-id_of second.token (id_of first.claims) second.claims (keys_of second.key_set)
                (subst (λ x. BearsId x (id_of first.claims)) same bears) second.signed)
      ]

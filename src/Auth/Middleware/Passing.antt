-- ===== src/Auth/Middleware/Passing.antt =====
-- Which requests reach the next handler: internal/auth/middleware.go.
use kubernaut_apifrontend.Common.{
  ℕ, ◌+◌, ◌*◌, ◌≤◌, ◌<◌, ◌≡◌, ◌≢◌, refl, ap, sym, ◌∙◌, ◌⊎◌, inl, inr, String, true, false, Option,
  none, some, List, [], ◌∷◌, arith, Bool-cases, Option-cases, str_eq, eq_iff, codes, ◌==◌, ==_iff,
}
use Prim.Native.Char.{code}
use Prim.Native.String
use Prim.Native.String.append
use text.Mathlib.TextEquality.{Char-path}
use kubernaut_apifrontend.Common.All.{All, Any}
use kubernaut_apifrontend.Common.Int.{ℤ, pos, ◌≤ℤ◌, ◌+ℤ◌, ◌-ℤ◌, +ℤ_parts, -ℤ_parts}
use kubernaut_apifrontend.Auth.Jwks.{JwksEnv, second}
use kubernaut_apifrontend.Auth.Claims.{
  UserIdentity, unix_nanos, AuthError, malformed, unknown_issuer, circuit_open, keys_unavailable,
  missing_expiry, token_expired, not_yet_valid, invalid_audience, token_replayed, cel_rule_failed,
  review_not_configured, review_failed,
}
use kubernaut_apifrontend.Auth.Jwt.{JwtEnv, JwtValidator, Decision, granted, rejected, validate}
use kubernaut_apifrontend.Auth.Jwt.Grants.{IsVerified, IsReviewed, validate-IsVerified}
use kubernaut_apifrontend.Auth.Middleware.{
  is_bad_rune, has_control, classify_auth_error, strip_prefix, auth_failure, auth_success, problem,
  next_handler, Authentication, deadline_of, decided, authenticate,
}

-- A tab, or no control character.
abbrev pub IsPlain : ℕ → Type 0
IsPlain r = (r ≡ 9) ⊎ ((32 ≤ r) × ((r < 127) ⊎ (160 ≤ r)))

has_control-IsPlain : (rs : List ℕ) → has_control rs ≡ false → All IsPlain rs
unfolding has_control
has_control-IsPlain [] h = tt
has_control-IsPlain (r ∷ more) h =
    let here : is_bad_rune r ≡ false = ground arith in
    let rest : has_control more ≡ false = ground (arith, here) in
    (plain r here, has_control-IsPlain more rest)
  where
    plain : (x : ℕ) → is_bad_rune x ≡ false → IsPlain x
    plain x k = unfold is_bad_rune in ground arith

strip_prefix-some : (p s t : String) → strip_prefix p s ≡ some t → s ≡ String.◌++◌ p t
unfolding strip_prefix
strip_prefix-some String.[] s t h = let e : s ≡ t = cc in e ∙ sym (append.nil t)
strip_prefix-some (String.◌∷◌ p ps) String.[] t h = cc
strip_prefix-some (String.◌∷◌ p ps) (String.◌∷◌ c s) t h = elim (Bool-cases (code p == code c)) [
  | inr other ↦ absurd (ground (arith, other, h))
  | inl same ↦
      let rest : strip_prefix ps s ≡ some t = ground (arith, same, h) in
      let first : c ≡ p = sym (Char-path p c ((==_iff (code p) (code c)).0 same)) in
      ap (λ x. String.◌∷◌ x s) first
      ∙ (ap (λ x. String.◌∷◌ p x) (strip_prefix-some ps s t rest) ∙ sym (append.cons p ps t))
]

bad_rune-not-IsPlain : (r : ℕ) → is_bad_rune r ≡ true → IsPlain r → ⊥
unfolding is_bad_rune
bad_rune-not-IsPlain r h k = ground arith

has_control-Any : (rs : List ℕ) → has_control rs ≡ true → Any (λ r. IsPlain r → ⊥) rs
unfolding has_control
has_control-Any [] h = absurd (cc)
has_control-Any (r ∷ more) h = elim (Bool-cases (is_bad_rune r)) [
  | inl bad ↦ inl (bad_rune-not-IsPlain r bad)
  | inr good ↦ inr (has_control-Any more (ground (arith, good, h)))
]

strip_prefix-append : (p t : String) → strip_prefix p (String.◌++◌ p t) ≡ some t
unfolding strip_prefix
strip_prefix-append String.[] t = rw (append.nil t) refl
strip_prefix-append (String.◌∷◌ c ps) t =
    rw (append.cons c ps t, (==_iff (code c) (code c)).1 refl) (strip_prefix-append ps t)

strip_prefix-none : (p s : String) → strip_prefix p s ≡ none → (t : String) → s ≢ String.◌++◌ p t
strip_prefix-none p s h t e =
    absurd (
      let z : strip_prefix p s ≡ some t = rw e (strip_prefix-append p t) in let y = sym h ∙ z in cc)

-- The reason that the audit event gives for an error of the validator.
abbrev pub reason_of : AuthError → String
reason_of token_replayed = "token_replayed"
reason_of token_expired = "token_expired"
reason_of not_yet_valid = "not_yet_valid"
reason_of invalid_audience = "invalid_audience"
reason_of unknown_issuer = "unknown_issuer"
reason_of malformed = "malformed_token"
reason_of circuit_open = "circuit_open"
reason_of cel_rule_failed = "cel_rule_failed"
reason_of missing_expiry = "missing_expiry"
reason_of keys_unavailable = "validation_failed"
reason_of review_not_configured = "validation_failed"
reason_of review_failed = "validation_failed"

classify_auth_error_lem : (x : AuthError) → classify_auth_error x ≡ reason_of x
unfolding classify_auth_error
classify_auth_error_lem token_replayed = refl
classify_auth_error_lem token_expired = refl
classify_auth_error_lem not_yet_valid = refl
classify_auth_error_lem invalid_audience = refl
classify_auth_error_lem unknown_issuer = refl
classify_auth_error_lem malformed = refl
classify_auth_error_lem circuit_open = refl
classify_auth_error_lem cel_rule_failed = refl
classify_auth_error_lem missing_expiry = refl
classify_auth_error_lem keys_unavailable = refl
classify_auth_error_lem review_not_configured = refl
classify_auth_error_lem review_failed = refl

-- From 25 to 34 seconds before the expiry.
pub record IsDeadline (s deadline : ℤ) : Type 0 where
  pub early : deadline +ℤ pos (25 * second) ≤ℤ unix_nanos s
  pub late : unix_nanos s ≤ℤ deadline +ℤ pos (34 * second)

deadline_of-IsDeadline :
    (random : ℕ) (s : ℤ)
    → random < 10
    → (d : ℤ) × (deadline_of random (some s) ≡ some d) × IsDeadline s d
unfolding deadline_of
deadline_of-IsDeadline random s h =
    let d = unix_nanos s -ℤ pos ((25 + random) * second) in
    (
      d,
      refl,
      record {
        early = omega (
          arith,
          -ℤ_parts (unix_nanos s) (pos ((25 + random) * second)),
          +ℤ_parts d (pos (25 * second)),
        );
        late = omega (
          arith,
          -ℤ_parts (unix_nanos s) (pos ((25 + random) * second)),
          +ℤ_parts d (pos (34 * second)),
        );
      },
    )

-- The deadline of the context for an expiry.
abbrev pub HasDeadline : Option ℤ → Option ℤ → Type 0
HasDeadline none d = d ≡ none
HasDeadline (some s) d = (x : ℤ) × (d ≡ some x) × IsDeadline s x

deadline_of-HasDeadline :
    (random : ℕ) (expiry : Option ℤ) → random < 10 → HasDeadline expiry (deadline_of random expiry)
deadline_of-HasDeadline random none h = unfold deadline_of in refl
deadline_of-HasDeadline random (some s) h = deadline_of-IsDeadline random s h

has_text : (s : String) → str_eq s "" ≡ false → s ≢ ""
has_text s h e = absurd (let y = sym ((eq_iff s "").1 e) ∙ h in cc)

Decision-cases :
    (d : Decision) → ((x : UserIdentity) × (d ≡ granted x)) ⊎ ((x : AuthError) × (d ≡ rejected x))
Decision-cases (granted x) = inl (x, refl)
Decision-cases (rejected x) = inr (x, refl)

module _ {e : JwksEnv} (j : JwtEnv e) where
  open e use {World}

  -- The request goes on, or a problem is written, and the event tells why.
  pub data Authenticates (v : JwtValidator j) (w : World) (header : String) (a : Authentication)
      : Type 0 where
    passes :
        (token : String) (id : UserIdentity) (deadline : Option ℤ)
        → header ≡ String.◌++◌ "Bearer " token
        → All IsPlain (codes header)
        → (validate j v w token).2 ≡ granted id
        → IsVerified j v w token id ⊎ IsReviewed j v w token id
        → a.reply ≡ next_handler id deadline
        → HasDeadline id.expires_at deadline
        → a.audited ≡ auth_success id.username id.issuer
        → Authenticates v w header a
    no_header :
        header ≡ ""
        → a.reply ≡ problem 401
        → a.audited ≡ auth_failure "missing_header"
        → Authenticates v w header a
    unprintable :
        Any (λ r. IsPlain r → ⊥) (codes header)
        → a.reply ≡ problem 400
        → a.audited ≡ auth_failure "control_chars"
        → Authenticates v w header a
    other_scheme :
        header ≢ ""
        → All IsPlain (codes header)
        → ((token : String) → header ≢ String.◌++◌ "Bearer " token)
        → a.reply ≡ problem 401
        → a.audited ≡ auth_failure "non_bearer"
        → Authenticates v w header a
    bad_token :
        (token : String) (x : AuthError)
        → header ≡ String.◌++◌ "Bearer " token
        → All IsPlain (codes header)
        → (validate j v w token).2 ≡ rejected x
        → a.reply ≡ problem 401
        → a.audited ≡ auth_failure (reason_of x)
        → Authenticates v w header a

  -- A request reaches the next handler only with an Authorization header that holds no control
  -- character, is "Bearer " and a token, and whose token is verified or reviewed; the context then
  -- carries the identity, and a deadline from 25 to 34 seconds before the expiry of its token, if
  -- there is one. A request is refused only for one of four reasons: without a header, with another
  -- scheme, and with a token that the validator rejects it is answered with 401, and with a control
  -- character in its header with 400. Either way one audit event is emitted, of the success with its
  -- user or of the failure with its reason.
  pub authenticate-Authenticates :
      (random : ℕ) (v : JwtValidator j) (w : World) (header : String)
      → random < 10
      → Authenticates v w header (authenticate j random v w header).2
  unfolding authenticate decided
  authenticate-Authenticates random v w header small = elim (Bool-cases (str_eq header "")) [
    | inl absent ↦ rw absent (no_header ((eq_iff header "").0 absent) refl refl)
    | inr there ↦ elim (Bool-cases (has_control (codes header))) [
      | inl bad ↦ rw there (rw bad (unprintable (has_control-Any (codes header) bad) refl refl))
      | inr plain ↦ elim (Option-cases (strip_prefix "Bearer " header)) [
        | inl scheme ↦ rw there (
            rw plain (
              rw (scheme, authenticate)
                (other_scheme (has_text header there) (has_control-IsPlain (codes header) plain)
                  (strip_prefix-none "Bearer " header scheme) refl refl)))
        | inr (token, found) ↦ elim (Decision-cases (validate j v w token).2) [
          | inr (x, no_entry) ↦ rw there (
              rw plain (
                rw (found, authenticate)
                  (rw (no_entry, decided)
                    (bad_token token x (strip_prefix-some "Bearer " header token found)
                      (has_control-IsPlain (codes header) plain) no_entry refl
                      (ap auth_failure (classify_auth_error_lem x))))))
          | inl (id, entry) ↦ rw there (
              rw plain (
                rw (found, authenticate)
                  (rw (entry, decided)
                    (passes token id (deadline_of random id.expires_at)
                      (strip_prefix-some "Bearer " header token found)
                      (has_control-IsPlain (codes header) plain) entry
                      (validate-IsVerified j v w token id entry) refl
                      (deadline_of-HasDeadline random id.expires_at small) refl))))
        ]
      ]
    ]
  ]

-- ===== src/Auth/Claims/Accepted.antt =====
-- Which claims pass (internal/auth/jwt.go).
use kubernaut_apifrontend.Common.{
  ℕ, ◌≡◌, refl, ◌↔◌, ◌⊎◌, inl, inr, String, true, Option, none, some, List, [], ◌∷◌, arith,
  Bool-cases, str_eq, eq_iff,
}
use kubernaut_apifrontend.Common.All.{Any}
use kubernaut_apifrontend.Common.Dict.{lookup}
use kubernaut_apifrontend.Common.Int.{ℤ, pos, ◌≤ℤ◌, le_of_ltb_ℤ, ltb_ℤ_of_le}
use kubernaut_apifrontend.Auth.Claims.{
  not_finite, unix, ClaimValue, text_claim, number_claim, array_claim, other_claim, Claims,
  unix_nanos, validate_expiry, validate_not_before, extract_audiences, has_audience, audience_loop,
  validate_audience, check_claims,
}

abbrev pub IsUnexpired : ℕ → Claims → Type 0
IsUnexpired now claims =
    (s : ℤ) × (lookup "exp" claims ≡ some (number_claim (unix s))) × (pos now ≤ℤ unix_nanos s)

abbrev pub HasStarted : ℕ → Claims → Type 0
HasStarted now claims =
    (lookup "nbf" claims ≡ none)
    ⊎ ((s : ℤ) × (lookup "nbf" claims ≡ some (number_claim (unix s))) × (unix_nanos s ≤ℤ pos now))

-- A configured audience that the token names.
abbrev pub IsForAudience : List String → Claims → Type 0
IsForAudience expected claims = Any (λ x. Any (λ a. a ≡ x) (extract_audiences claims)) expected

abbrev Claim : Type 0
Claim = Option ClaimValue

expiry-IsUnexpired :
    (now : ℕ) (claims : Claims) → validate_expiry now claims ≡ none → IsUnexpired now claims
unfolding validate_expiry
expiry-IsUnexpired now claims h = go (lookup "exp" claims) refl
  where
    go : (c : Claim) → lookup "exp" claims ≡ c → IsUnexpired now claims
    go none e = absurd (ground (arith, e, h))
    go (some (text_claim s)) e = absurd (ground (arith, e, h))
    go (some (array_claim s)) e = absurd (ground (arith, e, h))
    go (some other_claim) e = absurd (ground (arith, e, h))
    go (some (number_claim not_finite)) e = absurd (ground (arith, e, h))
    go (some (number_claim (unix s))) e =
        (s, e, le_of_ltb_ℤ (unix_nanos s) (pos now) (ground (arith, e, h)))

IsUnexpired-expiry :
    (now : ℕ) (claims : Claims) → IsUnexpired now claims → validate_expiry now claims ≡ none
unfolding validate_expiry
IsUnexpired-expiry now claims (s, e, le) =
    rw (e, validate_expiry) (rw (ltb_ℤ_of_le (unix_nanos s) (pos now) le) refl)

not_before-HasStarted :
    (now : ℕ) (claims : Claims) → validate_not_before now claims ≡ none → HasStarted now claims
unfolding validate_not_before
not_before-HasStarted now claims h = go (lookup "nbf" claims) refl
  where
    go : (c : Claim) → lookup "nbf" claims ≡ c → HasStarted now claims
    go none e = inl e
    go (some (text_claim s)) e = absurd (ground (arith, e, h))
    go (some (array_claim s)) e = absurd (ground (arith, e, h))
    go (some other_claim) e = absurd (ground (arith, e, h))
    go (some (number_claim not_finite)) e = absurd (ground (arith, e, h))
    go (some (number_claim (unix s))) e =
        inr (s, e, le_of_ltb_ℤ (pos now) (unix_nanos s) (ground (arith, e, h)))

HasStarted-not_before :
    (now : ℕ) (claims : Claims) → HasStarted now claims → validate_not_before now claims ≡ none
unfolding validate_not_before
HasStarted-not_before now claims (inl e) = rw (e, validate_not_before)
HasStarted-not_before now claims (inr (s, e, le)) =
    rw (e, validate_not_before) (rw (ltb_ℤ_of_le (pos now) (unix_nanos s) le) refl)

has_audience-Any :
    (x : String) (actual : List String) → has_audience x actual ≡ true → Any (λ a. a ≡ x) actual
unfolding has_audience
has_audience-Any x [] h = cc
has_audience-Any x (a ∷ more) h = elim (Bool-cases (str_eq a x)) [
  | inl same ↦ inl ((eq_iff a x).0 same)
  | inr other ↦ inr (has_audience-Any x more (ground (arith, other, h)))
]

Any-has_audience :
    (x : String) (actual : List String) → Any (λ a. a ≡ x) actual → has_audience x actual ≡ true
unfolding has_audience
Any-has_audience x [] h = absurd h
Any-has_audience x (a ∷ more) (inl e) = ground (arith, e, eq_iff a x)
Any-has_audience x (a ∷ more) (inr h) = ground (arith, Any-has_audience x more h)

audience_loop-Any :
    (actual expected : List String)
    → audience_loop actual expected ≡ none
    → Any (λ x. Any (λ a. a ≡ x) actual) expected
unfolding audience_loop
audience_loop-Any actual [] h = cc
audience_loop-Any actual (x ∷ more) h = elim (Bool-cases (has_audience x actual)) [
  | inl found ↦ inl (has_audience-Any x actual found)
  | inr other ↦ inr (audience_loop-Any actual more (ground (arith, other, h)))
]

Any-audience_loop :
    (actual expected : List String)
    → Any (λ x. Any (λ a. a ≡ x) actual) expected
    → audience_loop actual expected ≡ none
unfolding audience_loop
Any-audience_loop actual [] h = absurd h
Any-audience_loop actual (x ∷ more) (inl h) = rw (Any-has_audience x actual h) refl
Any-audience_loop actual (x ∷ more) (inr h) = ground (arith, Any-audience_loop actual more h)

-- Claims pass exactly if they have a numeric expiry that is not past, a numeric start that is not in
-- the future, where they have one, and an audience that is configured.
pub check_claims-iff-IsUnexpired :
    (now : ℕ) (audiences : List String) (claims : Claims)
    → (check_claims now audiences claims ≡ none)
      ↔ (IsUnexpired now claims × HasStarted now claims × IsForAudience audiences claims)
unfolding check_claims validate_audience
check_claims-iff-IsUnexpired now audiences claims = (passed, passes)
  where
    passed :
        check_claims now audiences claims ≡ none
        → IsUnexpired now claims × HasStarted now claims × IsForAudience audiences claims
    passed h =
        let a : validate_expiry now claims ≡ none = ground arith in
        let b : validate_not_before now claims ≡ none = ground (arith, a) in
        let c : audience_loop (extract_audiences claims) audiences ≡ none = ground (arith, a, b) in
        (
          expiry-IsUnexpired now claims a,
          not_before-HasStarted now claims b,
          audience_loop-Any (extract_audiences claims) audiences c,
        )

    passes :
        IsUnexpired now claims × HasStarted now claims × IsForAudience audiences claims
        → check_claims now audiences claims ≡ none
    passes h =
        let a = IsUnexpired-expiry now claims h.0 in
        let b = HasStarted-not_before now claims h.1 in
        let c = Any-audience_loop (extract_audiences claims) audiences h.2 in
        ground (arith, a, b, c)

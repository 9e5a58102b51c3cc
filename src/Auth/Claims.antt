-- ===== src/Auth/Claims.antt =====
-- The checks of a token's claims, and the identity that is built of them: internal/auth/jwt.go and
-- types.go. Claims are what encoding/json makes of the payload, so that a text is a list of runes.
pub mod Accepted
use kubernaut_apifrontend.Common.{
  ℕ, suc, ◌-◌, ◌*◌, String, Bool, true, false, Option, none, some, List, [], ◌∷◌, map, ◌||◌,
  if◌then◌else◌, str_eq, codes,
}
use kubernaut_apifrontend.Common.Dict.{Dict, lookup}
use kubernaut_apifrontend.Common.Int.{ℤ, pos, negsuc, ltb_ℤ}
use kubernaut_apifrontend.Auth.Jwks.{second}
use kubernaut_apifrontend.Auth.Sanitize.{Decoded, rune, sanitize_claim_value}

-- The errors of the validation; the last three are those of the token review.
pub data AuthError : Type 0 where
  malformed unknown_issuer circuit_open keys_unavailable missing_expiry token_expired : AuthError
  not_yet_valid invalid_audience token_replayed cel_rule_failed : AuthError
  review_not_configured review_failed : AuthError

-- A JSON number: its conversion to int64 seconds, or that it is infinite or no number.
pub data Number : Type 0 where
  not_finite : Number
  unix : ℤ → Number

-- In an array, `none` stands for an entry that is no string.
pub data ClaimValue : Type 0 where
  text_claim : String → ClaimValue
  number_claim : Number → ClaimValue
  array_claim : List (Option String) → ClaimValue
  other_claim : ClaimValue

abbrev pub Claims : Type 0
Claims = Dict ClaimValue

-- time.Unix(s, 0), in nanoseconds.
unfoldable pub unix_nanos : ℤ → ℤ
unix_nanos (pos s) = pos (s * second)
unix_nanos (negsuc s) = negsuc (suc s * second - 1)

unfoldable pub validate_expiry : ℕ → Claims → Option AuthError
unfolding lookup unix_nanos
validate_expiry now claims = elim (lookup "exp" claims) [
  | some (number_claim not_finite) ↦ some malformed
  | some (number_claim (unix s)) ↦
      if ltb_ℤ (unix_nanos s) (pos now) then some token_expired else none
  | some _ ↦ some missing_expiry
  | none ↦ some missing_expiry
]

unfoldable pub validate_not_before : ℕ → Claims → Option AuthError
unfolding lookup unix_nanos
validate_not_before now claims = elim (lookup "nbf" claims) [
  | none ↦ none
  | some (number_claim not_finite) ↦ some malformed
  | some (number_claim (unix s)) ↦
      if ltb_ℤ (pos now) (unix_nanos s) then some not_yet_valid else none
  | some _ ↦ some malformed
]

-- The strings of an array.
unfoldable pub strings_of : List (Option String) → List String
strings_of [] = []
strings_of (none ∷ more) = strings_of more
strings_of (some s ∷ more) = s ∷ strings_of more

unfoldable pub extract_audiences : Claims → List String
unfolding lookup strings_of
extract_audiences claims = elim (lookup "aud" claims) [
  | some (text_claim s) ↦ s ∷ []
  | some (array_claim items) ↦ strings_of items
  | some _ ↦ []
  | none ↦ []
]

unfoldable pub has_audience : String → List String → Bool
has_audience expected [] = false
has_audience expected (actual ∷ more) = str_eq actual expected || has_audience expected more

unfoldable pub audience_loop : List String → List String → Option AuthError
unfolding has_audience
audience_loop actual [] = some invalid_audience
audience_loop actual (expected ∷ more) =
    let rest = audience_loop actual more in if has_audience expected actual then none else rest

unfoldable pub validate_audience : Claims → List String → Option AuthError
unfolding audience_loop extract_audiences
validate_audience claims expected = audience_loop (extract_audiences claims) expected

-- A claim that is not a string counts as the empty one.
unfoldable pub extract_string_claim : Claims → String → String
unfolding lookup
extract_string_claim claims key = elim (lookup key claims) [
  | some (text_claim s) ↦ s
  | some _ ↦ ""
  | none ↦ ""
]

-- The nil slice is the empty list.
unfoldable pub extract_groups_claim : Claims → List String
unfolding lookup strings_of
extract_groups_claim claims = elim (lookup "groups" claims) [
  | some (array_claim items) ↦ strings_of items
  | some _ ↦ []
  | none ↦ []
]

-- The user name and the groups are bytes; the expiry is in seconds.
pub record UserIdentity : Type 0 where
  pub username : List ℕ
  pub groups : List (List ℕ)
  pub issuer : String
  pub raw_token : String
  pub expires_at : Option ℤ

unfoldable pub sanitized : String → List ℕ
unfolding sanitize_claim_value
sanitized s = sanitize_claim_value (map rune (codes s))

unfoldable pub username_of : Claims → String
unfolding extract_string_claim
username_of claims =
    let preferred = extract_string_claim claims "preferred_username" in
    if str_eq preferred "" then extract_string_claim claims "sub" else preferred

unfoldable pub expiry_of : Claims → Option ℤ
unfolding lookup
expiry_of claims = elim (lookup "exp" claims) [
  | some (number_claim (unix s)) ↦ some s
  | some _ ↦ none
  | none ↦ none
]

unfoldable pub build_identity : Claims → String → String → UserIdentity
unfolding username_of sanitized extract_groups_claim expiry_of
build_identity claims issuer raw = record {
  username = sanitized (username_of claims);
  groups = map sanitized (extract_groups_claim claims);
  issuer = issuer;
  raw_token = raw;
  expires_at = expiry_of claims;
}

-- Expiry, start and audience, in this order.
unfoldable pub check_claims : ℕ → List String → Claims → Option AuthError
unfolding validate_expiry validate_not_before validate_audience
check_claims now audiences claims = elim (validate_expiry now claims) [
  | some x ↦ some x
  | none ↦ elim (validate_not_before now claims) [
    | some x ↦ some x
    | none ↦ validate_audience claims audiences
  ]
]

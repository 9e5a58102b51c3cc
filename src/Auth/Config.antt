-- ===== src/Auth/Config.antt =====
-- The authentication configuration, internal/auth/config.go. The parser of URLs is outside: it gives
-- the scheme of a URL, if it parses. A text stands for its bytes.
pub mod Valid
use kubernaut_apifrontend.Common.{
  ℕ, String, Bool, true, false, Option, none, some, List, [], ◌∷◌, ◌||◌, ◌&&◌, ◌==◌, ltb, not,
  if◌then◌else◌, length, str_eq, codes,
}

pub record ValidationRule : Type 0 where
  pub expression : String
  pub message : String

pub record IssuerConfig : Type 0 where
  pub url : String
  pub jwks_url : String
  pub audiences : List String

pub record ProviderConfig : Type 0 where
  pub issuer : IssuerConfig
  pub user_validation_rules : List ValidationRule

pub record Config : Type 0 where
  pub jwt : List ProviderConfig
  pub kubernetes_enabled : Bool
  pub allow_insecure_issuers : Bool

pub data ConfigError : Type 0 where
  empty_issuer no_audiences empty_expression duplicate_issuer : ConfigError
  issuer_url_too_long issuer_url_null invalid_issuer_url insecure_scheme unsupported_scheme :
      ConfigError

unfoldable pub resolve_jwks_url : IssuerConfig → String
resolve_jwks_url c = if str_eq c.jwks_url "" then c.url else c.jwks_url

abbrev pub max_issuer_url_len : ℕ
max_issuer_url_len = 4096

unfoldable pub has_null : List ℕ → Bool
has_null [] = false
has_null (b ∷ more) = (b == 0) || has_null more

unfoldable pub has_empty_expression : List ValidationRule → Bool
has_empty_expression [] = false
has_empty_expression (r ∷ more) = str_eq r.expression "" || has_empty_expression more

unfoldable pub is_member : String → List String → Bool
is_member s [] = false
is_member s (x ∷ more) = str_eq x s || is_member s more

unfoldable pub no_entries {ℓ} : {A : Type ℓ} → List A → Bool
no_entries [] = true
no_entries (x ∷ more) = false

module _ (scheme_of : String → Option String) (allow_insecure : Bool) where
  unfoldable pub validate_issuer_url : String → Option ConfigError
  unfolding has_null
  validate_issuer_url raw =
      if ltb max_issuer_url_len (length (codes raw))
      then some issuer_url_too_long
      else if has_null (codes raw)
      then some issuer_url_null
      else elim (scheme_of raw) [
        | none ↦ some invalid_issuer_url
        | some scheme ↦
            if str_eq scheme "https"
            then none
            else if str_eq scheme "http"
            then (if allow_insecure then none else some insecure_scheme)
            else some unsupported_scheme
      ]

  -- The checks of one provider, in their order.
  unfoldable pub validate_provider : List String → ProviderConfig → Option ConfigError
  unfolding validate_issuer_url has_empty_expression is_member no_entries
  validate_provider seen p =
      if str_eq p.issuer.url ""
      then some empty_issuer
      else elim (validate_issuer_url p.issuer.url) [
        | some x ↦ some x
        | none ↦
            if no_entries p.issuer.audiences
            then some no_audiences
            else elim (if str_eq p.issuer.jwks_url ""
                then none
                else validate_issuer_url p.issuer.jwks_url) [
                  | some x ↦ some x
                  | none ↦
                      if has_empty_expression p.user_validation_rules
                      then some empty_expression
                      else if is_member p.issuer.url seen
                      then some duplicate_issuer
                      else none
                ]
      ]

  unfoldable pub validate_providers : List String → List ProviderConfig → Option ConfigError
  unfolding validate_provider
  validate_providers seen [] = none
  validate_providers seen (p ∷ more) =
      let rest = validate_providers (p.issuer.url ∷ seen) more in
      elim (validate_provider seen p) [ some x ↦ some x | none ↦ rest ]

unfoldable pub validate_config : (String → Option String) → Config → Option ConfigError
unfolding validate_providers
validate_config scheme_of c = validate_providers scheme_of c.allow_insecure_issuers [] c.jwt

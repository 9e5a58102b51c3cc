-- ===== src/Config/Settings.antt =====
-- Config of internal/config/config.go with its defaults and its validation, and the retry
-- configuration that cmd/apifrontend/main.go makes of it. YAML, the file system and the environment
-- are outside. An error is the field that it names.
pub mod Defaults
pub mod Valid
pub mod Parts
pub mod Accepted
pub mod Attempts
use kubernaut_apifrontend.Common.{
  ℕ, ◌+◌, ◌-◌, ◌*◌, ◌==◌, String, Bool, true, false, Option, none, some, List, [], ◌∷◌, map, ◌&&◌,
  ◌||◌, not, ltb, leb, str_eq, codes, if◌then◌else◌,
}
use Prim.Native.String
use kubernaut_apifrontend.Common.Dict.{Dict}
use kubernaut_apifrontend.Common.Int.{ℤ, pos, negsuc, ltb_ℤ, ◌+ℤ◌}
use kubernaut_apifrontend.Config.Types.{
  millisecond, ConfigEnv, DependencyConfig, ResilienceConfig, SessionConfig, AuthConfig,
  RateLimitConfig, ServerConfig, AgentConfig, SeverityTriageConfig, Config,
}
use kubernaut_apifrontend.Resilience.Retry.{RetryConfig}

pub data SettingsError : Type 0 where
  bad_field : (field : String) → SettingsError

abbrev pub Check : Type 0
Check = Option SettingsError

-- `if bad { return fmt.Errorf(...) }`
unfoldable pub fails_if : Bool → String → Check
fails_if bad field = if bad then some (bad_field field) else none

-- `if err := x; err != nil { return err }`, and then y.
unfoldable pub then_check : Check → Check → Check
then_check (some x) y = some x
then_check none y = y

unfoldable pub is_status : ℕ → Bool
is_status code = not (ltb code 400 || ltb 599 code)

unfoldable pub validate_statuses : String → List ℕ → Check
unfolding is_status fails_if then_check
validate_statuses field [] = none
validate_statuses field (s ∷ more) =
    then_check (fails_if (not (is_status s)) field) (validate_statuses field more)

unfoldable pub validate_dependency_config : String → DependencyConfig → Check
unfolding fails_if then_check validate_statuses
validate_dependency_config prefix cfg =
    then_check (fails_if (ltb_ℤ cfg.connect_timeout (pos 0)) (String.◌++◌ prefix ".connectTimeout"))
      (then_check
        (fails_if (ltb_ℤ cfg.request_timeout (pos 0)) (String.◌++◌ prefix ".requestTimeout"))
        (then_check
          (fails_if
            (ltb_ℤ (pos 0) cfg.connect_timeout
              && (ltb_ℤ (pos 0) cfg.request_timeout
                  && ltb_ℤ cfg.request_timeout cfg.connect_timeout))
            (String.◌++◌ prefix ".requestTimeout"))
          (then_check
            (fails_if (cfg.cb_failure_threshold == 0 || ltb 100 cfg.cb_failure_threshold)
              (String.◌++◌ prefix ".cbFailureThreshold"))
            (then_check (fails_if (ltb_ℤ (pos 10) cfg.retry_max) (String.◌++◌ prefix ".retryMax")) (
              validate_statuses (String.◌++◌ prefix ".retryableStatuses")
                cfg.retryable_statuses)))))

unfoldable pub validate_resilience : ResilienceConfig → Check
unfolding then_check validate_dependency_config
validate_resilience r = then_check (validate_dependency_config "resilience.ka" r.ka) (
    then_check (validate_dependency_config "resilience.ds" r.ds)
      (validate_dependency_config "resilience.k8s" r.k8s))

unfoldable pub validate_session : SessionConfig → Check
unfolding fails_if
validate_session s =
    fails_if
      (str_eq s.namespace "" && (ltb_ℤ (pos 0) s.disconnect_ttl || ltb_ℤ (pos 0) s.retention_ttl))
      "session.namespace"

-- strings.ToUpper, as far as its results are ASCII: U+0131 is a small i without a dot, U+017F a long s.
unfoldable pub upper_rune : ℕ → ℕ
upper_rune c =
    if leb b'a' c && leb c b'z'
    then c - 32
    else (if c == 305 then b'I' else (if c == 383 then b'S' else c))

unfoldable pub equal_runes : List ℕ → List ℕ → Bool
equal_runes [] [] = true
equal_runes [] (y ∷ ys) = false
equal_runes (x ∷ xs) [] = false
equal_runes (x ∷ xs) (y ∷ ys) = (x == y) && equal_runes xs ys

-- validLogLevels.
unfoldable pub is_log_level : List ℕ → Bool
unfolding equal_runes
is_log_level s =
    equal_runes s (codes "DEBUG")
    || (equal_runes s (codes "INFO")
        || (equal_runes s (codes "WARN") || equal_runes s (codes "ERROR")))

unfoldable pub validate_logging : String → Check
unfolding fails_if is_log_level upper_rune
validate_logging level =
    fails_if (not (is_log_level (map upper_rune (codes level)))) "logging.level"

unfoldable pub validate_rate_limit : RateLimitConfig → Check
unfolding fails_if then_check
validate_rate_limit r =
    then_check (fails_if (ltb_ℤ r.ip_requests_per_sec (pos 1)) "rateLimit.ipRequestsPerSec")
      (fails_if (ltb_ℤ r.user_requests_per_sec (pos 1)) "rateLimit.userRequestsPerSec")

unfoldable pub validate_shutdown : ℤ → Check
unfolding fails_if
validate_shutdown drain_seconds = fails_if (ltb_ℤ drain_seconds (pos 1)) "shutdown.drainSeconds"

module _ (e : ConfigEnv) where
  open e use {
    Float, zero_float, is_below_zero, is_above_one, scheme_of, accessible, llm_api_key, show_port,
  }

  unfoldable pub validate_url : String → String → Check
  unfolding fails_if
  validate_url field raw = elim (scheme_of raw) [
    | none ↦ some (bad_field field)
    | some scheme ↦ fails_if (str_eq scheme "") field
  ]

  -- A URL that has to be there.
  unfoldable pub required_url : String → String → Check
  unfolding then_check fails_if validate_url
  required_url field raw = then_check (fails_if (str_eq raw "") field) (validate_url field raw)

  -- A file that has to be accessible where it is named.
  unfoldable pub optional_file : String → String → Check
  unfolding fails_if
  optional_file field path = if str_eq path "" then none else fails_if (not (accessible path)) field

  unfoldable pub validate_auth : Bool → AuthConfig → Check
  unfolding fails_if validate_url then_check
  validate_auth tls_required a =
      if str_eq a.issuer_url ""
      then fails_if tls_required "auth.issuerURL"
      else then_check (validate_url "auth.issuerURL" a.issuer_url)
          (if str_eq a.jwks_url "" then none else validate_url "auth.jwksURL" a.jwks_url)

  unfoldable pub validate_severity_triage : SeverityTriageConfig e → Check
  unfolding fails_if required_url then_check optional_file
  validate_severity_triage st =
      if not st.enabled
      then none
      else then_check (required_url "severityTriage.prometheusURL" st.prometheus_url) (
          then_check
            (fails_if (is_below_zero st.llm_confidence || is_above_one st.llm_confidence)
              "severityTriage.llmConfidence")
            (optional_file "severityTriage.prometheusBearerTokenFile"
              st.prometheus_bearer_token_file))

  unfoldable pub validate_tls_paths : Config e → Check
  unfolding then_check optional_file
  validate_tls_paths c = then_check (optional_file "agent.kaTlsCaFile" c.agent.ka_tls_ca_file) (
      then_check (optional_file "agent.dsTlsCaFile" c.agent.ds_tls_ca_file) (
        optional_file "severityTriage.prometheusTlsCaFile"
          c.severity_triage.prometheus_tls_ca_file))

  unfoldable pub validate_agent : AgentConfig → Check
  unfolding then_check required_url optional_file
  validate_agent a = then_check (required_url "agent.kaBaseURL" a.ka_base_url) (
      then_check (required_url "agent.kaMCPEndpoint" a.ka_mcp_endpoint) (
        then_check (required_url "agent.dsBaseURL" a.ds_base_url)
          (optional_file "agent.dsBearerTokenFile" a.ds_bearer_token_file)))

  unfoldable pub validate_settings : Config e → Check
  unfolding fails_if then_check validate_agent validate_auth validate_logging validate_rate_limit
      validate_shutdown validate_resilience validate_tls_paths validate_severity_triage
      validate_session
  validate_settings c =
      then_check
        (fails_if (ltb_ℤ c.server.port (pos 1) || ltb_ℤ (pos 65535) c.server.port) "server.port")
        (then_check (validate_agent c.agent) (
          then_check (validate_auth c.server.tls_required c.auth) (
            then_check (validate_logging c.log_level) (
              then_check (validate_rate_limit c.rate_limit) (
                then_check (validate_shutdown c.drain_seconds) (
                  then_check (validate_resilience c.resilience) (
                    then_check (validate_tls_paths c) (
                      then_check (validate_severity_triage c.severity_triage)
                        (validate_session c.session)))))))))

  unfoldable pub resolve_defaults : Config e → Config e
  resolve_defaults c =
      let a = c.agent in
      record c {
        agent_card_url =
            if str_eq c.agent_card_url ""
            then String.◌++◌ "https://localhost:" (show_port c.server.port)
            else c.agent_card_url;
        agent = record a {
          llm_api_key = if str_eq a.llm_api_key "" then llm_api_key else a.llm_api_key;
        };
      }

-- In buildResilientTransport. IdempotentOnly is not set.
unfoldable pub retry_config_of : DependencyConfig → RetryConfig
unfolding ◌+ℤ◌
retry_config_of dep = record {
  max_attempts = dep.retry_max +ℤ pos 1;
  retryable_statuses = dep.retryable_statuses;
  idempotent_only = false;
}

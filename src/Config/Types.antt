-- ===== src/Config/Types.antt =====
-- The records of internal/config/config.go, and what its code asks of the libraries.
use kubernaut_apifrontend.Common.{ℕ, String, Bool, Option, List}
use kubernaut_apifrontend.Common.Dict.{Dict}
use kubernaut_apifrontend.Common.Int.{ℤ}

-- Durations are in nanoseconds.
abbrev pub millisecond : ℕ
millisecond = 1000000

-- Floats with the two comparisons of the validation; `scheme_of` is url.Parse with the scheme,
-- `accessible` the success of os.Stat, and `show_port` is `%d`.
pub record ConfigEnv : Type 1 where
  pub Float : Type 0
  pub zero_float : Float
  pub is_below_zero : Float → Bool
  pub is_above_one : Float → Bool
  pub scheme_of : String → Option String
  pub accessible : String → Bool
  pub llm_api_key : String
  pub show_port : ℤ → String

-- A status below zero, which is no more valid than zero, is left out.
pub record DependencyConfig : Type 0 where
  pub connect_timeout : ℤ
  pub request_timeout : ℤ
  pub cb_max_requests : ℕ
  pub cb_interval : ℤ
  pub cb_timeout : ℤ
  pub cb_failure_threshold : ℕ
  pub retry_max : ℤ
  pub retry_init_backoff : ℤ
  pub retry_max_backoff : ℤ
  pub retryable_statuses : List ℕ

pub record ResilienceConfig : Type 0 where
  pub ka : DependencyConfig
  pub ds : DependencyConfig
  pub k8s : DependencyConfig

pub record SessionConfig : Type 0 where
  pub namespace : String
  pub disconnect_ttl : ℤ
  pub retention_ttl : ℤ

pub record AuthConfig : Type 0 where
  pub issuer_url : String
  pub jwks_url : String
  pub audience : String
  pub enable_replay_protection : Bool
  pub allow_insecure_issuers : Bool

pub record RateLimitConfig : Type 0 where
  pub ip_requests_per_sec : ℤ
  pub user_requests_per_sec : ℤ
  pub max_concurrent_sessions : ℤ
  pub tool_calls_per_minute : ℤ

-- The certificate files of the shared TLS configuration are left out.
pub record ServerConfig : Type 0 where
  pub port : ℤ
  pub tls_required : Bool
  pub max_sse_connections : ℤ

pub record AgentConfig : Type 0 where
  pub gcp_project : String
  pub gcp_region : String
  pub ka_base_url : String
  pub ka_mcp_endpoint : String
  pub ds_base_url : String
  pub ds_bearer_token_file : String
  pub ka_tls_ca_file : String
  pub ds_tls_ca_file : String
  pub llm_endpoint : String
  pub llm_model : String
  pub llm_api_key : String

module _ (e : ConfigEnv) where
  open e use {Float}

  pub record SeverityTriageConfig : Type 0 where
    pub enabled : Bool
    pub prometheus_url : String
    pub prometheus_tls_ca_file : String
    pub prometheus_bearer_token_file : String
    pub cache_ttl_seconds : ℤ
    pub max_queries_per_call : ℤ
    pub max_rules_evaluated : ℤ
    pub llm_confidence : Float

  -- `log_level`, `drain_seconds` and `group_mapping` stand for the records with one field.
  pub record Config : Type 0 where
    pub server : ServerConfig
    pub agent : AgentConfig
    pub mcp_enabled : Bool
    pub mcp_session_idle_timeout : ℤ
    pub agent_card_url : String
    pub auth : AuthConfig
    pub log_level : String
    pub rate_limit : RateLimitConfig
    pub drain_seconds : ℤ
    pub resilience : ResilienceConfig
    pub group_mapping : Dict String
    pub severity_triage : SeverityTriageConfig
    pub session : SessionConfig

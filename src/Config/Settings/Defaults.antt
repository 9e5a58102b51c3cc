-- ===== src/Config/Settings/Defaults.antt =====
-- DefaultConfig and Load of internal/config/config.go; yaml.Unmarshal is a parameter.
use kubernaut_apifrontend.Common.{ℕ, ◌*◌, false, Option, some, List, [], ◌∷◌}
use kubernaut_apifrontend.Common.Int.{pos}
use kubernaut_apifrontend.Auth.Jwks.{second}
use kubernaut_apifrontend.Config.Types.{
  ConfigEnv, DependencyConfig, AgentConfig, Config, millisecond,
}

unfoldable pub default_ka : DependencyConfig
default_ka = record {
  connect_timeout = pos (5 * second);
  request_timeout = pos (30 * second);
  cb_max_requests = 3;
  cb_interval = pos (10 * second);
  cb_timeout = pos (30 * second);
  cb_failure_threshold = 5;
  retry_max = pos 2;
  retry_init_backoff = pos (500 * millisecond);
  retry_max_backoff = pos (5 * second);
  retryable_statuses = 502 ∷ 503 ∷ 504 ∷ [];
}

unfoldable pub default_ds : DependencyConfig
default_ds = record {
  connect_timeout = pos (3 * second);
  request_timeout = pos (10 * second);
  cb_max_requests = 3;
  cb_interval = pos (10 * second);
  cb_timeout = pos (15 * second);
  cb_failure_threshold = 3;
  retry_max = pos 3;
  retry_init_backoff = pos (200 * millisecond);
  retry_max_backoff = pos (3 * second);
  retryable_statuses = 502 ∷ 503 ∷ 504 ∷ [];
}

unfoldable pub default_k8s : DependencyConfig
default_k8s = record {
  connect_timeout = pos (5 * second);
  request_timeout = pos (30 * second);
  cb_max_requests = 3;
  cb_interval = pos (10 * second);
  cb_timeout = pos (30 * second);
  cb_failure_threshold = 5;
  retry_max = pos 0;
  retry_init_backoff = pos 0;
  retry_max_backoff = pos 0;
  retryable_statuses = [];
}

unfoldable pub default_agent : AgentConfig
default_agent = record {
  gcp_project = "";
  gcp_region = "us-central1";
  ka_base_url = "http://localhost:8080";
  ka_mcp_endpoint = "http://localhost:8080/api/v1/mcp/";
  ds_base_url = "http://localhost:9090";
  ds_bearer_token_file = "";
  ka_tls_ca_file = "";
  ds_tls_ca_file = "";
  llm_endpoint = "";
  llm_model = "";
  llm_api_key = "";
}

module _ (e : ConfigEnv) where
  unfoldable pub default_config : Config e
  unfolding default_ka default_ds default_k8s default_agent
  default_config = record {
    server = record { port = pos 8443; tls_required = false; max_sse_connections = pos 0 };
    agent = default_agent;
    mcp_enabled = false;
    mcp_session_idle_timeout = pos 0;
    agent_card_url = "";
    auth = record {
      issuer_url = "";
      jwks_url = "";
      audience = "";
      enable_replay_protection = false;
      allow_insecure_issuers = false;
    };
    log_level = "INFO";
    rate_limit = record {
      ip_requests_per_sec = pos 100;
      user_requests_per_sec = pos 50;
      max_concurrent_sessions = pos 0;
      tool_calls_per_minute = pos 0;
    };
    drain_seconds = pos 15;
    resilience = record { ka = default_ka; ds = default_ds; k8s = default_k8s };
    group_mapping = [];
    severity_triage = record {
      enabled = false;
      prometheus_url = "";
      prometheus_tls_ca_file = "";
      prometheus_bearer_token_file = "";
      cache_ttl_seconds = pos 0;
      max_queries_per_call = pos 0;
      max_rules_evaluated = pos 0;
      llm_confidence = e.zero_float;
    };
    session = record { namespace = ""; disconnect_ttl = pos 0; retention_ttl = pos 0 };
  }

  -- `unmarshal` sets the fields that the data give.
  unfoldable pub load : (List ℕ → Config e → Option (Config e)) → List ℕ → Option (Config e)
  unfolding default_config
  load unmarshal [] = some default_config
  load unmarshal (b ∷ more) = unmarshal (b ∷ more) default_config

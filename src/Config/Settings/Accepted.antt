-- ===== src/Config/Settings/Accepted.antt =====
-- What Config.Validate (internal/config/config.go) accepts.
use kubernaut_apifrontend.Common.{◌≡◌, ◌≢◌, ◌↔◌, none}
use kubernaut_apifrontend.Common.Int.{pos, ◌≤ℤ◌}
use kubernaut_apifrontend.Config.Types.{ConfigEnv, ResilienceConfig, Config}
use kubernaut_apifrontend.Config.Settings.{
  validate_resilience, validate_rate_limit, validate_shutdown, validate_tls_paths, validate_agent,
  validate_settings,
}
use kubernaut_apifrontend.Config.Settings.Valid.{
  both_iff, iff_trans, checks, IsDependency, IsDependency-iff, not_below_iff, IsLevel, logging_iff,
}
use kubernaut_apifrontend.Config.Settings.Parts.{
  port_iff, HasNamespace, session_iff, IsUrl, IsFile, IsAuth, IsTriage, required_iff, IsFile-iff,
  IsAuth-iff, triage_iff,
}

module _ (e : ConfigEnv) where
  -- What a configuration has to fulfil.
  pub record IsConfig (c : Config e) : Type 0 where
    pub port : (pos 1 ≤ℤ c.server.port) × (c.server.port ≤ℤ pos 65535)
    pub ka_base_url : (c.agent.ka_base_url ≢ "") × IsUrl e c.agent.ka_base_url
    pub ka_mcp_endpoint : (c.agent.ka_mcp_endpoint ≢ "") × IsUrl e c.agent.ka_mcp_endpoint
    pub ds_base_url : (c.agent.ds_base_url ≢ "") × IsUrl e c.agent.ds_base_url
    pub ds_bearer_token : IsFile e c.agent.ds_bearer_token_file
    pub auth : IsAuth e c.server.tls_required c.auth
    pub level : IsLevel c.log_level
    pub ip_rate : pos 1 ≤ℤ c.rate_limit.ip_requests_per_sec
    pub user_rate : pos 1 ≤ℤ c.rate_limit.user_requests_per_sec
    pub drain : pos 1 ≤ℤ c.drain_seconds
    pub ka : IsDependency c.resilience.ka
    pub ds : IsDependency c.resilience.ds
    pub k8s : IsDependency c.resilience.k8s
    pub ka_ca : IsFile e c.agent.ka_tls_ca_file
    pub ds_ca : IsFile e c.agent.ds_tls_ca_file
    pub prometheus_ca : IsFile e c.severity_triage.prometheus_tls_ca_file
    pub triage : IsTriage e c.severity_triage
    pub session : HasNamespace c.session

  resilience_iff :
      (r : ResilienceConfig)
      → (validate_resilience r ≡ none)
        ↔ (IsDependency r.ka × (IsDependency r.ds × IsDependency r.k8s))
  unfolding validate_resilience
  resilience_iff r = both_iff _ _ (IsDependency-iff "resilience.ka" r.ka) (
      both_iff _ _ (IsDependency-iff "resilience.ds" r.ds)
        (IsDependency-iff "resilience.k8s" r.k8s))

  -- A configuration is accepted exactly if: the port is from 1 to 65535; the three backend URLs
  -- are there and have a scheme; an issuer with a URL is given, or TLS is not required; the log
  -- level is one of four, in any case; the rates and the drain time are positive; every dependency
  -- has timeouts that are not negative, the request timeout not below the connect timeout where
  -- both are set, a failure threshold from 1 to 100, at most 10 retries (a negative number
  -- included), and statuses from 400 to 599; every file that is named is accessible; the triage is
  -- off or has a URL and a confidence that is neither below 0 nor above 1; and a session namespace
  -- is given or no TTL.
  pub validate_settings-iff-IsConfig : (c : Config e) → (validate_settings e c ≡ none) ↔ IsConfig c
  unfolding validate_settings validate_agent validate_rate_limit validate_shutdown
      validate_tls_paths
  validate_settings-iff-IsConfig c =
      iff_trans
        (both_iff _ _ (checks _ _ (port_iff c.server.port)) (
          both_iff _ _
            (both_iff _ _ (required_iff e _ c.agent.ka_base_url) (
              both_iff _ _ (required_iff e _ c.agent.ka_mcp_endpoint) (
                both_iff _ _ (required_iff e _ c.agent.ds_base_url)
                  (IsFile-iff e _ c.agent.ds_bearer_token_file))))
            (both_iff _ _ (IsAuth-iff e c.server.tls_required c.auth) (
              both_iff _ _ (logging_iff c.log_level) (
                both_iff _ _
                  (both_iff _ _
                    (checks _ _ (not_below_iff c.rate_limit.ip_requests_per_sec (pos 1)))
                    (checks _ _ (not_below_iff c.rate_limit.user_requests_per_sec (pos 1))))
                  (both_iff _ _ (checks _ _ (not_below_iff c.drain_seconds (pos 1))) (
                    both_iff _ _ (resilience_iff c.resilience) (
                      both_iff _ _
                        (both_iff _ _ (IsFile-iff e _ c.agent.ka_tls_ca_file) (
                          both_iff _ _ (IsFile-iff e _ c.agent.ds_tls_ca_file)
                            (IsFile-iff e _ c.severity_triage.prometheus_tls_ca_file)))
                        (both_iff _ _ (triage_iff e c.severity_triage)
                          (session_iff c.session))))))))))
        (
          (λ h.
              (let (a, (b, (f, (l, (r, (d, (k, (t, (g, s))))))))) = h in
                record {
                  port = a;
                  ka_base_url = b.0;
                  ka_mcp_endpoint = b.1.0;
                  ds_base_url = b.1.1.0;
                  ds_bearer_token = b.1.1.1;
                  auth = f;
                  level = l;
                  ip_rate = r.0;
                  user_rate = r.1;
                  drain = d;
                  ka = k.0;
                  ds = k.1.0;
                  k8s = k.1.1;
                  ka_ca = t.0;
                  ds_ca = t.1.0;
                  prometheus_ca = t.1.1;
                  triage = g;
                  session = s;
                })),
          (λ k. (
            k.port,
            (
              (k.ka_base_url, (k.ka_mcp_endpoint, (k.ds_base_url, k.ds_bearer_token))),
              (
                k.auth,
                (
                  k.level,
                  (
                    (k.ip_rate, k.user_rate),
                    (
                      k.drain,
                      (
                        (k.ka, (k.ds, k.k8s)),
                        ((k.ka_ca, (k.ds_ca, k.prometheus_ca)), (k.triage, k.session)),
                      ),
                    ),
                  ),
                ),
              ),
            ),
          )),
        )

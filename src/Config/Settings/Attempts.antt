-- ===== src/Config/Settings/Attempts.antt =====
-- What an accepted configuration (internal/config/config.go) means for the retries that
-- buildResilientTransport of cmd/apifrontend/main.go sets up (internal/resilience/retry.go).
use kubernaut_apifrontend.Common.{◌≤◌, ◌≡◌, none, arith}
use kubernaut_apifrontend.Common.Int.{pos, pos_part, ◌≤ℤ◌, ◌+ℤ◌}
use kubernaut_apifrontend.Resilience.Retry.{Transport, Request, new_retry_transport, round_trip}
use kubernaut_apifrontend.Resilience.Retry.Attempts.{round_trip-Bounded, new_retry_transport-pos}
use kubernaut_apifrontend.Config.Types.{ConfigEnv, Config, DependencyConfig, ResilienceConfig}
use kubernaut_apifrontend.Config.Settings.{validate_settings, retry_config_of}
use kubernaut_apifrontend.Config.Settings.Valid.{IsDependency}
use kubernaut_apifrontend.Config.Settings.Accepted.{IsConfig, validate_settings-iff-IsConfig}

-- One of the three dependencies.
pub data Dependency (r : ResilienceConfig) : DependencyConfig → Type 0 where
  is_ka : Dependency r r.ka
  is_ds : Dependency r r.ds
  is_k8s : Dependency r r.k8s

Dependency-valid :
    {e : ConfigEnv} {c : Config e} {d : DependencyConfig}
    → IsConfig e c
    → Dependency c.resilience d
    → IsDependency d
Dependency-valid k is_ka = k.ka
Dependency-valid k is_ds = k.ds
Dependency-valid k is_k8s = k.k8s

few_attempts :
    (d : DependencyConfig)
    → d.retry_max ≤ℤ pos 10
    → pos_part (new_retry_transport (retry_config_of d)).max_attempts ≤ 11
unfolding new_retry_transport retry_config_of ◌+ℤ◌
few_attempts d h = ground (arith, h)

-- With an accepted configuration, every request of a dependency is sent at most eleven times.
pub accepted-attempts-le :
    (e : ConfigEnv) (c : Config e) (d : DependencyConfig)
    → validate_settings e c ≡ none
    → Dependency c.resilience d
    → (t : Transport) (req : Request) (w : t.World)
    → (round_trip t (new_retry_transport (retry_config_of d)) req w).sent ≤ 11
accepted-attempts-le e c d valid dep t req w =
    let k = Dependency-valid ((validate_settings-iff-IsConfig e c).0 valid) dep in
    let most =
      round_trip-Bounded t (new_retry_transport (retry_config_of d)) req w
        (new_retry_transport-pos t (retry_config_of d)) in
    omega (arith, most.0, few_attempts d k.retries)
